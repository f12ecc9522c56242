-- ===== src/Server/Socket/Total.antt =====
-- No line of a client makes `handleSocketConn` panic, whichever writes fail, on a database of strings.
use nodare_db_dev.Prelude.{
  Bool, Bool-cases, Bytes, List, Option, Returns, [], arith, bytes_eq, get_or, inl, inr, length,
  length-append, ltb, none, not, refl, set, some, suc, zero, ℕ, ◌+◌, ◌<◌, ◌==◌, ◌^◌, ◌||◌, ◌∷◌, ◌≡◌,
}
use nodare_db_dev.Database.Dick.{XDatabase}
use nodare_db_dev.Database.Sub.{del, get}
use nodare_db_dev.Database.Sub.Move.{pure_hash}
use nodare_db_dev.Server.Session.{
  Mode, Next, Session, after_bar, bar, bel, etb, key_limit, leave, made, magic_d, magic_g, magic_s,
  mode_add, mode_del, mode_get, mode_set, new_session, no_mode, put_val, stay, until_bar, val_limit,
}
use nodare_db_dev.Server.Socket.{
  cancel, command, command_line, del_line, enter, get_line, handle_line, handle_lines, set_line,
}
use nodare_db_dev.Server.Socket.Sound.{
  After, Has-put_each, IsSession, Serves, del_keys-After, get_keys-After, not_set, same_parts,
  set_keys-After,
}
use nodare_db_dev.Utils.{str2int}

-- The database that a line leaves.
abbrev pub database_of : Next → XDatabase
database_of (stay s db) = db
database_of (leave s db) = db

module _ (h pcas : Bytes → ℕ) (accepts : ℕ → Bool) where
  set_line-After :
      (n rest : ℕ) (s : Session) (db : XDatabase) (line : Bytes) (o : Option ℕ)
      → s.state ≡ o
      → Serves h pcas n db
      → IsSession s
      → s.mode ≡ mode_set
      → n + length s.keys + suc rest < 2 ^ 63
      → Returns (set_line accepts (pure_hash h) pcas s db line) (After h pcas rest)
  unfolding set_line cancel put_val
  set_line-After n rest s db line none st v sound e small =
      rw st (_, refl, (n, v, same_parts sound, omega arith))
  set_line-After n rest s db line (some zero) st v sound e small =
      rw st (elim (Bool-cases (ltb key_limit (length line))) [
        | inl long ↦ rw long (_, refl, (n, v))
        | inr fits ↦ rw fits (_, refl, (n, v, same_parts sound, omega arith))
      ])
  set_line-After n rest s db line (some (suc zero)) st v sound e small =
      let (m, with_vals) = sound.with_vals e in
      let stored = rw with_vals at (sound.stored_all e) in
      rw st (elim (Bool-cases (ltb val_limit (length line))) [
        | inl long ↦ rw long (_, refl, (n, v))
        | inr fits ↦
            rw (fits, with_vals)
              (
                _,
                refl,
                (
                  n,
                  v,
                  record {
                    with_vals = λ e'. (_, refl);
                    stored_all = λ e'. Has-put_each m s.key line s.keys stored;
                  },
                  omega (arith, length-append s.keys (s.key ∷ [])),
                ),
              )
      ])
  set_line-After n rest s db line (some (suc (suc zero))) st v sound e small =
      rw st (elim (Bool-cases (length line == 1)) [
        | inr long ↦ rw long (_, refl, (n, v))
        | inl one ↦ rw one (elim (Bool-cases (bytes_eq line (etb ∷ []))) [
          | inl end ↦ rw end (
              set_keys-After h pcas accepts n rest (record s { state = some 2 }) db v
                (same_parts sound) e (omega arith))
          | inr more ↦ rw more (_, refl, (n, v, same_parts sound, omega arith))
        ])
      ])
  set_line-After n rest s db line (some (suc (suc (suc i)))) st v sound e small =
      rw st (_, refl, (n, v, same_parts sound, omega arith))

  get_line-After :
      (n rest : ℕ) (s : Session) (db : XDatabase) (line : Bytes) (o : Option ℕ)
      → s.state ≡ o
      → Serves h pcas n db
      → s.mode ≡ mode_get
      → n + length s.keys + suc rest < 2 ^ 63
      → Returns (get_line accepts (pure_hash h) pcas s db line) (After h pcas rest)
  unfolding get_line cancel
  get_line-After n rest s db line none st v e small =
      rw st (_, refl, (n, v, not_set _ (λ e'. absurd (cc)), omega arith))
  get_line-After n rest s db line (some zero) st v e small =
      rw st (elim (Bool-cases (ltb key_limit (length line))) [
        | inl long ↦ rw long (_, refl, (n, v))
        | inr fits ↦
            let more = length-append s.keys (line ∷ []) in
            rw fits (_, refl, (n, v, not_set _ (λ e'. absurd (cc)), omega (arith, more)))
      ])
  get_line-After n rest s db line (some (suc zero)) st v e small =
      rw st (elim (Bool-cases (length line == 1)) [
        | inr long ↦ rw long (_, refl, (n, v))
        | inl one ↦ rw one (elim (Bool-cases (bytes_eq line (etb ∷ []))) [
          | inl end ↦ rw end (
              get_keys-After h pcas accepts n rest (ltb 1 (length s.keys)) s.keys
                (record s { state = some 1 }) db v (omega arith))
          | inr other ↦ rw other (elim (Bool-cases (bytes_eq line (bel ∷ []))) [
            | inl again ↦ rw again (_, refl, (n, v, not_set _ (λ e'. absurd (cc)), omega arith))
            | inr no_such ↦ rw no_such (_, refl, (n, v, not_set _ (λ e'. absurd (cc)), omega arith))
          ])
        ])
      ])
  get_line-After n rest s db line (some (suc (suc i))) st v e small =
      rw st (_, refl, (n, v, not_set _ (λ e'. absurd (cc)), omega arith))

  del_line-After :
      (n rest : ℕ) (s : Session) (db : XDatabase) (line : Bytes) (o : Option ℕ)
      → s.state ≡ o
      → Serves h pcas n db
      → s.mode ≡ mode_del
      → n + length s.keys + suc rest < 2 ^ 63
      → Returns (del_line accepts (pure_hash h) pcas s db line) (After h pcas rest)
  unfolding del_line cancel
  del_line-After n rest s db line none st v e small =
      rw st (_, refl, (n, v, not_set _ (λ e'. absurd (cc)), omega arith))
  del_line-After n rest s db line (some zero) st v e small =
      rw st (elim (Bool-cases (ltb key_limit (length line))) [
        | inl long ↦ rw long (_, refl, (n, v))
        | inr fits ↦
            let more = length-append s.keys (line ∷ []) in
            rw fits (_, refl, (n, v, not_set _ (λ e'. absurd (cc)), omega (arith, more)))
      ])
  del_line-After n rest s db line (some (suc zero)) st v e small =
      rw st (elim (Bool-cases (length line == 1)) [
        | inr long ↦ rw long (_, refl, (n, v))
        | inl one ↦ rw one (elim (Bool-cases (bytes_eq line (etb ∷ []))) [
          | inl end ↦ rw end (
              del_keys-After h pcas accepts n rest s.keys (record s { state = some 1 }) db v e
                (omega arith))
          | inr other ↦ rw other (elim (Bool-cases (bytes_eq line (bel ∷ []))) [
            | inl again ↦ rw again (_, refl, (n, v, not_set _ (λ e'. absurd (cc)), omega arith))
            | inr no_such ↦ rw no_such (_, refl, (n, v, not_set _ (λ e'. absurd (cc)), omega arith))
          ])
        ])
      ])
  del_line-After n rest s db line (some (suc (suc i))) st v e small =
      rw st (_, refl, (n, v, not_set _ (λ e'. absurd (cc)), omega arith))

  enter-After :
      (n rest : ℕ) (m : Mode) (number : Bytes) (s : Session) (db : XDatabase)
      → Serves h pcas n db
      → s.keys ≡ []
      → (vals : List (Bytes × Bytes)) × (s.vals ≡ some vals)
      → n + rest < 2 ^ 63
      → After h pcas rest (enter accepts (pure_hash h) pcas m number s db)
  unfolding enter
  enter-After n rest m number s db v none_yet made_vals small =
      elim (Bool-cases (str2int number == 0)) [
        | inl refused ↦ rw refused (n, v)
        | inr taken ↦ rw taken (
          n,
          v,
          record { with_vals = λ e. made_vals; stored_all = λ e. rw none_yet tt },
          rw none_yet (omega arith),
        )
      ]

  made-some :
      (vals : Option (List (Bytes × Bytes))) → (m : List (Bytes × Bytes)) × (made vals ≡ some m)
  made-some none = ([], refl)
  made-some (some m) = (m, refl)

  pub command_line-After :
      (n rest : ℕ) (s : Session) (db : XDatabase) (line : Bytes)
      → Serves h pcas n db
      → n + rest < 2 ^ 63
      → After h pcas rest (command_line accepts (pure_hash h) pcas s db line)
  unfolding command_line command cancel
  command_line-After n rest s db line v small =
      let t = record s { keys = []; vals = made s.vals; state = none } in
      let entered : (m : Mode)
          → After h pcas rest
              (enter accepts (pure_hash h) pcas m (until_bar (after_bar line)) t db) =
        λ m.
          enter-After n rest m (until_bar (after_bar line)) t db v refl (made-some s.vals) small in
      elim (Bool-cases (ltb (length line) 3 || not (get_or line 1 0 == bar))) [
        | inl refused ↦ rw refused (n, v)
        | inr taken ↦ rw taken (elim (Bool-cases (bytes_eq (until_bar line) (magic_s ∷ []))) [
          | inl set ↦ rw set (entered mode_set)
          | inr not_s ↦ rw not_s (elim (Bool-cases (bytes_eq (until_bar line) (magic_g ∷ []))) [
            | inl get ↦ rw get (entered mode_get)
            | inr not_g ↦ rw not_g (elim (Bool-cases (bytes_eq (until_bar line) (magic_d ∷ []))) [
              | inl del ↦ rw del (entered mode_del)
              | inr other ↦ rw other (n, v)
            ])
          ])
        ])
      ]

  pub handle_line-After :
      (n rest : ℕ) (s : Session) (db : XDatabase) (line : Bytes) (m : Mode)
      → s.mode ≡ m
      → Serves h pcas n db
      → IsSession s
      → n + length s.keys + suc rest < 2 ^ 63
      → Returns (handle_line accepts (pure_hash h) pcas s db line) (After h pcas rest)
  unfolding handle_line
  handle_line-After n rest s db line no_mode e v sound small =
      rw e
        (_, refl, command_line-After n rest (record s { mode = no_mode }) db line v (omega arith))
  handle_line-After n rest s db line mode_add e v sound small =
      rw e (_, refl, (n, v, not_set _ (λ e'. absurd (cc)), omega arith))
  handle_line-After n rest s db line mode_get e v sound small =
      rw e (get_line-After n rest (record s { mode = mode_get }) db line s.state refl v refl small)
  handle_line-After n rest s db line mode_set e v sound small = rw e (
      set_line-After n rest (record s { mode = mode_set }) db line s.state refl v
        (record { with_vals = λ e'. sound.with_vals e; stored_all = λ e'. sound.stored_all e }) refl
        small)
  handle_line-After n rest s db line mode_del e v sound small =
      rw e (del_line-After n rest (record s { mode = mode_del }) db line s.state refl v refl small)

  handle_lines-After :
      (lines : List Bytes) (next : Next)
      → After h pcas (length lines) next
      → Returns (handle_lines accepts (pure_hash h) pcas lines next) (After h pcas 0)
  unfolding handle_lines
  handle_lines-After [] next a = (next, refl, a)
  handle_lines-After (line ∷ rest) (leave s db) a = (_, refl, a)
  handle_lines-After (line ∷ rest) (stay s db) (n, v, sound, small) =
      let (next, run, a) = handle_line-After n (length rest) s db line s.mode refl v sound small in
      rw run (handle_lines-After rest next a)

  -- A new session, on a database that models a map of strings with at most `n` entries in a sub-
  -- dictionary, `n` and the number of lines below 2 ^ 63 together, never panics: whatever lines
  -- it reads and whichever writes fail, it returns, and the database models a map of strings.
  pub handle_lines-returns :
      {n : ℕ} (lines : List Bytes) (db : XDatabase)
      → Serves h pcas n db
      → n + length lines < 2 ^ 63
      → Returns
          (handle_lines accepts (pure_hash h) pcas lines (stay new_session db))
          λ next. (m : ℕ) × Serves h pcas m (database_of next)
  handle_lines-returns {n = n} lines db v small =
      let (next, run, a) =
        handle_lines-After lines (stay new_session db)
          (n, v, not_set new_session (λ e. absurd (cc)), omega arith) in
      (next, run, served next a)
    where
      served : (next : Next) → After h pcas 0 next → (m : ℕ) × Serves h pcas m (database_of next)
      served (leave s db) (m, v) = (m, v)
      served (stay s db) (m, v, sound, small) = (m, v)
