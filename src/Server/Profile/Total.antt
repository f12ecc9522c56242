-- ===== src/Server/Profile/Total.antt =====
-- server/socket.go: which lines of a client of the Unix socket make `handleSocketConn` panic, on a
-- database of strings.
use nodare_db_dev.Prelude.{
  Bool, Bool-cases, Bytes, List, Returns, Run, [], ap, arith, bytes_eq, false, fault, inl, inr,
  length, nil_dereference, refl, set, suc, sym, true, ℕ, ◌&&◌, ◌+◌, ◌<◌, ◌==◌, ◌^◌, ◌||◌, ◌∙◌, ◌∷◌,
  ◌≡◌, ◌≢◌, ◌⊎◌,
}
use nodare_db_dev.Database.Dick.{XDatabase}
use nodare_db_dev.Database.Sub.Move.{pure_hash}
use nodare_db_dev.Server.Profile.{
  Profiles, after_profile, cleared, cpu_profile, error_reply, is_command, magic_1, magic_2,
  mem_profile, other_line, say, start_reply, stop_reply, unix_command, unix_line, unix_lines,
}
use nodare_db_dev.Server.Session.{
  Mode, Next, Session, leave, mode_add, mode_del, mode_get, mode_set, new_session, no_mode, stay,
  until_bar,
}
use nodare_db_dev.Server.Socket.{handle_line, send}
use nodare_db_dev.Server.Socket.Sound.{After, IsSession, Serves, not_set}
use nodare_db_dev.Server.Socket.Total.{command_line-After, database_of, handle_line-After}

-- A line with `1|` or `2|` and text after it.
unfoldable pub asks_profile : Bytes → Bool
asks_profile (c ∷ d ∷ e ∷ s) = (c == 49 || c == 50) && d == 124
asks_profile _ = false

unfoldable pub any_asks : List Bytes → Bool
any_asks [] = false
any_asks (line ∷ lines) = asks_profile line || any_asks lines

is_command-asks :
    (c : ℕ) (line : Bytes)
    → (c ≡ 49) ⊎ (c ≡ 50)
    → is_command c line ≡ true
    → asks_profile line ≡ true
unfolding asks_profile until_bar bytes_eq
is_command-asks c [] known e = absurd (ground (arith, e))
is_command-asks c (a ∷ []) known e = absurd (ground (arith, e))
is_command-asks c (a ∷ b ∷ []) known e = absurd (ground (arith, e))
is_command-asks c (a ∷ b ∷ d ∷ s) known e = ground (arith, e, known)

module _ (h pcas : Bytes → ℕ) (accepts starts : ℕ → Bool) where
  say-keeps :
      (s : Session) (text : Bytes)
      → ((say accepts starts s text).mode ≡ s.mode) × ((say accepts starts s text).keys ≡ s.keys)
  unfolding say send
  say-keeps s text = elim (Bool-cases (accepts (length s.sent))) [
    | inl e ↦ rw (e, say) (refl, refl)
    | inr e ↦ rw (e, say) (refl, refl)
  ]

  -- A reply of the profiler leaves a session that waits for a command as sound as it was.
  said-After :
      (n rest : ℕ) (s : Session) (db : XDatabase) (text : Bytes)
      → Serves h pcas n db
      → s.mode ≡ no_mode
      → s.keys ≡ []
      → n + rest < 2 ^ 63
      → After h pcas rest (stay (say accepts starts s text) db)
  said-After n rest s db text v e none_yet small =
      let (mode, keys) = say-keeps s text in
      let few : n + length (say accepts starts s text).keys + rest < 2 ^ 63 =
        omega (arith, small, ap length (keys ∙ none_yet)) in
      (n, v, not_set _ (λ e'. let clash = sym e ∙ (sym mode ∙ e') in absurd (cc)), few)

  -- The session goes on, as sound as it was, or the profiler is nil.
  abbrev OrNil : ℕ → Profiles → Run (Next × Profiles) → Type 0
  OrNil rest p run =
      (Returns run λ q. After h pcas rest q.0 × (q.1.has_prof ≡ p.has_prof))
      ⊎ ((run ≡ fault nil_dereference) × (p.has_prof ≡ false))

  cpu_profile-After :
      (n rest : ℕ) (s : Session) (db : XDatabase) (p : Profiles)
      → Serves h pcas n db
      → s.mode ≡ no_mode
      → s.keys ≡ []
      → n + rest < 2 ^ 63
      → OrNil rest p (after_profile db (cpu_profile accepts starts s p))
  unfolding cpu_profile
  cpu_profile-After n rest s db p v e none_yet small = elim (Bool-cases p.has_prof) [
    | inr none_set ↦ rw none_set (inr (refl, refl))
    | inl set ↦ rw set (elim (Bool-cases p.cpu_open) [
      | inl o ↦ rw o (inl (_, refl, (said-After n rest s db stop_reply v e none_yet small, refl)))
      | inr o ↦ elim (Bool-cases (starts p.cpu_tries)) [
        | inl t ↦
            rw (o, t) (inl (_, refl, (said-After n rest s db start_reply v e none_yet small, refl)))
        | inr t ↦
            rw (o, t) (inl (_, refl, (said-After n rest s db error_reply v e none_yet small, refl)))
      ]
    ])
  ]

  mem_profile-After :
      (n rest : ℕ) (text : Bytes) (s : Session) (db : XDatabase) (p : Profiles)
      → Serves h pcas n db
      → s.mode ≡ no_mode
      → s.keys ≡ []
      → n + rest < 2 ^ 63
      → OrNil rest p (after_profile db (mem_profile accepts starts text s p))
  unfolding mem_profile
  mem_profile-After n rest text s db p v e none_yet small = elim (Bool-cases p.has_prof) [
    | inr none_set ↦ rw none_set (inr (refl, refl))
    | inl set ↦ rw set (inl (_, refl, (said-After n rest s db _ v e none_yet small, refl)))
  ]

  -- And then the line is a command of the profiler.
  abbrev AtCommand : ℕ → Profiles → Bytes → Run (Next × Profiles) → Type 0
  AtCommand rest p line run =
      (Returns run λ q. After h pcas rest q.0 × (q.1.has_prof ≡ p.has_prof))
      ⊎ ((run ≡ fault nil_dereference) × ((p.has_prof ≡ false) × (asks_profile line ≡ true)))

  asked :
      (rest : ℕ) (p : Profiles) (line : Bytes) (run : Run (Next × Profiles))
      → asks_profile line ≡ true
      → OrNil rest p run
      → AtCommand rest p line run
  asked rest p line run asks (inl returns) = inl returns
  asked rest p line run asks (inr (failed, none_set)) = inr (failed, (none_set, asks))

  unix_command-After :
      (n rest : ℕ) (p : Profiles) (s : Session) (db : XDatabase) (line : Bytes)
      → s.mode ≡ no_mode
      → Serves h pcas n db
      → n + rest < 2 ^ 63
      → AtCommand rest p line (unix_command accepts starts (pure_hash h) pcas p s db line)
  unfolding unix_command
  unix_command-After n rest p s db line e v small = elim (Bool-cases (is_command magic_1 line)) [
    | inl one ↦ rw one (
        asked rest p line _ (is_command-asks magic_1 line (inl refl) one)
          (mem_profile-After n rest _ (cleared s) db p v e refl small))
    | inr not_one ↦ rw not_one (elim (Bool-cases (is_command magic_2 line)) [
      | inl two ↦ rw two (
          asked rest p line _ (is_command-asks magic_2 line (inr refl) two)
            (cpu_profile-After n rest (cleared s) db p v e refl small))
      | inr other ↦
          rw other
            (inl (_, refl, (command_line-After h pcas accepts n rest s db line v small, refl)))
    ])
  ]

  other_line-After :
      (n rest : ℕ) (p : Profiles) (s : Session) (db : XDatabase) (line : Bytes)
      → Serves h pcas n db
      → IsSession s
      → n + length s.keys + suc rest < 2 ^ 63
      → Returns
          (other_line p (handle_line accepts (pure_hash h) pcas s db line))
          λ q. After h pcas rest q.0 × (q.1.has_prof ≡ p.has_prof)
  other_line-After n rest p s db line v sound small =
      let (next, run, a) =
        handle_line-After h pcas accepts n rest s db line s.mode refl v sound small in
      rw run ((next, p), refl, (a, refl))

  -- Outside of `no_mode` a line is handled as on any other connection.
  unix_line-other :
      (p : Profiles) (s : Session) (db : XDatabase) (line : Bytes) (m : Mode)
      → s.mode ≡ m
      → m ≢ no_mode
      → unix_line accepts starts (pure_hash h) pcas p s db line
        ≡ other_line p (handle_line accepts (pure_hash h) pcas s db line)
  unfolding unix_line
  unix_line-other p s db line no_mode e ne = absurd (ne refl)
  unix_line-other p s db line mode_add e ne = rw e refl
  unix_line-other p s db line mode_get e ne = rw e refl
  unix_line-other p s db line mode_set e ne = rw e refl
  unix_line-other p s db line mode_del e ne = rw e refl

  unix_line-After :
      (n rest : ℕ) (p : Profiles) (s : Session) (db : XDatabase) (line : Bytes) (m : Mode)
      → s.mode ≡ m
      → Serves h pcas n db
      → IsSession s
      → n + length s.keys + suc rest < 2 ^ 63
      → AtCommand rest p line (unix_line accepts starts (pure_hash h) pcas p s db line)
  unfolding unix_line
  unix_line-After n rest p s db line no_mode e v sound small = rw e (
      unix_command-After n rest p (record s { mode = no_mode }) db line refl v
        (omega (arith, small)))
  unix_line-After n rest p s db line mode_add e v sound small =
      rw (unix_line-other p s db line mode_add e (λ x. absurd (cc)))
        (inl (other_line-After n rest p s db line v sound small))
  unix_line-After n rest p s db line mode_get e v sound small =
      rw (unix_line-other p s db line mode_get e (λ x. absurd (cc)))
        (inl (other_line-After n rest p s db line v sound small))
  unix_line-After n rest p s db line mode_set e v sound small =
      rw (unix_line-other p s db line mode_set e (λ x. absurd (cc)))
        (inl (other_line-After n rest p s db line v sound small))
  unix_line-After n rest p s db line mode_del e v sound small =
      rw (unix_line-other p s db line mode_del e (λ x. absurd (cc)))
        (inl (other_line-After n rest p s db line v sound small))

  unix_lines-After :
      (lines : List Bytes) (next : Next) (p : Profiles)
      → After h pcas (length lines) next
      → (Returns
          (unix_lines accepts starts (pure_hash h) pcas lines (next, p))
          λ q. After h pcas 0 q.0)
        ⊎ ((unix_lines accepts starts (pure_hash h) pcas lines (next, p) ≡ fault nil_dereference)
            × ((p.has_prof ≡ false) × (any_asks lines ≡ true)))
  unfolding unix_lines any_asks
  unix_lines-After [] next p a = inl (_, refl, a)
  unix_lines-After (line ∷ rest) (leave s db) p a = inl (_, refl, a)
  unix_lines-After (line ∷ rest) (stay s db) p (n, v, sound, small) =
      elim (unix_line-After n (length rest) p s db line s.mode refl v sound small) [
        | inl ((next, p'), run, (a, same)) ↦ rw run (elim (unix_lines-After rest next p' a) [
          | inl returns ↦ inl returns
          | inr (failed, (none_set, asks)) ↦
              inr (failed, (sym same ∙ none_set, ground (arith, asks)))
        ])
        | inr (failed, (none_set, asks)) ↦ inr (rw failed refl, (none_set, rw asks refl))
      ]

  served : (next : Next) → After h pcas 0 next → (m : ℕ) × Serves h pcas m (database_of next)
  served (leave s db) (m, v) = (m, v)
  served (stay s db) (m, v, sound, small) = (m, v)

  -- A new session on the Unix socket, on a database that models a map of strings with at most `n`
  -- entries in a sub-dictionary, `n` and the number of lines below 2 ^ 63 together, whatever
  -- lines it reads, whichever writes fail and whichever CPU profiles start: it returns, and the
  -- database models a map of strings; or it panics with a nil dereference, the profiler is not
  -- set, and one of the lines is a command of the profiler, `1|` or `2|` with text after it.
  pub unix_lines-returns :
      {n : ℕ} (lines : List Bytes) (db : XDatabase) (p : Profiles)
      → Serves h pcas n db
      → n + length lines < 2 ^ 63
      → (Returns
          (unix_lines accepts starts (pure_hash h) pcas lines (stay new_session db, p))
          λ q. (m : ℕ) × Serves h pcas m (database_of q.0))
        ⊎ ((unix_lines accepts starts (pure_hash h) pcas lines (stay new_session db, p)
              ≡ fault nil_dereference)
            × ((p.has_prof ≡ false) × (any_asks lines ≡ true)))
  unix_lines-returns {n = n} lines db p v small =
      elim (unix_lines-After lines (stay new_session db) p
        (n, v, not_set new_session (λ e. absurd (cc)), omega arith)) [
          | inl (q, run, a) ↦ inl (q, run, served q.0 a)
          | inr failed ↦ inr failed
        ]
