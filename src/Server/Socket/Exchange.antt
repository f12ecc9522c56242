-- ===== src/Server/Socket/Exchange.antt =====
-- Whole exchanges of a client with the session: the lines of one request and what they do.
use nodare_db_dev.Prelude.{
  Bool, Bytes, List, Option, Run, [], append_assoc, arith, bytes_eq, bytes_eq_refl, false, get_or,
  inr, length, ltb, none, ok, refl, some, true, ℕ, ◌++◌, ◌+◌, ◌<◌, ◌^◌, ◌∙◌, ◌∷◌, ◌≡◌, ◌≤◌,
}
use nodare_db_dev.Database.Dick.{XDatabase}
use nodare_db_dev.Database.Entry.{Value, str}
use nodare_db_dev.Database.Refines.{Models}
use nodare_db_dev.Database.Sub.Edit.{update}
use nodare_db_dev.Database.Sub.Move.{pure_hash}
use nodare_db_dev.Server.Session.{
  Session, ack, after_bar, bar, crlf, etb, key_limit, made, magic_d, magic_g, magic_s, mode_del,
  mode_get, mode_set, no_mode, put_val, stay, until_bar, val_at, val_limit, written,
}
use nodare_db_dev.Server.Socket.{
  command, command_line, del_line, end_get, end_set, enter, get_line, handle_line, handle_lines,
  set_line,
}
use nodare_db_dev.Server.Socket.Loops.{
  IsText, del_keys-Models, del_answer, del_texts, get_keys-texts, removed, send-accepted,
  set_keys-Models, stored, text_of, texts,
}
use nodare_db_dev.Utils.{decimal, str2int}

-- The requests for one key, without the line that ends them.
abbrev pub set_request : Bytes → Bytes → List Bytes
set_request k v = (magic_s ∷ bar ∷ 49 ∷ []) ∷ k ∷ v ∷ (etb ∷ []) ∷ []

abbrev pub get_request : Bytes → List Bytes
get_request k = (magic_g ∷ bar ∷ 49 ∷ []) ∷ k ∷ (etb ∷ []) ∷ []

abbrev pub del_request : Bytes → List Bytes
del_request k = (magic_d ∷ bar ∷ 49 ∷ []) ∷ k ∷ (etb ∷ []) ∷ []

module _ (accepts : ℕ → Bool) (hash : Bytes → Run ℕ) (pcas : Bytes → ℕ) where
  -- The three commands, with one key each.
  set_command :
      (s : Session) (db : XDatabase)
      → s.mode ≡ no_mode
      → handle_line accepts hash pcas s db (magic_s ∷ bar ∷ 49 ∷ [])
        ≡ ok (stay (record s { keys = []; vals = made s.vals; state = some 0; mode = mode_set }) db)
  unfolding handle_line command_line command enter until_bar after_bar bytes_eq get_or str2int
      decimal
  set_command s db e = rw e refl

  get_command :
      (s : Session) (db : XDatabase)
      → s.mode ≡ no_mode
      → handle_line accepts hash pcas s db (magic_g ∷ bar ∷ 49 ∷ [])
        ≡ ok (stay (record s { keys = []; vals = made s.vals; state = some 0; mode = mode_get }) db)
  unfolding handle_line command_line command enter until_bar after_bar bytes_eq get_or str2int
      decimal
  get_command s db e = rw e refl

  del_command :
      (s : Session) (db : XDatabase)
      → s.mode ≡ no_mode
      → handle_line accepts hash pcas s db (magic_d ∷ bar ∷ 49 ∷ [])
        ≡ ok (stay (record s { keys = []; vals = made s.vals; state = some 0; mode = mode_del }) db)
  unfolding handle_line command_line command enter until_bar after_bar bytes_eq get_or str2int
      decimal
  del_command s db e = rw e refl

module _ (h pcas : Bytes → ℕ) (accepts : ℕ → Bool) (all : (i : ℕ) → accepts i ≡ true) where
  -- A GET of one key: the reply is the value or NUL, and the session takes the next command.
  get_request-reply :
      {n : ℕ} (s : Session) (db : XDatabase) (f : Bytes → Option Value) (k : Bytes)
      (rest : List Bytes)
      → s.mode ≡ no_mode
      → length k ≤ key_limit
      → Models h pcas n f db.xdick
      → IsText (f k)
      → handle_lines accepts (pure_hash h) pcas (get_request k ++ rest) (stay s db)
        ≡ handle_lines accepts (pure_hash h) pcas rest (
            stay
              (record s {
                mode = no_mode;
                state = some 1;
                keys = [];
                vals = made s.vals;
                sent = s.sent ++ text_of false s.key (f k) ∷ [];
              })
              db)
  unfolding handle_lines handle_line get_line end_get bytes_eq texts
  get_request-reply s db f k rest e le m text =
      let entered = record s {
        keys = k ∷ [];
        vals = made s.vals;
        state = some 1;
        mode = mode_get;
      } in
      let fits : (ltb key_limit (length k)) ≡ false = ground arith in
      rw (get_command accepts (pure_hash h) pcas s db e) (
        rw fits
          (rw (get_keys-texts h pcas accepts false (k ∷ []) entered db f all m (text, tt)) refl))

  -- A SET of one pair: the value is stored, ACK is the reply, and the session takes the next command.
  set_request-stores :
      {n : ℕ} (s : Session) (db : XDatabase) (f : Bytes → Option Value) (k v : Bytes)
      (rest : List Bytes)
      → s.mode ≡ no_mode
      → s.vals ≡ none
      → length k ≤ key_limit
      → length v ≤ val_limit
      → Models h pcas n f db.xdick
      → n + 1 < 2 ^ 63
      → (db' : XDatabase) × (handle_lines accepts
            (pure_hash h)
            pcas
            (set_request k v ++ rest)
            (stay s db)
          ≡ handle_lines accepts (pure_hash h) pcas rest (
              stay
                (record s {
                  mode = no_mode;
                  state = some 2;
                  key = [];
                  keys = [];
                  vals = none;
                  sent = s.sent ++ (ack ∷ crlf) ∷ [];
                })
                db'))
        × Models h pcas (n + 1) (update f k (some (str v))) db'.xdick
  unfolding handle_lines handle_line set_line end_set put_val bytes_eq stored written
  set_request-stores s db f k v rest e no_vals le_k le_v m small =
      let filled = record s {
        key = [];
        keys = k ∷ [];
        vals = some ((k, v) ∷ []);
        state = some 2;
        mode = mode_set;
      } in
      let found : val_at filled.vals k ≡ ok v = unfold val_at in rw (bytes_eq_refl k) refl in
      let fits_k : (ltb key_limit (length k)) ≡ false = ground arith in
      let fits_v : (ltb val_limit (length v)) ≡ false = ground arith in
      let (db', run, m') =
        set_keys-Models h pcas accepts (λ q. v) (k ∷ []) filled db f (found, tt) m small in
      (
        db',
        rw (set_command accepts (pure_hash h) pcas s db e, no_vals)
            (rw fits_k
              (rw fits_v (rw run (rw (send-accepted accepts filled (ack ∷ crlf) all) refl)))),
        m',
      )

  -- The lines of a DEL request of one key within the limit, in a session that waits for a
  -- command, on a database that models a map with at most `n < 2 ^ 63` entries in a sub-
  -- dictionary, where every write succeeds: the key is gone from the map; the reply is NUL if the
  -- key was there and ACK if it was not; and the session stays in the mode of DEL with the key in
  -- its list.
  pub del_request-answers :
      {n : ℕ} (s : Session) (db : XDatabase) (f : Bytes → Option Value) (k : Bytes)
      → s.mode ≡ no_mode
      → length k ≤ key_limit
      → Models h pcas n f db.xdick
      → n < 2 ^ 63
      → (db' : XDatabase) × (handle_lines accepts (pure_hash h) pcas (del_request k) (stay s db)
          ≡ ok (
              stay
                (record s {
                  mode = mode_del;
                  state = some 1;
                  keys = k ∷ [];
                  vals = made s.vals;
                  sent = s.sent ++ del_answer s.key (f k) ∷ [];
                })
                db'))
        × Models h pcas n (update f k none) db'.xdick
  unfolding handle_lines handle_line del_line bytes_eq del_texts removed
  del_request-answers {n = n} s db f k e le m small =
      let entered = record s {
        keys = k ∷ [];
        vals = made s.vals;
        state = some 1;
        mode = mode_del;
      } in
      let fits : (ltb key_limit (length k)) ≡ false = ground arith in
      let (db', run, m') =
        del_keys-Models h pcas {n = n} accepts (k ∷ []) entered db f all m small in
      (db', rw (del_command accepts (pure_hash h) pcas s db e) (rw fits (rw run refl)), m')

  -- On a connection that takes every reply, a client that sets a key and then gets it receives ACK
  -- and the value, for any key and value within the limits, and the database then models the map
  -- with that key set.
  pub set-then-get :
      {n : ℕ} (s : Session) (db : XDatabase) (f : Bytes → Option Value) (k v : Bytes)
      → s.mode ≡ no_mode
      → s.vals ≡ none
      → length k ≤ key_limit
      → length v ≤ val_limit
      → Models h pcas n f db.xdick
      → n + 1 < 2 ^ 63
      → (db' : XDatabase) × (handle_lines accepts
            (pure_hash h)
            pcas
            (set_request k v ++ get_request k)
            (stay s db)
          ≡ ok (
              stay
                (record s {
                  mode = no_mode;
                  state = some 1;
                  key = [];
                  keys = [];
                  vals = some [];
                  sent = s.sent ++ (ack ∷ crlf) ∷ (v ++ crlf) ∷ [];
                })
                db'))
        × Models h pcas (n + 1) (update f k (some (str v))) db'.xdick
  set-then-get s db f k v e no_vals le_k le_v m small =
      let (db', run, m') =
        set_request-stores s db f k v (get_request k) e no_vals le_k le_v m small in
      let stored_k : update f k (some (str v)) k ≡ some (str v) = rw (bytes_eq_refl k) refl in
      let after = record s {
        mode = no_mode;
        state = some 2;
        key = [];
        keys = [];
        vals = none;
        sent = s.sent ++ (ack ∷ crlf) ∷ [];
      } in
      let g = update f k (some (str v)) in
      let got = get_request-reply after db' g k [] refl le_k m' (inr (v, stored_k)) in
      (db', run ∙ got ∙ unfold handle_lines in rw stored_k (rw append_assoc refl), m')
