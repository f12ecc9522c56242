-- ===== src/Server/Socket.antt =====
-- server/socket.go, `handleSocketConn` on a TCP or TLS connection (`socket` is false): one call of
-- `handle_line` for each line that the client sends. The counters, which only the log reads, are
-- left out.
pub mod Loops
pub mod Exchange
pub mod Sound
pub mod Total
use nodare_db_dev.Prelude.{
  Bool, Bytes, List, Option, Run, [], bytes_eq, get_or, if◌then◌else◌, length, ltb, none, not, ok,
  some, suc, zero, ℕ, ◌++◌, ◌==◌, ◌>>=◌, ◌||◌, ◌∷◌,
}
use nodare_db_dev.Database.Dick.{XDatabase, db_del, db_get, db_set}
use nodare_db_dev.Database.Entry.{str}
use nodare_db_dev.Database.Sub.{Error}
use nodare_db_dev.Server.Session.{
  Mode, Next, Session, ack, after_bar, bar, bel, can, crlf, del_reply, etb, get_reply, key_limit,
  leave, made, magic_d, magic_g, magic_s, mode_add, mode_del, mode_get, mode_set, new_session,
  no_mode, nul, put_val, stay, step_down, step_up, until_bar, val_at, val_limit, written,
}
use nodare_db_dev.Utils.{str2int}

-- `accepts n` says whether write number `n` on the connection succeeds; the first that fails ends
-- the session.
module _ (accepts : ℕ → Bool) where
  unfoldable pub send : Session → Bytes → Option Session
  send s text =
      if accepts (length s.sent) then some (record s { sent = s.sent ++ text ∷ [] }) else none

  -- In `setloopkeys`, an error is replied to at once.
  unfoldable pub set_report : Session → Option Error → Option Session
  set_report s none = some s
  set_report s (some seterr) = send s (nul ∷ s.key)

  -- `PrintfLine(CAN)` and `break readlines`.
  unfoldable pub cancel : Session → XDatabase → Next
  cancel s db = leave (elim (send s (can ∷ crlf)) [ some t ↦ t | none ↦ s ]) db

  module _ (hash : Bytes → Run ℕ) (pcas : Bytes → ℕ) where
    -- `setloopkeys`.
    unfoldable pub set_keys : List Bytes → Session → XDatabase → Run Next
    set_keys [] s db = ok (stay s db)
    set_keys (akey ∷ rest) s db = do
      val ← val_at s.vals akey
      (db', seterr) ← db_set hash pcas db akey (str val)
      written (set_report s seterr) s db' (λ t. set_keys rest t db')

    -- `getloopkeys`.
    unfoldable pub get_keys : Bool → List Bytes → Session → XDatabase → Run Next
    get_keys several [] s db = ok (stay s db)
    get_keys several (akey ∷ rest) s db = do
      val ← db_get hash pcas db akey
      reply ← get_reply several s.key val
      written (send s reply) s db (λ t. get_keys several rest t db)

    -- `delloopkeys`.
    unfoldable pub del_keys : List Bytes → Session → XDatabase → Run Next
    del_keys [] s db = ok (stay s db)
    del_keys (akey ∷ rest) s db = do
      (db', err) ← db_del hash pcas db akey
      written (send s (del_reply s.key err)) s db' (λ t. del_keys rest t db')

    -- After `setloopkeys`: one ACK, and the session is ready for the next command.
    unfoldable pub end_set : Next → Run Next
    end_set (leave s db) = ok (leave s db)
    end_set (stay s db) =
        written (send s (ack ∷ crlf)) s db
          (λ t. ok (stay (record t { keys = []; vals = none; mode = no_mode }) db))

    -- After `getloopkeys`.
    unfoldable pub end_get : Next → Run Next
    end_get (leave s db) = ok (leave s db)
    end_get (stay s db) = ok (stay (record s { mode = no_mode; keys = [] }) db)

    unfoldable pub set_line : Session → XDatabase → Bytes → Run Next
    set_line s db line = elim s.state [
      | some zero ↦
          if ltb key_limit (length line)
          then ok (cancel s db)
          else ok (stay (record s { key = line; state = step_up s.state }) db)
      | some (suc zero) ↦ if ltb val_limit (length line) then ok (cancel s db) else do
        vals' ← put_val s.vals s.key line
        ok (
            stay
              (record s {
                keys = s.keys ++ s.key ∷ [];
                vals = vals';
                key = [];
                state = step_up s.state;
              })
              db)
      | some (suc (suc zero)) ↦
          if not (length line == 1)
          then ok (cancel s db)
          else if bytes_eq line (etb ∷ [])
          then set_keys s.keys s db >>= end_set
          else ok (stay s db)
      | _ ↦ ok (stay s db)
    ]

    -- The lines of GET: a key, then BEL before the next key or ETB at the end.
    unfoldable pub get_line : Session → XDatabase → Bytes → Run Next
    get_line s db line = elim s.state [
      | some zero ↦
          if ltb key_limit (length line)
          then ok (cancel s db)
          else ok (stay (record s { keys = s.keys ++ line ∷ []; state = step_up s.state }) db)
      | some (suc zero) ↦
          if not (length line == 1)
          then ok (cancel s db)
          else if bytes_eq line (etb ∷ [])
          then get_keys (ltb 1 (length s.keys)) s.keys s db >>= end_get
          else if bytes_eq line (bel ∷ [])
          then ok (stay (record s { state = step_down s.state }) db)
          else ok (stay s db)
      | _ ↦ ok (stay s db)
    ]

    -- As in the source, ETB leaves the mode and the keys as they are.
    unfoldable pub del_line : Session → XDatabase → Bytes → Run Next
    del_line s db line = elim s.state [
      | some zero ↦
          if ltb key_limit (length line)
          then ok (cancel s db)
          else ok (stay (record s { keys = s.keys ++ line ∷ []; state = step_up s.state }) db)
      | some (suc zero) ↦
          if not (length line == 1)
          then ok (cancel s db)
          else if bytes_eq line (etb ∷ [])
          then del_keys s.keys s db
          else if bytes_eq line (bel ∷ [])
          then ok (stay (record s { state = step_down s.state }) db)
          else ok (stay s db)
      | _ ↦ ok (stay s db)
    ]

    -- `no_mode`, with the mode of the command and its number of keys, which must not be 0.
    unfoldable pub enter : Mode → Bytes → Session → XDatabase → Next
    enter m number s db =
        if str2int number == 0
        then leave s db
        else stay (record s { mode = m; state = step_up s.state }) db

    unfoldable pub command : Session → XDatabase → Bytes → Next
    command s db line =
        let cmd = until_bar line in
        let number = until_bar (after_bar line) in
        if bytes_eq cmd (magic_s ∷ [])
        then enter mode_set number s db
        else if bytes_eq cmd (magic_g ∷ [])
        then enter mode_get number s db
        else if bytes_eq cmd (magic_d ∷ [])
        then enter mode_del number s db
        else leave s db

    unfoldable pub command_line : Session → XDatabase → Bytes → Next
    command_line s db line =
        let s' = record s { keys = []; vals = made s.vals } in
        if ltb (length line) 3 || not (get_or line 1 0 == bar)
        then cancel s' db
        else command (record s' { state = none }) db line

    unfoldable pub handle_line : Session → XDatabase → Bytes → Run Next
    handle_line s db line = elim s.mode [
      | mode_add ↦ ok (stay s db)
      | mode_set ↦ set_line s db line
      | mode_get ↦ get_line s db line
      | mode_del ↦ del_line s db line
      | no_mode ↦ ok (command_line s db line)
    ]

    -- The loop over the lines that the client sends before it disconnects.
    unfoldable pub handle_lines : List Bytes → Next → Run Next
    handle_lines [] n = ok n
    handle_lines (line ∷ rest) (leave s db) = ok (leave s db)
    handle_lines (line ∷ rest) (stay s db) = do n ← handle_line s db line; handle_lines rest n

-- The welcome of a TCP or TLS connection, "200 X", is its first write.
unfoldable pub welcome : (ℕ → Bool) → Option Session
welcome accepts = send accepts new_session (50 ∷ 48 ∷ 48 ∷ 32 ∷ 88 ∷ crlf)
