-- ===== src/Client/Wire.antt =====
-- The client's bytes as the server's lines.
use nodare_db_dev.Prelude.{
  All, Bool, Bytes, List, Option, [], ap, append-nil, append_assoc, false, if◌then◌else◌, length,
  ok, refl, some, sym, true, ℕ, ◌++◌, ◌+◌, ◌<◌, ◌==◌, ◌^◌, ◌∙◌, ◌∷◌, ◌≡◌, ◌≤◌,
}
use nodare_db_dev.Client.{get_text, set_text}
use nodare_db_dev.Database.Dick.{XDatabase}
use nodare_db_dev.Database.Entry.{Value, str}
use nodare_db_dev.Database.Refines.{Models}
use nodare_db_dev.Database.Sub.Edit.{update}
use nodare_db_dev.Database.Sub.Move.{pure_hash}
use nodare_db_dev.Server.Session.{
  ack, bar, crlf, etb, key_limit, magic_g, magic_s, new_session, stay, val_limit,
}
use nodare_db_dev.Server.Socket.{handle_lines}
use nodare_db_dev.Server.Socket.Exchange.{get_request, set-then-get, set_request}

-- `ReadLine` of `net/textproto`: the bytes before a line feed, without a carriage return before it.
unfoldable pub drop_cr : Bytes → Bytes
drop_cr [] = []
drop_cr (c ∷ []) = if c == 13 then [] else c ∷ []
drop_cr (c ∷ d ∷ s) = c ∷ drop_cr (d ∷ s)

-- The lines of a text, after the start `acc` of the first. Bytes after the last line feed are no line.
unfoldable pub lines : Bytes → Bytes → List Bytes
lines acc [] = []
lines acc (c ∷ s) =
    let next = lines (if c == 10 then [] else acc ++ c ∷ []) s in
    if c == 10 then drop_cr acc ∷ next else next

drop_cr-append : (s : Bytes) → drop_cr (s ++ 13 ∷ []) ≡ s
unfolding drop_cr
drop_cr-append [] = refl
drop_cr-append (c ∷ []) = refl
drop_cr-append (c ∷ d ∷ s) = ap (λ t. c ∷ t) (drop_cr-append (d ∷ s))

-- A key or a value that can be sent: no line feed, which would end its line.
abbrev pub IsLine : Bytes → Type 0
IsLine s = All (λ c. (c == 10) ≡ false) s

lines-crlf :
    (acc s rest : Bytes) → IsLine s → lines acc (s ++ (crlf ++ rest)) ≡ (acc ++ s) ∷ lines [] rest
unfolding lines
lines-crlf acc [] rest all = rw (drop_cr-append acc, append-nil acc) refl
lines-crlf acc (c ∷ s) rest all =
    rw (all.0) (lines-crlf (acc ++ c ∷ []) s rest all.1 ∙ rw append_assoc refl)

set_text-lines :
    (k v rest : Bytes)
    → IsLine k
    → IsLine v
    → lines [] (set_text k v ++ rest) ≡ set_request k v ++ lines [] rest
unfolding set_text
set_text-lines k v rest key_line val_line =
    rw
      (
        append_assoc k (crlf ++ (v ++ (crlf ++ (etb ∷ crlf)))) rest,
        append_assoc v (crlf ++ (etb ∷ crlf)) rest,
      )
      (lines-crlf [] (magic_s ∷ bar ∷ 49 ∷ []) _ (refl, (refl, (refl, tt)))
        ∙ ap (λ t. (magic_s ∷ bar ∷ 49 ∷ []) ∷ t)
            (lines-crlf [] k _ key_line
              ∙ ap (λ t. k ∷ t)
                  (lines-crlf [] v _ val_line
                    ∙ ap (λ t. v ∷ t) (lines-crlf [] (etb ∷ []) rest (refl, tt)))))

get_text-lines :
    (k rest : Bytes) → IsLine k → lines [] (get_text k ++ rest) ≡ get_request k ++ lines [] rest
unfolding get_text
get_text-lines k rest key_line = rw (append_assoc k (crlf ++ (etb ∷ crlf)) rest) (
    lines-crlf [] (magic_g ∷ bar ∷ 49 ∷ []) _ (refl, (refl, (refl, tt)))
    ∙ ap (λ t. (magic_g ∷ bar ∷ 49 ∷ []) ∷ t)
        (lines-crlf [] k _ key_line ∙ ap (λ t. k ∷ t) (lines-crlf [] (etb ∷ []) rest (refl, tt))))

-- What `SOCK_Set` and then `SOCK_Get` write, the server reads as the lines of the two requests.
set_get-lines :
    (k v : Bytes)
    → IsLine k
    → IsLine v
    → lines [] (set_text k v ++ get_text k) ≡ set_request k v ++ get_request k
unfolding lines
set_get-lines k v key_line val_line =
    set_text-lines k v (get_text k) key_line val_line
    ∙ ap (λ t. set_request k v ++ t)
        (ap (λ t. lines [] t) (sym (append-nil (get_text k)))
          ∙ (get_text-lines k [] key_line ∙ append-nil (get_request k)))

-- The bytes of a client that sets a key and then gets it, on a new session of a server whose
-- database models a map with at most `n` entries in a sub-dictionary, `n + 1 < 2 ^ 63`: the
-- server answers ACK and the value, is ready for the next command, and its database models the
-- map with the value under the key. The key and the value have no line feed and are within the
-- server's limits, and every write on the connection succeeds.
pub set-get-over_wire :
    (h pcas : Bytes → ℕ) {n : ℕ} (accepts : ℕ → Bool) (db : XDatabase) (f : Bytes → Option Value)
    (k v : Bytes)
    → ((i : ℕ) → accepts i ≡ true)
    → IsLine k
    → IsLine v
    → length k ≤ key_limit
    → length v ≤ val_limit
    → Models h pcas n f db.xdick
    → n + 1 < 2 ^ 63
    → (db' : XDatabase) × (handle_lines accepts
          (pure_hash h)
          pcas
          (lines [] (set_text k v ++ get_text k))
          (stay new_session db)
        ≡ ok (
            stay
              (record new_session {
                state = some 1;
                vals = some [];
                sent = (ack ∷ crlf) ∷ (v ++ crlf) ∷ [];
              })
              db'))
      × Models h pcas (n + 1) (update f k (some (str v))) db'.xdick
set-get-over_wire h pcas {n} accepts db f k v all key_line val_line le_k le_v m small =
    let (db', run, m') =
      set-then-get h pcas accepts all {n = n} new_session db f k v refl refl le_k le_v m small in
    (db', rw (set_get-lines k v key_line val_line) run, m')
