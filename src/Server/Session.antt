-- ===== src/Server/Session.antt =====
-- server/socket.go and server/constants.go: the state of a session, the bytes of the protocol, and
-- the replies.
use nodare_db_dev.Prelude.{
  Bool, Bytes, List, Option, Run, [], bytes_eq, fault, if◌then◌else◌, nil_dereference, none, ok,
  some, suc, type_assertion, zero, ℕ, ◌*◌, ◌++◌, ◌+◌, ◌==◌, ◌∷◌,
}
use nodare_db_dev.Database.Dick.{XDatabase}
use nodare_db_dev.Database.Entry.{Value, dynamic, nil, str}
use nodare_db_dev.Database.Sub.{Error}

-- `modeADD` has a case, and no command enters it.
pub data Mode : Type 0 where
  no_mode mode_add mode_get mode_set mode_del : Mode

-- The variables of the session. `state` is -1 (`none`) or a step; `vals` is nil or a map.
-- `sent` is what went out on the connection, a string for each call that wrote.
pub record Session : Type 0 where
  pub mode : Mode
  pub state : Option ℕ
  pub key : Bytes
  pub keys : List Bytes
  pub vals : Option (List (Bytes × Bytes))
  pub sent : List Bytes

-- After a line the loop goes on, or leaves and closes the connection.
pub data Next : Type 0 where
  stay leave : Session → XDatabase → Next

abbrev pub key_limit : ℕ
key_limit = 1024 * 1024 * 1024

abbrev pub val_limit : ℕ
val_limit = 1024 * 1024 * 1024

abbrev pub nul : ℕ
nul = 0x00

abbrev pub ack : ℕ
ack = 0x06

abbrev pub bel : ℕ
bel = 0x07

abbrev pub etb : ℕ
etb = 0x17

abbrev pub can : ℕ
can = 0x18

abbrev pub crlf : Bytes
crlf = 13 ∷ 10 ∷ []

abbrev pub bar : ℕ
bar = 124

abbrev pub magic_s : ℕ
magic_s = 83

abbrev pub magic_g : ℕ
magic_g = 71

abbrev pub magic_d : ℕ
magic_d = 68

-- `state++`.
abbrev pub step_up : Option ℕ → Option ℕ
step_up none = some 0
step_up (some n) = some (n + 1)

-- `state--`.
abbrev pub step_down : Option ℕ → Option ℕ
step_down none = none
step_down (some zero) = none
step_down (some (suc n)) = some n

-- `vals[key] = &line`: a write to a nil map panics.
unfoldable pub put_val :
    Option (List (Bytes × Bytes)) → Bytes → Bytes → Run (Option (List (Bytes × Bytes)))
put_val none key line = fault nil_dereference
put_val (some m) key line = ok (some ((key, line) ∷ m))

abbrev find_val : List (Bytes × Bytes) → Bytes → Run Bytes
find_val [] key = fault nil_dereference
find_val ((k, v) ∷ m) key = if bytes_eq k key then ok v else find_val m key

-- `*vals[akey]`: a missing key reads as a nil pointer.
unfoldable pub val_at : Option (List (Bytes × Bytes)) → Bytes → Run Bytes
val_at none key = fault nil_dereference
val_at (some m) key = find_val m key

-- `strings.Split(line, "|")[0:2]`, on a line with a bar.
unfoldable pub until_bar : Bytes → Bytes
until_bar [] = []
until_bar (c ∷ s) = if c == bar then [] else c ∷ until_bar s

unfoldable pub after_bar : Bytes → Bytes
after_bar [] = []
after_bar (c ∷ s) = if c == bar then s else after_bar s

-- The reply to one key of a GET. The value goes out as a string, or the assertion panics.
unfoldable pub get_reply : Bool → Bytes → Value → Run Bytes
get_reply several key nil = ok ((if several then nul ∷ key else nul ∷ []) ++ crlf)
get_reply several key (str s) = ok (s ++ crlf)
get_reply several key (dynamic n) = fault type_assertion

-- The reply to one key of a DEL, by the error that `Del` gave: as in the source, which tests
-- `err == nil` for the error reply.
unfoldable pub del_reply : Bytes → Option Error → Bytes
del_reply key none = nul ∷ key ++ crlf
del_reply key (some e) = ack ∷ crlf

-- `vals` is made where it is nil.
abbrev pub made : Option (List (Bytes × Bytes)) → Option (List (Bytes × Bytes))
made none = some []
made (some m) = some m

-- What follows a write: a failed one ends the session.
unfoldable pub written : Option Session → Session → XDatabase → (Session → Run Next) → Run Next
written none s db next = ok (leave s db)
written (some t) s db next = next t

-- The session of a new connection.
abbrev pub new_session : Session
new_session = record { mode = no_mode; state = none; key = []; keys = []; vals = none; sent = [] }
