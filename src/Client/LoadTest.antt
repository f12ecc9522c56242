-- ===== src/Client/LoadTest.antt =====
-- client/main.go: the load test with keys that count up, `-random=false`, on one connection: a round of
-- insertions and the round that checks them. The calls of the client library are parameters.
pub mod Random
pub mod Words
pub mod Serves
pub mod Checked
pub mod Rounds
use nodare_db_dev.Prelude.{
  Bool, Bytes, Option, Run, [], bytes_eq, exit, fault, if◌then◌else◌, length, none, not, ok,
  replicate, some, suc, zero, ℕ, ◌++◌, ◌+◌, ◌-◌, ◌>>=◌, ◌||◌, ◌∷◌,
}
use nodare_db_dev.Server.Profile.{print_digits}

-- "%010d".
unfoldable pub pad_ten : ℕ → Bytes
pad_ten n = let digits = print_digits 20 n [] in replicate (10 - length digits) 48 ++ digits

-- What follows the first number of a key and of a value: "_Atestkey" or "_aTestVal", the number
-- again, "-r-", and the round.
abbrev pub tail_of : Bytes → ℕ → ℕ → Bytes
tail_of name start r = name ++ (pad_ten start ++ ((45 ∷ 114 ∷ 45 ∷ []) ++ pad_ten r))

abbrev pub key_name : Bytes
key_name = 95 ∷ 65 ∷ 116 ∷ 101 ∷ 115 ∷ 116 ∷ 107 ∷ 101 ∷ 121 ∷ []

abbrev pub val_name : Bytes
val_name = 95 ∷ 97 ∷ 84 ∷ 101 ∷ 115 ∷ 116 ∷ 86 ∷ 97 ∷ 108 ∷ []

unfoldable pub count_key : ℕ → ℕ → Bytes
count_key start r = print_digits 20 start [] ++ tail_of key_name start r

unfoldable pub count_val : ℕ → ℕ → Bytes
count_val start r = print_digits 20 start [] ++ tail_of val_name start r

-- `SOCK_Set` or `HTTP_Set`, and `SOCK_Get` or `HTTP_Get`, with the server's state of type `W`: `none`
-- is an error; a get gives what it wrote into `retval` and `found`.
pub record Calls (W : Type 0) : Type 0 where
  pub call_set : W → Bytes → Bytes → Option W
  pub call_get : W → Bytes → Option (W × Bytes × Bool)

module _ {W : Type 0} (calls : Calls W) where
  -- An error ends the program.
  unfoldable pub insert_round : ℕ → ℕ → ℕ → W → Run W
  insert_round zero start r w = ok w
  insert_round (suc items) start r w =
      elim (calls.call_set w (count_key start r) (count_val start r)) [
        | none ↦ fault exit
        | some w' ↦ insert_round items (start + 1) r w'
      ]

  abbrev pub verify : Bytes → Option (W × Bytes × Bool) → Run W
  verify checkval none = fault exit
  verify checkval (some (w, retval, found)) =
      if not found || not (bytes_eq retval checkval) then fault exit else ok w

  -- The check of a round, with the number of checked keys.
  unfoldable pub check_round : ℕ → ℕ → ℕ → W → Run (W × ℕ)
  check_round zero start r w = ok (w, 0)
  check_round (suc items) start r w = do
    w' ← verify (count_val start r) (calls.call_get w (count_key start r))
    (last, checked) ← check_round items (start + 1) r w'
    ok (last, checked + 1)
