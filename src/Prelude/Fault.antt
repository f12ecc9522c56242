-- ===== src/Prelude/Fault.antt =====
-- Go code that may panic or end the process: the fault is a value. State comes back with `ok` only,
-- since nothing observes the program's state after a panic or an exit.
use Prim.Native.Nat.{ℕ, zero, suc, ◌<◌}
use mathlib.Core.Path.{◌≡◌, refl}
use mathlib.Core.List.{List, [], ◌∷◌}
use native.Mathlib.Omega.{arith}
use nodare_db_dev.Prelude.Lists.{length, get_or}

pub data Fault : Type 0 where
  index_out_of_range divide_by_zero nil_dereference type_assertion exit : Fault

pub data Run {ℓ} (T : Type ℓ) : Type ℓ where
  ok : T → Run T
  fault : Fault → Run T

-- The rest of a function runs on the value, and not at all after a fault.
infixl 5 ◌>>=◌
abbrev pub ◌>>=◌ {κ ℓ} : {S : Type κ} {T : Type ℓ} → Run S → (S → Run T) → Run T
fault why >>= rest = fault why
ok value >>= rest = rest value

-- The run ends normally, in a value with the property `Q`.
abbrev pub Returns {κ ℓ} : {T : Type κ} → Run T → (T → Type ℓ) → Type (κ ⊔ ℓ)
Returns {T} run Q = (value : T) × (run ≡ ok value) × Q value

-- `cells[n]`, with Go's bounds check.
unfoldable pub at {ℓ} : {T : Type ℓ} → List T → ℕ → Run T
at (cell ∷ cells) zero = ok cell
at (cell ∷ cells) (suc n) = at cells n
at [] n = fault index_out_of_range

pub at-get_or {ℓ} :
    {T : Type ℓ} (cells : List T) (n : ℕ) (d : T)
    → n < length cells
    → at cells n ≡ ok (get_or cells n d)
unfolding get_or at
at-get_or (cell ∷ cells) (suc n) d below = at-get_or cells n d (omega arith)
at-get_or (cell ∷ cells) zero d below = refl
at-get_or [] n d below = absurd (omega (arith, below))
