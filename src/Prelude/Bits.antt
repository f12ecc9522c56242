-- ===== src/Prelude/Bits.antt =====
-- Facts about `bit_and` and `bit_or` at variables.
use Prim.Native.Nat.{
  ℕ, zero, suc, ◌+◌, ◌*◌, ◌/◌, ◌%◌, ◌≤◌, min, max, bit_and, bit_or, bit_and-bitwise, bit_or-bitwise,
  digits,
}
use mathlib.Core.Path.{◌≡◌, refl}
use native.Mathlib.Omega.{arith}

-- A mask bounds what passes it.
digits-le : (n a b : ℕ) → digits (λ (x : ℕ). 0) min n a b ≤ b
digits-le zero a b = omega arith
digits-le (suc n) zero b = omega arith
digits-le (suc n) (suc a) b = omega (arith, digits-le n (suc a / 2) (b / 2))

pub bit_and-le : (a b : ℕ) → bit_and a b ≤ b
bit_and-le a b = omega (arith, bit_and-bitwise a b, digits-le a a b)

-- The digits of a union, whatever number of rounds above the first argument.
abbrev union : ℕ → ℕ → ℕ → ℕ
union n a b = digits (λ (x : ℕ). x) max n a b

union_rounds : (n k a b : ℕ) → a ≤ n → a ≤ k → union n a b ≡ union k a b
union_rounds (suc n) (suc k) (suc a) b le le' =
    omega (arith, union_rounds n k (suc a / 2) (b / 2) (omega arith) (omega arith))
union_rounds (suc n) (suc k) zero b le le' = refl
union_rounds (suc n) zero zero b le le' = refl
union_rounds (suc n) zero (suc a) b le le' = absurd (omega arith)
union_rounds zero (suc k) zero b le le' = refl
union_rounds zero (suc k) (suc a) b le le' = absurd (omega arith)
union_rounds zero zero a b le le' = refl

-- The lowest digit of a union, and the rest.
bit_or-digit : (a b : ℕ) → bit_or a b ≡ bit_or (a / 2) (b / 2) * 2 + max (a % 2) (b % 2)
bit_or-digit zero b = omega (arith, bit_or-bitwise 0 b, bit_or-bitwise 0 (b / 2))
bit_or-digit (suc a) b =
    let rounds = union_rounds a (suc a / 2) (suc a / 2) (b / 2) (omega arith) (omega arith) in
    omega (arith, bit_or-bitwise (suc a) b, bit_or-bitwise (suc a / 2) (b / 2), rounds)

pub bit_or-half : (a b : ℕ) → bit_or a b / 2 ≡ bit_or (a / 2) (b / 2)
bit_or-half a b = omega (arith, bit_or-digit a b)

pub bit_or-parity : (a b : ℕ) → bit_or a b % 2 ≡ max (a % 2) (b % 2)
bit_or-parity a b = omega (arith, bit_or-digit a b)
