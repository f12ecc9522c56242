-- ===== src/Database/Salt.antt =====
-- database/dick.go: `GenerateSALT` and `split`, which make the keys of SipHash.
use native.Mathlib.Nat.{pow-suc}
use nodare_db_dev.Prelude.{
  All, Bool, Bytes, Returns, Run, [], arith, false, ok, refl, suc, true, zero, ℕ, ◌*◌, ◌+◌, ◌<◌,
  ◌>>=◌, ◌^◌, ◌∷◌, ◌≡◌,
}
use nodare_db_dev.Database.Hashing.{HashMode}
use nodare_db_dev.Utils.{IsAlnum, generate_random_string, generate_random_string-length}

-- `binary.LittleEndian.Uint64` of eight bytes.
unfoldable pub uint64_of : Bytes → ℕ
uint64_of [] = 0
uint64_of (c ∷ s) = c + 256 * uint64_of s

unfoldable pub first_bytes : ℕ → Bytes → Bytes
first_bytes zero s = []
first_bytes (suc n) [] = []
first_bytes (suc n) (c ∷ s) = c ∷ first_bytes n s

unfoldable pub skip_bytes : ℕ → Bytes → Bytes
skip_bytes zero s = s
skip_bytes (suc n) [] = []
skip_bytes (suc n) (c ∷ s) = skip_bytes n s

-- The two halves of the 16 bytes. The test of the length, which the type fixes, is never met.
unfoldable pub split : Bytes → ℕ × ℕ
split key = (uint64_of (first_bytes 8 key), uint64_of (first_bytes 8 (skip_bytes 8 key)))

-- `once.Do`: the first call sets the keys, any later one does nothing. The letters and digits are
-- those of `GenerateRandomString`.
unfoldable pub generate_salt : (ℕ → ℕ) → Bool × HashMode → Run (Bool × HashMode)
generate_salt pick (true, m) = ok (true, m)
generate_salt pick (false, m) = do
  salt ← generate_random_string pick 16
  ok (true, record m { key0 = (split salt).0; key1 = (split salt).1 })

IsAlnum-lt : (c : ℕ) → IsAlnum c → c < 256
IsAlnum-lt c e = ground (arith, e)

All-skip_bytes : (P : ℕ → Type 0) (n : ℕ) (s : Bytes) → All P s → All P (skip_bytes n s)
unfolding skip_bytes
All-skip_bytes P zero s all = all
All-skip_bytes P (suc n) [] all = tt
All-skip_bytes P (suc n) (c ∷ s) all = All-skip_bytes P n s all.1

uint64_of-lt : (n : ℕ) (s : Bytes) → All IsAlnum s → uint64_of (first_bytes n s) < 256 ^ n
unfolding uint64_of first_bytes
uint64_of-lt zero s all = omega arith
uint64_of-lt (suc n) [] all = omega (arith, uint64_of-lt n [] tt, pow-suc 256 n)
uint64_of-lt (suc n) (c ∷ s) all =
    omega (arith, uint64_of-lt n s all.1, IsAlnum-lt c all.0, pow-suc 256 n)

-- With numbers from `rand.Intn` of the length of the set, the first call of `GenerateSALT`
-- returns two keys of 64 bits and leaves the mode, and another call changes nothing.
pub generate_salt-keys :
    (pick other : ℕ → ℕ) (m : HashMode)
    → ((i : ℕ) → pick i < 62)
    → Returns (generate_salt pick (false, m)) λ p.
      (p.1.hasher_mode ≡ m.hasher_mode)
      × (p.1.key0 < 2 ^ 64)
      × (p.1.key1 < 2 ^ 64)
      × (generate_salt other p ≡ ok p)
unfolding generate_salt split
generate_salt-keys pick other m small =
    let (s, run, (wide, all)) = generate_random_string-length pick 16 small in
    rw run (
      _,
      refl,
      (
        refl,
        uint64_of-lt 8 s all,
        uint64_of-lt 8 (skip_bytes 8 s) (All-skip_bytes IsAlnum 8 s all),
        refl,
      ),
    )
