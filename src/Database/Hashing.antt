-- ===== src/Database/Hashing.antt =====
-- `hasher` of database/dick.go. SipHash and the two FNV functions are other packages' code.
use nodare_db_dev.Prelude.{
  Bytes, Run, arith, exit, fault, fun_ext, if◌then◌else◌, ok, ℕ, ◌==◌, ◌≡◌, ◌≤◌,
}
use nodare_db_dev.Database.Sub.Move.{pure_hash}

pub record HashLib : Type 0 where
  pub siphash : ℕ → ℕ → Bytes → ℕ
  pub fnv_32a : Bytes → ℕ
  pub fnv_64a : Bytes → ℕ

-- The package variables `HASHER`, `key0` and `key1`.
pub record HashMode : Type 0 where
  pub hasher_mode : ℕ
  pub key0 : ℕ
  pub key1 : ℕ

abbrev pub hash_siphash : ℕ
hash_siphash = 0x01

abbrev pub hash_fnv32a : ℕ
hash_fnv32a = 0x02

abbrev pub hash_fnv64a : ℕ
hash_fnv64a = 0x03

-- An unknown mode ends the process.
unfoldable pub hasher : HashLib → HashMode → Bytes → Run ℕ
hasher lib m any =
    if m.hasher_mode == hash_siphash
    then ok (lib.siphash m.key0 m.key1 any)
    else if m.hasher_mode == hash_fnv32a
    then ok (lib.fnv_32a any)
    else if m.hasher_mode == hash_fnv64a
    then ok (lib.fnv_64a any)
    else fault exit

-- The hash function that a known mode stands for.
unfoldable pub digest : HashLib → HashMode → Bytes → ℕ
digest lib m any =
    if m.hasher_mode == hash_siphash
    then lib.siphash m.key0 m.key1 any
    else if m.hasher_mode == hash_fnv32a
    then lib.fnv_32a any
    else lib.fnv_64a any

pub hasher-digest :
    (lib : HashLib) (m : HashMode)
    → 1 ≤ m.hasher_mode
    → m.hasher_mode ≤ 3
    → hasher lib m ≡ pure_hash (digest lib m)
unfolding hasher digest
hasher-digest lib m lo hi = fun_ext λ q. ground arith
