-- ===== src/Database/Table.antt =====
-- database/dickTable.go, and `nextPower` of database/dick.go. An int64 is its 64-bit pattern.
use nodare_db_dev.Prelude.{
  Bool, List, [], arith, bit_or, if◌then◌else◌, ltb, replicate, true, ℕ, ◌%◌, ◌+◌, ◌-◌, ◌/◌, ◌<◌,
  ◌==◌, ◌^◌, ◌≡◌,
}
use nodare_db_dev.Database.Entry.{Chain}

-- `a < b` at type int64.
abbrev pub slt : ℕ → ℕ → Bool
slt a b = ltb ((a + 2 ^ 63) % 2 ^ 64) ((b + 2 ^ 63) % 2 ^ 64)

-- `a++` and `a--` at type int64.
abbrev pub inc : ℕ → ℕ
inc a = (a + 1) % 2 ^ 64

abbrev pub dec : ℕ → ℕ
dec a = (a + 2 ^ 64 - 1) % 2 ^ 64

pub record DickTable : Type 0 where
  pub table : List Chain
  pub size : ℕ
  pub sizemask : ℕ
  pub used : ℕ

unfoldable pub new_dick_table : ℕ → DickTable
new_dick_table size =
    if slt 0 size
    then record { table = replicate size []; size = size; sizemask = size - 1; used = 0 }
    else record { table = []; size = size; sizemask = 0; used = 0 }

unfoldable pub empty : DickTable → Bool
empty ht = ht.size == 0

abbrev pub initial_size : ℕ
initial_size = 128

-- `size |= size >> k`, for a size that is not negative.
unfoldable pub fold_bits : ℕ → ℕ → ℕ
fold_bits k size = bit_or size (size / 2 ^ k)

unfoldable pub next_power : ℕ → ℕ
next_power size =
    if slt initial_size size
    then inc (
        fold_bits 32
          (fold_bits 16 (fold_bits 8 (fold_bits 4 (fold_bits 2 (fold_bits 1 (dec size)))))))
    else initial_size

-- Below 2 ^ 63 the signed test is the plain one.
pub slt-eq : (a b : ℕ) → a < 2 ^ 63 → b < 2 ^ 63 → slt a b ≡ ltb a b
slt-eq a b ha hb = ground arith

-- What is above a size that is not negative is positive.
pub slt-pos : (a b : ℕ) → a < 2 ^ 63 → b < 2 ^ 64 → slt a b ≡ true → (a < b) × (b < 2 ^ 63)
slt-pos a b ha hb h = ground arith
