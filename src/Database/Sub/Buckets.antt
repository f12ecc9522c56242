-- ===== src/Database/Sub/Buckets.antt =====
-- One table of a sub-dictionary, as its methods keep it: where entries stand, and what a write to
-- one bucket does.
use nodare_db_dev.Prelude.{
  ℕ, zero, suc, ◌+◌, ◌-◌, ◌^◌, ◌≤◌, ◌<◌, bit_and, ◌≡◌, ◌≢◌, refl, sym, List, [], ◌∷◌, arith, Bytes,
  length, set, get_or, length-set, get_or-set, length-replicate, get_or-replicate, replicate,
  lt→ltb, ◌==◌, if◌then◌else◌,
}
use nodare_db_dev.Prelude.Bits.{bit_and-le}
use nodare_db_dev.Database.Entry.{Chain, count}
use nodare_db_dev.Database.Table.{DickTable, new_dick_table, slt-eq}

-- The number of entries of a bucket array.
unfoldable pub entries : List Chain → ℕ
entries [] = 0
entries (c ∷ bs) = length c + entries bs

pub entries-replicate : (n : ℕ) → entries (replicate n []) ≡ 0
unfolding entries replicate
entries-replicate zero = refl
entries-replicate (suc n) = omega (arith, entries-replicate n)

pub entries-set :
    (bs : List Chain) (i : ℕ) (c : Chain)
    → i < length bs
    → entries (set bs i c) + length (get_or bs i []) ≡ entries bs + length c
unfolding entries get_or
entries-set [] i c h = absurd (omega arith)
entries-set (b ∷ bs) zero c h = omega arith
entries-set (b ∷ bs) (suc i) c h = omega (arith, entries-set bs i c (omega arith))

pub length-get_or-le : (bs : List Chain) (i : ℕ) → length (get_or bs i []) ≤ entries bs
unfolding entries get_or
length-get_or-le [] i = omega arith
length-get_or-le (b ∷ bs) zero = omega arith
length-get_or-le (b ∷ bs) (suc i) = omega (arith, length-get_or-le bs i)

pub eq-nil : (c : Chain) → length c ≡ 0 → c ≡ []
eq-nil [] e = refl
eq-nil (x ∷ c) e = absurd (omega arith)

eq-nil_buckets : (bs : List Chain) → length bs ≡ 0 → bs ≡ []
eq-nil_buckets [] e = refl
eq-nil_buckets (c ∷ bs) e = absurd (omega arith)

abbrev pub fresh_table : ℕ → DickTable
fresh_table n = record { table = replicate n []; size = n; sizemask = n - 1; used = 0 }

pub new_dick_table-zero : new_dick_table 0 ≡ fresh_table 0
unfolding new_dick_table replicate
new_dick_table-zero = refl

pub new_dick_table-fresh : (n : ℕ) → 0 < n → n < 2 ^ 63 → new_dick_table n ≡ fresh_table n
unfolding new_dick_table
new_dick_table-fresh n pos small = rw (slt-eq 0 n (omega arith) small, lt→ltb 0 n pos)

module _ (h : Bytes → ℕ) where
  -- `hash & sizemask`, and the bucket there.
  abbrev pub home : DickTable → Bytes → ℕ
  home t q = bit_and (h q) t.sizemask

  abbrev pub bucket : DickTable → Bytes → Chain
  bucket t q = get_or t.table (home t q) []

  -- The array has `size` buckets, the mask is `size - 1`, `used` counts the entries, and a key
  -- stands in no bucket but its own.
  pub record IsTable (t : DickTable) : Type 0 where
    pub width : length t.table ≡ t.size
    pub mask : t.sizemask ≡ t.size - 1
    pub counted : t.used ≡ entries t.table
    pub placed : (q : Bytes) (i : ℕ) → home t q ≢ i → count q (get_or t.table i []) ≡ 0

  pub home-lt : {t : DickTable} → IsTable t → 0 < t.size → (q : Bytes) → home t q < length t.table
  home-lt {t} v pos q = omega (arith, bit_and-le (h q) t.sizemask)

  pub replicate-IsTable : (n : ℕ) → IsTable (fresh_table n)
  unfolding count
  replicate-IsTable n = record {
    width = length-replicate n [];
    mask = refl;
    counted = sym (entries-replicate n);
    placed = λ q i ne. rw get_or-replicate;
  }

  -- Bucket `i` is replaced by `c`, and `used` counts the difference.
  pub set-IsTable :
      {t : DickTable} (i : ℕ) (c : Chain) (u : ℕ)
      → IsTable t
      → i < length t.table
      → u + length (get_or t.table i []) ≡ t.used + length c
      → ((q : Bytes) → home t q ≢ i → count q c ≡ 0)
      → IsTable (record t { table = set t.table i c; used = u })
  set-IsTable {t} i c u v lt size own = record {
    width = rw length-set v.width;
    mask = v.mask;
    counted = omega (arith, entries-set t.table i c lt, v.counted);
    placed = λ q j ne. rw (get_or-set t.table i j c [] lt) (ground (arith, v.placed q j, own q));
  }

  pub bucket-set :
      (t : DickTable) (i : ℕ) (c : Chain) (u : ℕ) (q : Bytes)
      → i < length t.table
      → bucket (record t { table = set t.table i c; used = u }) q
        ≡ (if i == home t q then c else bucket t q)
  bucket-set t i c u q lt = get_or-set t.table i (home t q) c [] lt

  -- With no entries, and with no buckets, every bucket is empty.
  pub bucket-unused : {t : DickTable} → IsTable t → t.used ≡ 0 → (q : Bytes) → bucket t q ≡ []
  bucket-unused {t} v e q = eq-nil _ (omega (arith, length-get_or-le t.table (home t q), v.counted))

  pub used-no_buckets : {t : DickTable} → IsTable t → t.size ≡ 0 → t.used ≡ 0
  unfolding entries
  used-no_buckets {t} v e = rw (v.counted, eq-nil_buckets t.table (omega (arith, v.width)))
