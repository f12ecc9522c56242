-- ===== src/Database/Sub/Skipping.antt =====
-- The loop of `rehash` that passes over empty buckets stays in range.
use nodare_db_dev.Prelude.{
  ==_iff, Bool-cases, List, Returns, [], arith, at-get_or, false, get_or, inl, inr, length, ok,
  refl, suc, true, zero, ℕ, ◌+◌, ◌<◌, ◌==◌, ◌∙◌, ◌∷◌, ◌≡◌, ◌≤◌, ◌⊎◌,
}
use nodare_db_dev.Database.Entry.{Chain}
use nodare_db_dev.Database.Sub.{Skip, filled, is_nil, skip_empty, stopped}
use nodare_db_dev.Database.Sub.Buckets.{entries}

-- The buckets below `r` are empty.
abbrev pub Below : List Chain → ℕ → Type 0
Below bs r = (i : ℕ) → i < r → get_or bs i [] ≡ []

pub entries-Below : (bs : List Chain) (r : ℕ) → Below bs r → length bs ≤ r → entries bs ≡ 0
unfolding entries get_or
entries-Below [] r below le = refl
entries-Below (b ∷ bs) zero below le = absurd (omega arith)
entries-Below (b ∷ bs) (suc r) below le =
    rw (
      below 0 (omega arith),
      entries-Below bs r (λ i lt. below (suc i) (omega arith)) (omega arith),
    )

Below-suc : (bs : List Chain) (r : ℕ) → Below bs r → get_or bs r [] ≡ [] → Below bs (r + 1)
Below-suc bs r below e i lt = elim (Bool-cases (i == r)) [
  | inl same ↦ rw ((==_iff i r).0 same) e
  | inr ne ↦ below i (ground arith)
]

-- The inner loop stops below a bucket that is not empty, or at one.
pub data Skipped (bs : List Chain) (r : ℕ) : Skip → Type 0 where
  short : (i : ℕ) → r < i → Below bs i → Skipped bs r (stopped i)
  there :
      (left i : ℕ) (chain : Chain)
      → 0 < left
      → r ≤ i
      → i < length bs
      → Below bs i
      → chain ≡ get_or bs i []
      → Skipped bs r (filled left i chain)

nil_or_not : (c : Chain) → (c ≡ []) ⊎ (is_nil c ≡ false)
nil_or_not [] = inl refl
nil_or_not (e ∷ c) = inr refl

is_nil_lem : (c : Chain) → c ≡ [] → is_nil c ≡ true
is_nil_lem c e = rw e

in_range :
    (bs : List Chain) (r : ℕ)
    → 0 < entries bs
    → Below bs r
    → (r < length bs) × ((length bs == 0) ≡ false)
in_range bs r pos below =
    let lt : r < length bs = ground (arith, entries-Below bs r below) in (lt, ground arith)

further : (bs : List Chain) (r : ℕ) (k : Skip) → Skipped bs (r + 1) k → Skipped bs r k
further bs r k (short i lt below) = short i (omega arith) below
further bs r k (there left i chain pos le lt below e) =
    there left i chain pos (omega arith) lt below e

skip_empty-nil :
    (v : ℕ) (bs : List Chain) (r : ℕ)
    → r < length bs
    → (length bs == 0) ≡ false
    → get_or bs r [] ≡ []
    → skip_empty (suc (suc v)) bs r ≡ skip_empty (suc v) bs (r + 1)
unfolding skip_empty
skip_empty-nil v bs r lt z e = rw (z, at-get_or bs r [] lt, is_nil_lem _ e)

skip_empty-last :
    (bs : List Chain) (r : ℕ)
    → r < length bs
    → (length bs == 0) ≡ false
    → get_or bs r [] ≡ []
    → skip_empty 1 bs r ≡ ok (stopped (r + 1))
unfolding skip_empty
skip_empty-last bs r lt z e = rw (z, at-get_or bs r [] lt, is_nil_lem _ e)

skip_empty-filled :
    (v : ℕ) (bs : List Chain) (r : ℕ)
    → r < length bs
    → (length bs == 0) ≡ false
    → is_nil (get_or bs r []) ≡ false
    → skip_empty (suc v) bs r ≡ ok (filled (suc v) r (get_or bs r []))
unfolding skip_empty
skip_empty-filled v bs r lt z full = rw (z, at-get_or bs r [] lt, full)

at_filled :
    (v : ℕ) (bs : List Chain) (r : ℕ)
    → r < length bs
    → (length bs == 0) ≡ false
    → Below bs r
    → is_nil (get_or bs r []) ≡ false
    → Returns (skip_empty (suc v) bs r) (Skipped bs r)
at_filled v bs r lt z below full =
    let chain = get_or bs r [] in
    (
      filled (suc v) r chain,
      skip_empty-filled v bs r lt z full,
      there (suc v) r chain (omega arith) (omega arith) lt below refl,
    )

-- With a visit to spend and an entry left, the loop neither runs out of range nor passes an entry.
pub skip_empty_lem :
    (visits : ℕ) (bs : List Chain) (r : ℕ)
    → 0 < visits
    → 0 < entries bs
    → Below bs r
    → Returns (skip_empty visits bs r) (Skipped bs r)
unfolding skip_empty
skip_empty_lem zero bs r pos left below = absurd (omega arith)
skip_empty_lem (suc zero) bs r pos left below =
    let (lt, z) = in_range bs r left below in
    elim (nil_or_not (get_or bs r [])) [
      | inr full ↦ at_filled 0 bs r lt z below full
      | inl e ↦
          (_, skip_empty-last bs r lt z e, short (r + 1) (omega arith) (Below-suc bs r below e))
    ]
skip_empty_lem (suc (suc v)) bs r pos left below =
    let (lt, z) = in_range bs r left below in
    let rest = skip_empty_lem (suc v) bs (r + 1) (omega arith) left in
    elim (nil_or_not (get_or bs r [])) [
      | inr full ↦ at_filled (suc v) bs r lt z below full
      | inl e ↦
          let (k, run, s) = rest (Below-suc bs r below e) in
          (k, skip_empty-nil v bs r lt z e ∙ run, further bs r k s)
    ]
