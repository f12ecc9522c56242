-- ===== src/Database/Entry.antt =====
-- database/DickEntry.go, and the chains that the `next` pointers make: an entry's chain is the list
-- of the entries from it on. A pointer to an entry is the place at which the entry stands.
use nodare_db_dev.Prelude.{
  Bytes, List, Option, [], arith, bytes_eq, bytes_eq_iff, if◌then◌else◌, length, none, refl, some,
  ℕ, ◌+◌, ◌∷◌, ◌≡◌, ◌≤◌,
}

-- A value of type `interface{}`: nil, a string, or a value of another type, told apart by a number.
pub data Value : Type 0 where
  nil : Value
  str : Bytes → Value
  dynamic : ℕ → Value

pub record DickEntry : Type 0 where
  pub key : Bytes
  pub value : Value

unfoldable pub new_dick_entry : Bytes → Value → DickEntry
new_dick_entry key value = record { key = key; value = value }

abbrev pub Chain : Type 0
Chain = List DickEntry

-- The first entry of the chain with this key.
unfoldable pub find : Bytes → Chain → Option DickEntry
find k [] = none
find k (e ∷ c) = if bytes_eq e.key k then some e else find k c

-- `entry.value = value` at the entry that `find` gives.
unfoldable pub assign : Bytes → Value → Chain → Chain
assign k v [] = []
assign k v (e ∷ c) = if bytes_eq e.key k then record e { value = v } ∷ c else e ∷ assign k v c

-- The chain without the entry that `find` gives: its predecessor, or the bucket, points past it.
unfoldable pub unlink : Bytes → Chain → Chain
unlink k [] = []
unlink k (e ∷ c) = if bytes_eq e.key k then c else e ∷ unlink k c

-- What a chain means: the value under a key, and how often the key occurs.
unfoldable pub lookup : Bytes → Chain → Option Value
lookup k [] = none
lookup k (e ∷ c) = if bytes_eq e.key k then some e.value else lookup k c

unfoldable pub count : Bytes → Chain → ℕ
count k [] = 0
count k (e ∷ c) = (if bytes_eq e.key k then 1 else 0) + count k c

pub find-eq-some :
    (k : Bytes) (c : Chain) (e : DickEntry)
    → find k c ≡ some e
    → (lookup k c ≡ some e.value) × (e.key ≡ k)
unfolding find lookup
find-eq-some k [] e h = (cc, cc)
find-eq-some k (d ∷ c) e h =
    (ground (arith, find-eq-some k c e), ground (arith, find-eq-some k c e, bytes_eq_iff d.key k))

pub find-eq-none : (k : Bytes) (c : Chain) → find k c ≡ none → lookup k c ≡ none
unfolding find lookup
find-eq-none k [] h = refl
find-eq-none k (d ∷ c) h = ground (arith, find-eq-none k c)

pub find_missing : (k : Bytes) (c : Chain) → lookup k c ≡ none → find k c ≡ none
unfolding find lookup
find_missing k [] h = refl
find_missing k (d ∷ c) h = ground (arith, find_missing k c)

pub lookup-eq-none : (k : Bytes) (c : Chain) → count k c ≡ 0 → lookup k c ≡ none
unfolding count lookup
lookup-eq-none k [] h = refl
lookup-eq-none k (e ∷ c) h = ground (arith, lookup-eq-none k c)

pub count-eq-zero : (k : Bytes) (c : Chain) → lookup k c ≡ none → count k c ≡ 0
unfolding count lookup
count-eq-zero k [] h = refl
count-eq-zero k (e ∷ c) h = ground (arith, count-eq-zero k c)

pub count-find : (k : Bytes) (c : Chain) (e : DickEntry) → find k c ≡ some e → 1 ≤ count k c
unfolding count find
count-find k [] e h = absurd (cc)
count-find k (d ∷ c) e h = ground (arith, count-find k c e)

pub count-assign : (k q : Bytes) (v : Value) (c : Chain) → count q (assign k v c) ≡ count q c
unfolding count assign
count-assign k q v [] = refl
count-assign k q v (e ∷ c) = ground (arith, count-assign k q v c)

pub length-assign : (k : Bytes) (v : Value) (c : Chain) → length (assign k v c) ≡ length c
unfolding assign
length-assign k v [] = refl
length-assign k v (e ∷ c) = ground (arith, length-assign k v c)

pub lookup-assign :
    (k q : Bytes) (v old : Value) (c : Chain)
    → lookup k c ≡ some old
    → lookup q (assign k v c) ≡ (if bytes_eq k q then some v else lookup q c)
unfolding lookup assign
lookup-assign k q v old [] h = cc
lookup-assign k q v old (e ∷ c) h =
    ground (
      arith,
      lookup-assign k q v old c,
      bytes_eq_iff e.key k,
      bytes_eq_iff e.key q,
      bytes_eq_iff k q,
    )

pub count-unlink-le : (k q : Bytes) (c : Chain) → count q (unlink k c) ≤ count q c
unfolding count unlink
count-unlink-le k q [] = omega arith
count-unlink-le k q (e ∷ c) = ground (arith, count-unlink-le k q c)

pub length-unlink :
    (k : Bytes) (c : Chain) (e : DickEntry) → find k c ≡ some e → length (unlink k c) + 1 ≡ length c
unfolding find unlink
length-unlink k [] e h = cc
length-unlink k (d ∷ c) e h = ground (arith, length-unlink k c e)

pub lookup-unlink :
    (k q : Bytes) (c : Chain)
    → count q c ≤ 1
    → lookup q (unlink k c) ≡ (if bytes_eq k q then none else lookup q c)
unfolding lookup unlink count
lookup-unlink k q [] h = ground arith
lookup-unlink k q (e ∷ c) h = ground (
  arith,
  lookup-unlink k q c,
  lookup-eq-none q c,
  bytes_eq_iff e.key k,
  bytes_eq_iff e.key q,
  bytes_eq_iff k q,
)
