-- ===== src/Database/Sub/Edit.antt =====
-- One bucket of one table edited under one key: a value replaced, or an entry unlinked.
use mathlib.Core.Option.{or_else}
use mathlib.Core.Path.{subst}
use nodare_db_dev.Prelude.{
  ==_iff, Bool-cases, Bytes, Option, [], ap, arith, bytes_eq, bytes_eq_sound, get_or, get_or-set,
  if◌then◌else◌, inl, inr, length, none, refl, set, some, true, ℕ, ◌+◌, ◌<◌, ◌==◌, ◌^◌, ◌∙◌, ◌≡◌,
  ◌≤◌,
}
use nodare_db_dev.Database.Entry.{
  Chain, DickEntry, Value, assign, count, count-assign, count-unlink-le, find, length-assign,
  length-unlink, lookup, lookup-assign, lookup-unlink, unlink,
}
use nodare_db_dev.Database.Sub.{SubDick}
use nodare_db_dev.Database.Sub.Buckets.{
  IsTable, bucket, bucket-set, home, home-lt, length-get_or-le, set-IsTable,
}
use nodare_db_dev.Database.Sub.Valid.{IsSub, Keeps, view}
use nodare_db_dev.Database.Table.{DickTable, dec, empty}

-- The map with `v` under `k`, or with nothing there.
abbrev pub update : (Bytes → Option Value) → Bytes → Option Value → Bytes → Option Value
update f k v q = if bytes_eq k q then v else f q

module _ (h : Bytes → ℕ) where
  -- `t` is sound, with at most `n` entries, and stands for the map of `s` updated at `k`.
  pub record Writes (n : ℕ) (s : SubDick) (k : Bytes) (v : Option Value) (t : SubDick)
      : Type 0 where
    pub valid : IsSub h n t
    pub reads : (q : Bytes) → view h t q ≡ update (view h s) k v q

  -- What kept the map before a write does not show.
  pub Writes-after :
      {n m : ℕ} {s t u : SubDick} {k : Bytes} {v : Option Value}
      → Keeps h m s t
      → Writes n t k v u
      → Writes n s k v u
  Writes-after {k = k} kept w = record {
    valid = w.valid;
    reads = λ q. w.reads q ∙ rw (kept.same q);
  }

  same_home : (t : DickTable) (k q : Bytes) → bytes_eq k q ≡ true → home h t k ≡ home h t q
  same_home t k q e = ap (home h t) (bytes_eq_sound k q e)

  -- `u` is the table `t` with the bucket of `k` edited: no entry is new, and only what `k` reads
  -- has changed.
  pub record Edit (t : DickTable) (k : Bytes) (v : Option Value) (u : DickTable) : Type 0 where
    pub sound : IsTable h u
    pub size : u.size ≡ t.size
    pub used : u.used ≤ t.used
    pub looks : (q : Bytes) → lookup q (bucket h u q) ≡ update (λ p. lookup p (bucket h t p)) k v q
    pub counts : (q : Bytes) → count q (bucket h u q) ≤ count q (bucket h t q)
    pub empties : (i : ℕ) → get_or t.table i [] ≡ [] → get_or u.table i [] ≡ []

  Edit-bucket :
      {t : DickTable} (k : Bytes) (v : Option Value) (c : Chain) (u : ℕ)
      → IsTable h t
      → 0 < t.size
      → u ≤ t.used
      → u + length (bucket h t k) ≡ t.used + length c
      → (bucket h t k ≡ [] → c ≡ [])
      → ((q : Bytes) → lookup q c ≡ update (λ p. lookup p (bucket h t k)) k v q)
      → ((q : Bytes) → count q c ≤ count q (bucket h t k))
      → Edit t k v (record t { table = set t.table (home h t k) c; used = u })
  Edit-bucket {t} k v c u valid pos le size empty looks counts =
      let x = home h t k in
      let lt = home-lt h valid pos k in
      record {
        sound =
            set-IsTable h x c u valid lt size
              (λ q ne. omega (arith, counts q, valid.placed q x ne));
        size = refl;
        used = le;
        looks = λ q. rw (bucket-set h t x c u q lt) (ground (arith, looks q, same_home t k q));
        counts = λ q. rw (bucket-set h t x c u q lt) (ground (arith, counts q));
        empties = λ i e. rw (get_or-set t.table x i c [] lt) (ground arith);
      }

  pub assign-Edit :
      {t : DickTable} (k : Bytes) (v old : Value)
      → IsTable h t
      → 0 < t.size
      → lookup k (bucket h t k) ≡ some old
      → Edit t k
          (some v)
          (record t { table = set t.table (home h t k) (assign k v (bucket h t k)) })
  unfolding assign
  assign-Edit {t} k v old valid pos e =
      let c = bucket h t k in
      Edit-bucket k (some v) (assign k v c) t.used valid pos (omega arith)
        (omega (arith, length-assign k v c)) (λ p. rw p) (λ q. lookup-assign k q v old c e)
        (λ q. omega (arith, count-assign k q v c))

  pub unlink-Edit :
      {t : DickTable} (k : Bytes) (e : DickEntry)
      → IsTable h t
      → 0 < t.size
      → t.used < 2 ^ 63
      → ((q : Bytes) → count q (bucket h t q) ≤ 1)
      → find k (bucket h t k) ≡ some e
      → Edit t k none (record t {
        table = set t.table (home h t k) (unlink k (bucket h t k));
        used = dec t.used;
      })
  unfolding unlink
  unlink-Edit {t} k e valid pos small once found =
      let c = bucket h t k in
      let shorter = length-unlink k c e found in
      let some_entry = length-get_or-le t.table (home h t k) in
      Edit-bucket k none (unlink k c) (dec t.used) valid pos (omega (arith, valid.counted))
        (omega (arith, valid.counted)) (λ p. rw p)
        (λ q. lookup-unlink k q c (once_in t valid once k q)) (λ q. count-unlink-le k q c)
    where
      once_in :
          (t : DickTable)
          → IsTable h t
          → ((q : Bytes) → count q (bucket h t q) ≤ 1)
          → (k q : Bytes) → count q (bucket h t k) ≤ 1
      once_in t valid once k q = elim (Bool-cases (home h t q == home h t k)) [
        | inl same ↦ rw (← (==_iff (home h t q) (home h t k)).0 same) (once q)
        | inr ne ↦ ground (arith, valid.placed q (home h t k))
      ]

  pub Edit-main-Writes :
      {n : ℕ} (s : SubDick) (k : Bytes) (v : Option Value) (u : DickTable)
      → IsSub h n s
      → Edit s.main_dick k v u
      → lookup k (bucket h s.rehashing_table k) ≡ none
      → Writes n s k v (record s { main_dick = u })
  unfolding view or_else
  Edit-main-Writes s k v u valid ed alone = record {
    valid = record {
      main = ed.sound;
      second = valid.second;
      once = λ q. omega (arith, valid.once q, ed.counts q);
      few = omega (arith, valid.few, ed.used);
      small = valid.small;
      idle = valid.idle;
      busy = λ r e.
          let (pos, pos', below) = valid.busy r e in
          (rw ed.size pos, pos', λ i lt. ed.empties i (below i lt));
    };
    reads = λ q. rw (ed.looks q) (ground (arith, at_key q));
  }
    where
      at_key : (q : Bytes) → bytes_eq k q ≡ true → lookup q (bucket h s.rehashing_table q) ≡ none
      at_key q e =
          subst (λ p. lookup p (bucket h s.rehashing_table p) ≡ none) (bytes_eq_sound k q e) alone

  pub Edit-second-Writes :
      {n : ℕ} (s : SubDick) (k : Bytes) (v : Option Value) (u : DickTable)
      → IsSub h n s
      → Edit s.rehashing_table k v u
      → lookup k (bucket h s.main_dick k) ≡ none
      → Writes n s k v (record s { rehashing_table = u })
  unfolding view or_else
  Edit-second-Writes s k v u valid ed alone = record {
    valid = record {
      main = valid.main;
      second = ed.sound;
      once = λ q. omega (arith, valid.once q, ed.counts q);
      few = omega (arith, valid.few, ed.used);
      small = valid.small;
      idle = λ e. rw ed.size (valid.idle e);
      busy = λ r e. let (pos, pos', below) = valid.busy r e in (pos, rw ed.size pos', below);
    };
    reads = λ q. rw (ed.looks q) (ground (arith, at_key q));
  }
    where
      at_key : (q : Bytes) → bytes_eq k q ≡ true → lookup q (bucket h s.main_dick q) ≡ none
      at_key q e =
          subst (λ p. lookup p (bucket h s.main_dick p) ≡ none) (bytes_eq_sound k q e) alone
