-- ===== src/Database/Sub/Valid.antt =====
-- The invariant of a sub-dictionary, and the map that it stands for.
use mathlib.Core.Option.{or_else}
use mathlib.Core.Path.{subst}
use nodare_db_dev.Prelude.{
  Bytes, Option, [], arith, bytes_eq, bytes_eq_sound, false, get_or, none, refl, some, true, ℕ, ◌+◌,
  ◌<◌, ◌^◌, ◌∙◌, ◌≡◌, ◌≤◌,
}
use nodare_db_dev.Database.Entry.{Value, count, count-eq-zero, lookup}
use nodare_db_dev.Database.Sub.{SubDick, is_rehashing, is_some, new_sub_dick}
use nodare_db_dev.Database.Sub.Buckets.{
  IsTable, bucket, bucket-unused, new_dick_table-zero, replicate-IsTable,
}

pub idle_of : (s : SubDick) → is_rehashing s ≡ false → s.rehashidx ≡ none
idle_of s e = go s.rehashidx e
  where
    go : (o : Option ℕ) → is_some o ≡ false → o ≡ none
    go none p = refl
    go (some r) p = cc

pub rehashing_of : (s : SubDick) → is_rehashing s ≡ true → (r : ℕ) × (s.rehashidx ≡ some r)
rehashing_of s e = go s.rehashidx e
  where
    go : (o : Option ℕ) → is_some o ≡ true → (r : ℕ) × (o ≡ some r)
    go none p = cc
    go (some r) p = (r, refl)

module _ (h : Bytes → ℕ) where
  -- The value under a key: the main table's, or else the rehashing table's.
  unfoldable pub view : SubDick → Bytes → Option Value
  view s q = or_else (lookup q (bucket h s.main_dick q)) (lookup q (bucket h s.rehashing_table q))

  -- A sub-dictionary with at most `n` entries: both tables are sound, no key occurs twice, no
  -- rehashing table is in use while `rehashidx` is -1, and otherwise both tables have buckets and
  -- the main table's are empty below `rehashidx`.
  pub record IsSub (n : ℕ) (s : SubDick) : Type 0 where
    pub main : IsTable h s.main_dick
    pub second : IsTable h s.rehashing_table
    pub once :
        (q : Bytes) → count q (bucket h s.main_dick q) + count q (bucket h s.rehashing_table q) ≤ 1
    pub few : s.main_dick.used + s.rehashing_table.used ≤ n
    pub small : n < 2 ^ 63
    pub idle : s.rehashidx ≡ none → s.rehashing_table.size ≡ 0
    pub busy :
        (r : ℕ)
        → s.rehashidx ≡ some r
        → (0 < s.main_dick.size)
          × (0 < s.rehashing_table.size)
          × ((i : ℕ) → i < r → get_or s.main_dick.table i [] ≡ [])

  -- `t` is sound, and stands for the same map as `s`.
  pub record Keeps (n : ℕ) (s t : SubDick) : Type 0 where
    pub valid : IsSub n t
    pub same : (q : Bytes) → view t q ≡ view s q

  pub Keeps-refl : {n : ℕ} {s : SubDick} → IsSub n s → Keeps n s s
  Keeps-refl v = record { valid = v; same = λ q. refl }

  pub Keeps-trans : {n : ℕ} {s t u : SubDick} → Keeps n s t → Keeps n t u → Keeps n s u
  Keeps-trans a b = record { valid = b.valid; same = λ q. b.same q ∙ a.same q }

  pub new_sub_dick-IsSub : (n : ℕ) → n < 2 ^ 63 → IsSub n new_sub_dick
  unfolding new_sub_dick count get_or
  new_sub_dick-IsSub n small = record {
    main = rw new_dick_table-zero (replicate-IsTable h 0);
    second = rw new_dick_table-zero (replicate-IsTable h 0);
    once = λ q. omega arith;
    few = omega arith;
    small = small;
    idle = λ e. refl;
    busy = λ r e. absurd (cc);
  }

  pub view-new : (q : Bytes) → view new_sub_dick q ≡ none
  unfolding view new_sub_dick lookup get_or or_else
  view-new q = refl

  -- With no entry in either table the map is empty.
  pub view-unused :
      {n : ℕ} (s : SubDick) (q : Bytes)
      → IsSub n s
      → s.main_dick.used ≡ 0
      → s.rehashing_table.used ≡ 0
      → view s q ≡ none
  unfolding view lookup or_else
  view-unused s q v a b = rw (bucket-unused h v.main a q, bucket-unused h v.second b q)

  -- While a rehash is under way both tables have buckets.
  pub rehashing_busy :
      {n : ℕ} {s : SubDick}
      → IsSub n s
      → is_rehashing s ≡ true
      → (0 < s.main_dick.size) × (0 < s.rehashing_table.size)
  rehashing_busy {s = s} v e = let (r, p) = rehashing_of s e in ((v.busy r p).0, (v.busy r p).1)

  -- A key that the map does not have stands in neither table.
  pub absent_at :
      (s : SubDick) (k q : Bytes)
      → view s k ≡ none
      → bytes_eq k q ≡ true
      → count q (bucket h s.main_dick q) + count q (bucket h s.rehashing_table q) ≡ 0
  unfolding view or_else
  absent_at s k q absent same =
      let m = bucket h s.main_dick k in
      let t = bucket h s.rehashing_table k in
      subst (λ x. count x (bucket h s.main_dick x) + count x (bucket h s.rehashing_table x) ≡ 0)
        (bytes_eq_sound k q same) (ground (arith, count-eq-zero k m, count-eq-zero k t))
