-- ===== src/Database/Sub/Expand.antt =====
-- `expand` and `expandIfNeeded` keep the map.
use nodare_db_dev.Prelude.{
  Bool-cases, Bytes, arith, false, get_or-replicate, inl, inr, length, none, refl, some, true, ℕ,
  ◌<◌, ◌==◌, ◌^◌, ◌||◌, ◌≡◌,
}
use nodare_db_dev.Database.Entry.{count, lookup}
use nodare_db_dev.Database.Sub.{SubDick, expand, expand_if_needed, is_rehashing}
use nodare_db_dev.Database.Sub.Buckets.{
  bucket-unused, fresh_table, new_dick_table-fresh, replicate-IsTable, used-no_buckets,
}
use nodare_db_dev.Database.Sub.Valid.{IsSub, Keeps, Keeps-refl, idle_of, rehashing_busy, view}
use nodare_db_dev.Database.Table.{initial_size, next_power, slt, slt-pos}

module _ (h : Bytes → ℕ) {n : ℕ} where
  fresh_main-Keeps :
      (s : SubDick) (m : ℕ)
      → IsSub h n s
      → s.rehashidx ≡ none
      → s.main_dick.size ≡ 0
      → Keeps h n s (record s { main_dick = fresh_table m })
  unfolding view lookup count
  fresh_main-Keeps s m v idle bare =
      let unused = used-no_buckets h v.main bare in
      let old = bucket-unused h v.main unused in
      record {
        valid = record {
          main = replicate-IsTable h m;
          second = v.second;
          once = λ q. rw get_or-replicate (omega (arith, v.once q));
          few = omega (arith, v.few);
          small = v.small;
          idle = v.idle;
          busy = λ r e. absurd (cc);
        };
        same = λ q. rw (get_or-replicate, old q);
      }

  fresh_second-Keeps :
      (s : SubDick) (m : ℕ)
      → IsSub h n s
      → s.rehashidx ≡ none
      → 0 < s.main_dick.size
      → 0 < m
      → Keeps h n s (record s { rehashing_table = fresh_table m; rehashidx = some 0 })
  unfolding view lookup count
  fresh_second-Keeps s m v idle some_buckets pos =
      let unused = used-no_buckets h v.second (v.idle idle) in
      let old = bucket-unused h v.second unused in
      record {
        valid = record {
          main = v.main;
          second = replicate-IsTable h m;
          once = λ q. rw get_or-replicate (omega (arith, v.once q));
          few = omega (arith, v.few);
          small = v.small;
          idle = λ e. absurd (cc);
          busy = λ r e. (some_buckets, pos, λ i lt. absurd (omega (arith, zero_of r e)));
        };
        same = λ q. rw (get_or-replicate, old q);
      }
    where
      zero_of : (r : ℕ) → some 0 ≡ some r → r ≡ 0
      zero_of r e = cc

next_power_initial : next_power 128 ≡ 128
unfolding next_power
next_power_initial = refl

next_power-lt : (k : ℕ) → next_power k < 2 ^ 64
unfolding next_power
next_power-lt k = ground arith

expand-main_dick :
    (k : ℕ) (s : SubDick) → 0 < length s.main_dick.table → (expand k s).main_dick ≡ s.main_dick
unfolding expand
expand-main_dick k s pos = elim (Bool-cases (is_rehashing s || slt k s.main_dick.used)) [
  | inl e ↦ rw e
  | inr e ↦ rw e (elim (Bool-cases (slt s.main_dick.used (next_power k))) [
    | inr p ↦ rw p
    | inl p ↦ rw p (elim (Bool-cases (length s.main_dick.table == 0)) [
      | inl z ↦ absurd (ground arith)
      | inr z ↦ rw z
    ])
  ])
]

expand_initial-size :
    (s : SubDick)
    → is_rehashing s ≡ false
    → s.main_dick.used ≡ 0
    → (length s.main_dick.table == 0) ≡ true
    → (expand initial_size s).main_dick.size ≡ 128
unfolding expand
expand_initial-size s e u z =
    rw (e, u, next_power_initial, z, new_dick_table-fresh 128 (omega arith) (omega arith))

module _ (h : Bytes → ℕ) {n : ℕ} where
  -- The test before `NewDickTable` gives a positive size that does not wrap.
  next_power-fits :
      (s : SubDick) (k : ℕ)
      → IsSub h n s
      → slt s.main_dick.used (next_power k) ≡ true
      → (0 < next_power k) × (next_power k < 2 ^ 63)
  next_power-fits s k v p =
      let r =
        slt-pos s.main_dick.used (next_power k) (omega (arith, v.few, v.small)) (next_power-lt k)
          p in
      (omega (arith, r.0), r.1)

  pub expand-Keeps : (k : ℕ) (s : SubDick) → IsSub h n s → Keeps h n s (expand k s)
  unfolding expand
  expand-Keeps k s v = elim (Bool-cases (is_rehashing s || slt k s.main_dick.used)) [
    | inl e ↦ rw e (Keeps-refl h v)
    | inr e ↦ rw e (elim (Bool-cases (slt s.main_dick.used (next_power k))) [
      | inr p ↦ rw p (Keeps-refl h v)
      | inl p ↦
          let (pos, fits) = next_power-fits s k v p in
          let idle = idle_of s (ground arith) in
          rw (p, new_dick_table-fresh (next_power k) pos fits)
            (elim (Bool-cases (length s.main_dick.table == 0)) [
              | inl z ↦ rw z (fresh_main-Keeps h s _ v idle (ground (arith, v.main.width)))
              | inr z ↦ rw z (fresh_second-Keeps h s _ v idle (ground (arith, v.main.width)) pos)
            ])
    ])
  ]

  -- On a sound sub-dictionary, `expandIfNeeded` keeps soundness and the map, and the main table
  -- has buckets afterwards.
  pub expand_if_needed-Keeps :
      (s : SubDick)
      → IsSub h n s
      → Keeps h n s (expand_if_needed s) × (0 < (expand_if_needed s).main_dick.size)
  unfolding expand_if_needed
  expand_if_needed-Keeps s v = elim (Bool-cases (is_rehashing s)) [
    | inl e ↦ rw e (Keeps-refl h v, (rehashing_busy h v e).0)
    | inr e ↦ rw e (elim (Bool-cases (length s.main_dick.table == 0)) [
      | inl z ↦ rw z (
        expand-Keeps initial_size s v,
        rw (expand_initial-size s e (used-no_buckets h v.main (ground (arith, v.main.width))) z)
            (omega arith),
      )
      | inr z ↦ rw z (elim (Bool-cases (slt s.main_dick.used s.main_dick.size)) [
        | inl p ↦ rw p (Keeps-refl h v, ground (arith, v.main.width))
        | inr p ↦ rw p (
          expand-Keeps _ s v,
          rw (expand-main_dick _ s (ground arith)) (ground (arith, v.main.width)),
        )
      ])
    ])
  ]
