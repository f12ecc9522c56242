-- ===== src/Database/Sub/Move.antt =====
-- The inner loop of `rehash`: one chain goes over to the rehashing table.
use mathlib.Core.Option.{or_else}
use nodare_db_dev.Prelude.{
  Bool-cases, Bytes, Returns, Run, [], ap, arith, at-get_or, bytes_eq, bytes_eq_sound, false,
  if◌then◌else◌, inl, inr, length, ok, refl, set, some, sym, true, ℕ, ◌+◌, ◌-◌, ◌<◌, ◌==◌, ◌^◌, ◌∙◌,
  ◌∷◌, ◌≡◌, ◌≢◌, ◌≤◌,
}
use nodare_db_dev.Database.Entry.{Chain, DickEntry, count, lookup, lookup-eq-none}
use nodare_db_dev.Database.Sub.{SubDick, move_chain}
use nodare_db_dev.Database.Sub.Buckets.{IsTable, bucket, bucket-set, home, home-lt, set-IsTable}
use nodare_db_dev.Database.Table.{DickTable, dec, inc}

-- An entry at the front of its own bucket.
module _ (h : Bytes → ℕ) {t : DickTable} (v : IsTable h t) (pos : 0 < t.size) (e : DickEntry) where
  own_bucket : (q : Bytes) → home h t q ≢ home h t e.key → bytes_eq e.key q ≡ false
  own_bucket q ne = elim (Bool-cases (bytes_eq e.key q)) [
    | inl same ↦ absurd (ne (ap (home h t) (sym (bytes_eq_sound e.key q same))))
    | inr other ↦ other
  ]

  own_home : (q : Bytes) → bytes_eq e.key q ≡ true → home h t e.key ≡ home h t q
  own_home q same = ap (home h t) (bytes_eq_sound e.key q same)

  abbrev pub push : DickTable
  push = record t { table = set t.table (home h t e.key) (e ∷ bucket h t e.key); used = inc t.used }

  pub push-IsTable : t.used + 1 < 2 ^ 64 → IsTable h push
  unfolding count
  push-IsTable small =
      set-IsTable h _ _ _ v (home-lt h v pos e.key) (omega arith)
        (λ q ne. rw (own_bucket q ne) (omega (arith, v.placed q _ ne)))

  pub bucket-push :
      (q : Bytes)
      → bucket h push q
        ≡ (if home h t e.key == home h t q then e ∷ bucket h t e.key else bucket h t q)
  bucket-push q =
      bucket-set h t (home h t e.key) (e ∷ bucket h t e.key) (inc t.used) q (home-lt h v pos e.key)

  pub count-push :
      (q : Bytes)
      → count q (bucket h push q) ≡ (if bytes_eq e.key q then 1 else 0) + count q (bucket h t q)
  unfolding count
  count-push q = rw (bucket-push q) (ground (arith, own_home q))

  pub lookup-push :
      (q : Bytes)
      → lookup q (bucket h push q)
        ≡ (if bytes_eq e.key q then some e.value else lookup q (bucket h t q))
  unfolding lookup
  lookup-push q = rw (bucket-push q) (ground (arith, own_home q))

with_used :
    (t : DickTable) {a b : ℕ}
    → a ≡ b
    → ◌≡◌ {A = DickTable} (record t { used = a }) (record t { used = b })
with_used t e = ap (λ u. record t { used = u }) e

abbrev pub pure_hash : (Bytes → ℕ) → Bytes → Run ℕ
pure_hash h q = ok (h q)

module _ (h : Bytes → ℕ) where
  -- The entries of `c` have gone from the count of the main table to the rehashing table.
  pub record Moved (c : Chain) (s t : SubDick) : Type 0 where
    pub second : IsTable h t.rehashing_table
    pub size : t.rehashing_table.size ≡ s.rehashing_table.size
    pub main : t.main_dick ≡ record (s.main_dick) { used = s.main_dick.used - length c }
    pub rehashidx : t.rehashidx ≡ s.rehashidx
    pub used : t.rehashing_table.used ≡ s.rehashing_table.used + length c
    pub counts :
        (q : Bytes)
        → count q (bucket h t.rehashing_table q)
          ≡ count q c + count q (bucket h s.rehashing_table q)
    pub reads :
        (q : Bytes)
        → count q c + count q (bucket h s.rehashing_table q) ≤ 1
        → lookup q (bucket h t.rehashing_table q)
          ≡ or_else (lookup q c) (lookup q (bucket h s.rehashing_table q))

  pub move_chain_lem :
      (c : Chain) (s : SubDick)
      → IsTable h s.rehashing_table
      → 0 < s.rehashing_table.size
      → length c ≤ s.main_dick.used
      → s.main_dick.used + s.rehashing_table.used < 2 ^ 63
      → Returns (move_chain (pure_hash h) c s) (Moved c s)
  unfolding move_chain count lookup or_else
  move_chain_lem [] s v pos le small = (
    s,
    refl,
    record {
      second = v;
      size = refl;
      main = with_used s.main_dick (omega arith);
      rehashidx = refl;
      used = omega arith;
      counts = λ q. omega arith;
      reads = λ q le. refl;
    },
  )
  move_chain_lem (e ∷ c) s v pos le small =
      let m = s.main_dick in
      let s' = record s {
        main_dick = record m { used = dec m.used };
        rehashing_table = push h v pos e;
      } in
      let (t, run, moved) =
        move_chain_lem c s' (push-IsTable h v pos e (omega arith)) pos (omega arith)
          (omega arith) in
      (
        t,
        rw (at-get_or s.rehashing_table.table _ [] (home-lt h v pos e.key)) run,
        record {
          second = moved.second;
          size = moved.size;
          main = moved.main ∙ with_used m (omega arith);
          rehashidx = moved.rehashidx;
          used = omega (arith, moved.used);
          counts = λ q. omega (arith, moved.counts q, count-push h v pos e q);
          reads = λ q le. ground (
            arith,
            moved.reads q,
            count-push h v pos e q,
            lookup-push h v pos e q,
            lookup-eq-none q c,
            lookup-eq-none q (bucket h s.rehashing_table q),
          );
        },
      )
