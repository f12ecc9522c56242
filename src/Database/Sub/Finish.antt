-- ===== src/Database/Sub/Finish.antt =====
-- The end of a rehash: the new table takes the place of an empty main table. And how far a step of
-- a rehash comes.
use mathlib.Core.Option.{or_else}
use nodare_db_dev.Prelude.{
  ==_iff, Bool-cases, Bytes, Option, [], arith, get_or, get_or-replicate, get_or-set, if◌then◌else◌,
  inl, inr, length, none, refl, set, some, suc, zero, ℕ, ◌+◌, ◌-◌, ◌<◌, ◌==◌, ◌≡◌, ◌≤◌,
}
use nodare_db_dev.Database.Entry.{Value, count, lookup, lookup-eq-none}
use nodare_db_dev.Database.Sub.{SubDick, finish_rehash, is_rehashing}
use nodare_db_dev.Database.Sub.Buckets.{
  bucket-unused, fresh_table, home, length-get_or-le, new_dick_table-zero, replicate-IsTable,
  set-IsTable,
}
use nodare_db_dev.Database.Sub.Move.{Moved}
use nodare_db_dev.Database.Sub.Skipping.{Below}
use nodare_db_dev.Database.Sub.Valid.{IsSub, Keeps, Keeps-refl, view}
use nodare_db_dev.Database.Table.{DickTable}

or_else-none : (o : Option Value) → or_else o none ≡ o
unfolding or_else
or_else-none none = refl
or_else-none (some v) = refl

-- The rehash has ended, or stands at index `r` or further on in a main table of size `m`.
pub data Progress (m r : ℕ) (t : SubDick) : Type 0 where
  ended : t.rehashidx ≡ none → Progress m r t
  reached : (i : ℕ) → t.rehashidx ≡ some i → r ≤ i → t.main_dick.size ≡ m → Progress m r t

pub Progress-le : {m r k : ℕ} {t : SubDick} → k ≤ r → Progress m r t → Progress m k t
Progress-le le (ended e) = ended e
Progress-le le (reached i e ri size) = reached i e (omega arith) size

-- Where a call with `n` buckets to move stands at least when it returns.
abbrev pub advance : ℕ → ℕ → ℕ
advance zero r = r
advance (suc n) r = r + 1

-- The table that new entries go to.
abbrev pub target : SubDick → DickTable
target s = if is_rehashing s then s.rehashing_table else s.main_dick

-- The main table with bucket `i` cleared, and `rehashidx` behind it.
abbrev pub cleared : SubDick → ℕ → SubDick
cleared t i = record t {
  main_dick = record (t.main_dick) { table = set t.main_dick.table i [] };
  rehashidx = some (i + 1);
}

module _ (h : Bytes → ℕ) {n : ℕ} where
  ended-Keeps :
      (s : SubDick)
      → IsSub h n s
      → s.main_dick.used ≡ 0
      → Keeps h n s (record {
        main_dick = s.rehashing_table;
        rehashing_table = fresh_table 0;
        rehashidx = none;
      })
  unfolding view lookup count or_else
  ended-Keeps s v u = record {
    valid = record {
      main = v.second;
      second = replicate-IsTable h 0;
      once = λ q. rw get_or-replicate (omega (arith, v.once q));
      few = omega (arith, v.few);
      small = v.small;
      idle = λ e. refl;
      busy = λ r e. absurd (cc);
    };
    same = λ q. rw (get_or-replicate, bucket-unused h v.main u q, or_else-none);
  }

  pub finish_rehash-Keeps : (s : SubDick) → IsSub h n s → Keeps h n s (finish_rehash s)
  unfolding finish_rehash
  finish_rehash-Keeps s v = elim (Bool-cases (s.main_dick.used == 0)) [
    | inr e ↦ rw e (Keeps-refl h v)
    | inl e ↦ rw (e, new_dick_table-zero) (ended-Keeps s v ((==_iff s.main_dick.used 0).0 e))
  ]

  module _ (s : SubDick) {r : ℕ} (v : IsSub h n s) (busy : s.rehashidx ≡ some r) where
    -- Bucket `i`, the first that is not empty, has gone to the rehashing table.
    pub cleared-Keeps :
        (t : SubDick) (i : ℕ)
        → Below s.main_dick.table i
        → i < length s.main_dick.table
        → Moved h (get_or s.main_dick.table i []) s t
        → Keeps h n s (cleared t i)
    unfolding view lookup count or_else
    cleared-Keeps t i below lt moved =
        let m = s.main_dick in
        let chain = get_or m.table i [] in
        let fits : length chain ≤ m.used =
          omega (arith, length-get_or-le m.table i, v.main.counted) in
        rw moved.main (record {
          valid = record {
            main =
                set-IsTable h i [] (m.used - length chain) v.main lt (omega arith) (λ q ne. refl);
            second = moved.second;
            once = λ q.
                rw (get_or-set m.table i (home h m q) [] [] lt)
                  (ground (arith, v.once q, moved.counts q, v.main.placed q i));
            few = omega (arith, v.few, moved.used);
            small = v.small;
            idle = λ e. absurd (cc);
            busy = λ k e. (
              (v.busy r busy).0,
              rw moved.size (v.busy r busy).1,
              λ j le. rw (get_or-set m.table i j [] [] lt) (ground (arith, below j)),
            );
          };
          same = λ q.
              rw (get_or-set m.table i (home h m q) [] [] lt) (
                ground (arith, v.once q, moved.reads q, v.main.placed q i, lookup-eq-none q chain));
        })

pub le-advance : (n r i : ℕ) → r ≤ i → r + 1 ≤ advance n (i + 1)
le-advance zero r i le = omega arith
le-advance (suc n) r i le = omega arith

pub finish_rehash-ended : (s : SubDick) → s.main_dick.used ≡ 0 → (finish_rehash s).rehashidx ≡ none
unfolding finish_rehash
finish_rehash-ended s e = rw e

pub finish_rehash-Progress :
    (s : SubDick) (r : ℕ) → s.rehashidx ≡ some r → Progress s.main_dick.size r (finish_rehash s)
unfolding finish_rehash
finish_rehash-Progress s r e = elim (Bool-cases (s.main_dick.used == 0)) [
  | inl z ↦ rw z (ended refl)
  | inr z ↦ rw z (reached r e (omega arith) refl)
]

pub finish_rehash-target :
    (s : SubDick) (r : ℕ)
    → s.rehashidx ≡ some r
    → (target (finish_rehash s)).size ≡ s.rehashing_table.size
unfolding finish_rehash
finish_rehash-target s r e = elim (Bool-cases (s.main_dick.used == 0)) [
  | inl z ↦ rw z
  | inr z ↦ rw (z, e)
]
