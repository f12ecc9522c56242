-- ===== src/Database/Sub/Rehash.antt =====
-- `rehash` keeps the map, never reads out of range, and gets nearer to its end at each call.
use mathlib.Core.Path.{subst}
use nodare_db_dev.Prelude.{
  ==_iff, Bool-cases, Bytes, Option-cases, Returns, Run, ap, arith, false, inl, inr, length, none,
  ok, refl, some, suc, zero, ℕ, ◌*◌, ◌+◌, ◌<◌, ◌==◌, ◌∙◌, ◌≡◌, ◌≤◌,
}
use nodare_db_dev.Database.Entry.{Chain}
use nodare_db_dev.Database.Sub.{
  Skip, SubDick, filled, finish_rehash, is_rehashing, move_chain, rehash, rehash_if_needed,
  rehash_loop, rehash_step, skip_empty, stopped,
}
use nodare_db_dev.Database.Sub.Buckets.{length-get_or-le}
use nodare_db_dev.Database.Sub.Finish.{
  Progress, Progress-le, advance, cleared, cleared-Keeps, ended, finish_rehash-Keeps,
  finish_rehash-Progress, finish_rehash-ended, finish_rehash-target, le-advance, reached, target,
}
use nodare_db_dev.Database.Sub.Move.{Moved, move_chain_lem, pure_hash}
use nodare_db_dev.Database.Sub.Skipping.{Below, Skipped, short, skip_empty_lem, there}
use nodare_db_dev.Database.Sub.Valid.{IsSub, Keeps, Keeps-refl, Keeps-trans, rehashing_of, view}
use nodare_db_dev.Database.Table.{DickTable}

module _ (hash : Bytes → Run ℕ) (n : ℕ) (s : SubDick) where
  pub rehash-none : s.rehashidx ≡ none → rehash hash n s ≡ ok s
  unfolding rehash
  rehash-none e = rw e

  pub rehash-some :
      (r : ℕ) → s.rehashidx ≡ some r → rehash hash n s ≡ rehash_loop hash n (n * 10) r s
  unfolding rehash
  rehash-some r e = rw e

module _ (hash : Bytes → Run ℕ) (n visits r : ℕ) (s : SubDick) where
  pub rehash_loop-used :
      s.main_dick.used ≡ 0 → rehash_loop hash (suc n) visits r s ≡ ok (finish_rehash s)
  unfolding rehash_loop
  rehash_loop-used e = rw e

  module _ (some_left : (s.main_dick.used == 0) ≡ false) where
    rehash_loop-stopped :
        (i : ℕ)
        → skip_empty visits s.main_dick.table r ≡ ok (stopped i)
        → rehash_loop hash (suc n) visits r s ≡ ok (record s { rehashidx = some i })
    unfolding rehash_loop
    rehash_loop-stopped i e = rw (some_left, e)

    rehash_loop-filled :
        (left i : ℕ) (chain : Chain) (t : SubDick)
        → skip_empty visits s.main_dick.table r ≡ ok (filled left i chain)
        → move_chain hash chain s ≡ ok t
        → rehash_loop hash (suc n) visits r s ≡ rehash_loop hash n left (i + 1) (cleared t i)
    unfolding rehash_loop
    rehash_loop-filled left i chain t e run = rw (some_left, e, run)

module _ (h : Bytes → ℕ) (b : ℕ) where
  -- What a call of the loop guarantees.
  pub record Looped (n r : ℕ) (s t : SubDick) : Type 0 where
    pub keeps : Keeps h b s t
    pub progress : Progress s.main_dick.size (advance n r) t
    pub target : (target t).size ≡ s.rehashing_table.size

  stopped-Looped :
      (n r i : ℕ) (s : SubDick)
      → IsSub h b s
      → s.rehashidx ≡ some r
      → r < i
      → Below s.main_dick.table i
      → Looped (suc n) r s (record s { rehashidx = some i })
  unfolding view
  stopped-Looped n r i s v e lt below = record {
    keeps = record {
      valid = record {
        main = v.main;
        second = v.second;
        once = v.once;
        few = v.few;
        small = v.small;
        idle = λ p. absurd (cc);
        busy = λ k p. ((v.busy r e).0, (v.busy r e).1, λ j le. below j (ground arith));
      };
      same = λ q. refl;
    };
    progress = reached i refl (omega arith) refl;
    target = refl;
  }

  -- The rest of the loop after one bucket, at whichever bucket it was.
  abbrev Rest : ℕ → Type 0
  Rest n =
      (left i : ℕ) (t : SubDick)
      → IsSub h b (cleared t i)
      → 0 < left
      → Returns (rehash_loop (pure_hash h) n left (i + 1) (cleared t i))
          (Looped n (i + 1) (cleared t i))

  after_skip :
      (n visits r : ℕ) (s : SubDick)
      → IsSub h b s
      → s.rehashidx ≡ some r
      → (s.main_dick.used == 0) ≡ false
      → Rest n
      → (k : Skip) → Skipped s.main_dick.table r k
      → skip_empty visits s.main_dick.table r ≡ ok k
      → Returns (rehash_loop (pure_hash h) (suc n) visits r s) (Looped (suc n) r s)
  after_skip n visits r s v e z rest k (short i lt below) run = (
    record s { rehashidx = some i },
    rehash_loop-stopped (pure_hash h) n visits r s z i run,
    stopped-Looped n r i s v e lt below,
  )
  after_skip n visits r s v e z rest k (there left i chain pos le lt below same) run =
      let bound : length chain ≤ s.main_dick.used =
        rw same (omega (arith, length-get_or-le s.main_dick.table i, v.main.counted)) in
      let (t, moving, moved) =
        move_chain_lem h chain s v.second (v.busy r e).1 bound (omega (arith, v.few, v.small)) in
      let step = cleared-Keeps h s v e t i below lt (subst (λ c. Moved h c s t) same moved) in
      let (u, run', l) = rest left i t step.valid pos in
      (
        u,
        rehash_loop-filled (pure_hash h) n visits r s z left i chain t run moving ∙ run',
        record {
          keeps = Keeps-trans h step l.keeps;
          progress =
              subst (λ m. Progress m (r + 1) u) (ap (λ (d : DickTable). d.size) moved.main)
                (Progress-le (le-advance n r i le) l.progress);
          target = l.target ∙ moved.size;
        },
      )

  rehash_loop_lem :
      (n visits r : ℕ) (s : SubDick)
      → IsSub h b s
      → s.rehashidx ≡ some r
      → (0 < n → 0 < visits)
      → Returns (rehash_loop (pure_hash h) n visits r s) (Looped n r s)
  unfolding rehash_loop
  rehash_loop_lem zero visits r s v e pos = (
    finish_rehash s,
    refl,
    record {
      keeps = finish_rehash-Keeps h s v;
      progress = finish_rehash-Progress s r e;
      target = finish_rehash-target s r e;
    },
  )
  rehash_loop_lem (suc n) visits r s v e pos =
      let rest = λ (left i : ℕ) (t : SubDick) (v' : IsSub h b (cleared t i)) (pos' : 0 < left).
        rehash_loop_lem n left (i + 1) (cleared t i) v' refl (λ _. pos') in
      elim (Bool-cases (s.main_dick.used == 0)) [
        | inl z ↦ (
          finish_rehash s,
          rehash_loop-used (pure_hash h) n visits r s ((==_iff s.main_dick.used 0).0 z),
          record {
            keeps = finish_rehash-Keeps h s v;
            progress = ended (finish_rehash-ended s ((==_iff s.main_dick.used 0).0 z));
            target = finish_rehash-target s r e;
          },
        )
        | inr z ↦
            let (k, run, sk) =
              skip_empty_lem visits s.main_dick.table r (pos (omega arith))
                (ground (arith, v.main.counted)) (v.busy r e).2 in
            after_skip n visits r s v e z rest k sk run
      ]

  -- One step of a rehash under way.
  pub rehash_step-Looped :
      (s : SubDick) (r : ℕ)
      → IsSub h b s
      → s.rehashidx ≡ some r
      → Returns (rehash_step (pure_hash h) s) (Looped 1 r s)
  unfolding rehash_step
  rehash_step-Looped s r v e =
      let (t, run, l) = rehash_loop_lem 1 10 r s v e (λ _. omega arith) in
      (t, rehash-some (pure_hash h) 1 s r e ∙ run, l)

  -- On a sound sub-dictionary, `rehash` with any number of buckets to move returns, and keeps
  -- soundness and the map.
  pub rehash-Keeps :
      (n : ℕ) (s : SubDick) → IsSub h b s → Returns (rehash (pure_hash h) n s) (Keeps h b s)
  rehash-Keeps n s v = elim (Option-cases s.rehashidx) [
    | inl e ↦ (s, rehash-none (pure_hash h) n s e, Keeps-refl h v)
    | inr (r, e) ↦
        let (t, run, l) = rehash_loop_lem n (n * 10) r s v e (λ pos. omega arith) in
        (t, rehash-some (pure_hash h) n s r e ∙ run, l.keeps)
  ]

  pub rehash_if_needed-Keeps :
      (s : SubDick)
      → IsSub h b s
      → Returns
          (rehash_if_needed (pure_hash h) s)
          λ t. Keeps h b s t × ((target t).size ≡ (target s).size)
  unfolding rehash_if_needed
  rehash_if_needed-Keeps s v = elim (Bool-cases (is_rehashing s)) [
    | inr e ↦ rw e (s, refl, (Keeps-refl h v, rw e))
    | inl e ↦
        let (r, p) = rehashing_of s e in
        let (t, run, l) = rehash_step-Looped s r v p in rw e (t, run, (l.keeps, l.target))
  ]
