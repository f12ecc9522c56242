-- ===== src/Database/Sub/Ends.antt =====
-- A rehash comes to its end: each step moves `rehashidx` on, and past the last bucket nothing is left.
use nodare_db_dev.Prelude.{
  Bytes, Option-cases, Returns, Run, arith, inl, inr, none, ok, refl, some, suc, zero, ℕ, ◌+◌,
  ◌>>=◌, ◌∙◌, ◌≡◌, ◌≤◌,
}
use nodare_db_dev.Database.Sub.{SubDick, finish_rehash, rehash_step}
use nodare_db_dev.Database.Sub.Finish.{
  Progress, ended, finish_rehash-Keeps, finish_rehash-ended, reached,
}
use nodare_db_dev.Database.Sub.Move.{pure_hash}
use nodare_db_dev.Database.Sub.Rehash.{
  rehash-none, rehash-some, rehash_loop-used, rehash_step-Looped,
}
use nodare_db_dev.Database.Sub.Skipping.{entries-Below}
use nodare_db_dev.Database.Sub.Valid.{IsSub, Keeps, Keeps-refl, Keeps-trans}

-- `rehashStep`, `k` times.
unfoldable pub rehash_steps : (Bytes → Run ℕ) → ℕ → SubDick → Run SubDick
rehash_steps hash zero s = ok s
rehash_steps hash (suc k) s = do t ← rehash_step hash s; rehash_steps hash k t

rehash_steps-none :
    (hash : Bytes → Run ℕ) (k : ℕ) (s : SubDick) → s.rehashidx ≡ none → rehash_steps hash k s ≡ ok s
unfolding rehash_steps rehash_step
rehash_steps-none hash zero s e = refl
rehash_steps-none hash (suc k) s e = simp (rehash-none hash 1 s e) (rehash_steps-none hash k s e)

module _ (h : Bytes → ℕ) (b : ℕ) where
  -- Past the last bucket the main table is empty, and the step ends the rehash.
  last_step :
      (s : SubDick) (r : ℕ)
      → IsSub h b s
      → s.rehashidx ≡ some r
      → s.main_dick.size ≤ r
      → Returns (rehash_step (pure_hash h) s) λ t. Keeps h b s t × (t.rehashidx ≡ none)
  unfolding rehash_step
  last_step s r v e past =
      let none_left : s.main_dick.used ≡ 0 =
        v.main.counted
        ∙ entries-Below s.main_dick.table r (v.busy r e).2 (omega (arith, v.main.width)) in
      (
        finish_rehash s,
        rehash-some (pure_hash h) 1 s r e ∙ rehash_loop-used (pure_hash h) 0 10 r s none_left,
        (finish_rehash-Keeps h s v, finish_rehash-ended s none_left),
      )

  rehash_steps-end :
      (k : ℕ) (s : SubDick) (r : ℕ)
      → IsSub h b s
      → s.rehashidx ≡ some r
      → s.main_dick.size ≤ r + k
      → Returns (rehash_steps (pure_hash h) (suc k) s) λ t. Keeps h b s t × (t.rehashidx ≡ none)
  unfolding rehash_steps
  rehash_steps-end zero s r v e le =
      let (t, run, done) = last_step s r v e (omega arith) in rw run (t, refl, done)
  rehash_steps-end (suc k) s r v e le =
      let (t, run, l) = rehash_step-Looped h b s r v e in
      rw run (on_progress t l.keeps l.progress (rehash_steps-end k t))
    where
      on_progress :
          (t : SubDick)
          → Keeps h b s t
          → Progress s.main_dick.size (r + 1) t
          → ((i : ℕ)
              → IsSub h b t
              → t.rehashidx ≡ some i
              → t.main_dick.size ≤ i + k
              → Returns
                  (rehash_steps (pure_hash h) (suc k) t)
                  λ u. Keeps h b t u × (u.rehashidx ≡ none))
          → Returns (rehash_steps (pure_hash h) (suc k) t) λ u. Keeps h b s u × (u.rehashidx ≡ none)
      on_progress t kept (ended p) rest =
          (t, rehash_steps-none (pure_hash h) (suc k) t p, (kept, p))
      on_progress t kept (reached i p ri same_size) rest =
          let (u, run, (more, done)) = rest i kept.valid p (omega arith) in
          (u, run, (Keeps-trans h kept more, done))

  -- From any sound sub-dictionary, as many rehash steps as the main table has buckets, and one
  -- more, return, keep soundness and the map, and end with no rehash under way.
  pub rehash_steps-ends :
      (s : SubDick)
      → IsSub h b s
      → Returns
          (rehash_steps (pure_hash h) (suc s.main_dick.size) s)
          λ t. Keeps h b s t × (t.rehashidx ≡ none)
  rehash_steps-ends s v = elim (Option-cases s.rehashidx) [
    | inl e ↦ (s, rehash_steps-none (pure_hash h) (suc s.main_dick.size) s e, (Keeps-refl h v, e))
    | inr (r, e) ↦ rehash_steps-end s.main_dick.size s r v e (omega arith)
  ]
