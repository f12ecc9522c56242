-- ===== src/Database/Locks/Linear.antt =====
-- database/operations.go: the calls of many goroutines take effect one after the other.
use mathlib.Core.Path.{subst}
use nodare_db_dev.Prelude.{
  ==_iff, Bool-cases, Bytes, List, Option, Returns, [], ap, arith, get_or-set, if◌then◌else◌, inl,
  inr, length, refl, some, sym, ℕ, ◌+◌, ◌<◌, ◌==◌, ◌^◌, ◌∙◌, ◌∷◌, ◌≡◌, ◌≤◌,
}
use nodare_db_dev.Database.Dick.{XDick, put_sub}
use nodare_db_dev.Database.Dick.Methods.{at_home}
use nodare_db_dev.Database.Dick.Valid.{home_sub, home_sub-lt, sub_index-home, sub_of}
use nodare_db_dev.Database.Entry.{Value}
use nodare_db_dev.Database.Locks.{
  Act, System, Thread, act_step, call, call_step, go_on, go_step, holding, key_of, loaded,
  new_system, put, resting, run_acts, sub_step, written_back,
}
use nodare_db_dev.Database.Locks.Commit.{sub_step-Models}
use nodare_db_dev.Database.Locks.Owners.{
  Answers, Fits, IsSystem, at_sub, free_lock, keep_lock, map_after, take_lock,
}
use nodare_db_dev.Database.Refines.{Models, Request}
use nodare_db_dev.Database.Sub.{SubDick, new_sub_dick}
use nodare_db_dev.Database.Sub.Buckets.{home}
use nodare_db_dev.Database.Sub.Move.{pure_hash}

module _ (h pcas : Bytes → ℕ) where
  -- A write to another sub-dictionary is not seen.
  Fits-put_sub :
      (d : XDick) (x : ℕ) (s : SubDick) (t : Thread)
      → x < length d.sub_dicks
      → (at_sub t ≡ some x → ⊥)
      → Fits h pcas d t
      → Fits h pcas (put_sub d x s) t
  Fits-put_sub d x s resting lt other fit = tt
  Fits-put_sub d x s (holding y r) lt other fit = fit
  Fits-put_sub d x s (written_back y) lt other fit = tt
  Fits-put_sub d x s (loaded y r u) lt other (home, same) = (
    home,
    same ∙ sym (get_or-set d.sub_dicks x (home_sub pcas d (key_of r)) s new_sub_dick lt ∙ unseen),
  )
    where
      unseen :
          (if x == home_sub pcas d (key_of r) then s else sub_of pcas d (key_of r))
          ≡ sub_of pcas d (key_of r)
      unseen = elim (Bool-cases (x == home_sub pcas d (key_of r))) [
        | inl e ↦ absurd (other (ap some (home ∙ sym ((==_iff x _).0 e))))
        | inr e ↦ rw e refl
      ]

  commit :
      {n : ℕ} {f : Bytes → Option Value} (w : System) (i x : ℕ) (r : Request) (s : SubDick)
      → IsSystem h pcas n f w
      → w.thread i ≡ loaded x r s
      → n + length w.log + 1 < 2 ^ 63
      → Returns (sub_step (pure_hash h) pcas s r) λ p. IsSystem h pcas n f (record w {
        dick = put_sub w.dick x p.0;
        thread = put w.thread i (written_back x);
        log = (r, p.1) ∷ w.log;
      })
  unfolding map_after
  commit {n} {f} w i x r s v here small =
      let (home, same) = subst (Fits h pcas w.dick) here (v.fits i) in
      let (p, run, (m, e)) = sub_step-Models h pcas (map_after f w.log) w.dick r v.models small in
      let kept = keep_lock h pcas w i (written_back x) v (sym (ap at_sub here)) tt in
      let grown : n + length w.log + 1 ≡ n + length ((r, p.1) ∷ w.log) = omega arith in
      let lt : x < length w.dick.sub_dicks =
        subst (λ y. y < length w.dick.sub_dicks) (sym home)
          (home_sub-lt h pcas w.dick (key_of r) v.models.valid) in
      (
        p,
        rw same run,
        record {
          models = rw home (
              subst
                (λ c.
                  Models h pcas c (map_after f ((r, p.1) ∷ w.log))
                    (put_sub w.dick (home_sub pcas w.dick (key_of r)) p.0))
                grown m);
          answers = (e, v.answers);
          locked = kept.locked;
          alone = kept.alone;
          fits = λ j. elim (Bool-cases (i == j)) [
            | inl e' ↦ rw e' tt
            | inr e' ↦ rw e' (
                Fits-put_sub w.dick x p.0 (w.thread j) lt
                  (λ at_j. (let clash = (==_iff i j).1 (v.alone i j x (ap at_sub here) at_j) in cc))
                  (v.fits j))
          ];
        },
      )

  call_step-IsSystem :
      {n : ℕ} {f : Bytes → Option Value} (w : System) (i : ℕ) (r : Request) (t : Thread)
      → IsSystem h pcas n f w
      → Returns
          (call_step (pure_hash h) pcas w i r t)
          (λ u. IsSystem h pcas n f u × (u.log ≡ w.log))
  call_step-IsSystem w i r resting v =
      rw (sub_index-home h pcas w.dick (key_of r) v.models.valid)
        (elim (Bool-cases (w.is_locked (home_sub pcas w.dick (key_of r)))) [
          | inl e ↦ rw e (w, refl, (v, refl))
          | inr e ↦ rw e (_, refl, (take_lock h pcas w i r v e, refl))
        ])
  call_step-IsSystem w i r (holding x q) v = (w, refl, (v, refl))
  call_step-IsSystem w i r (loaded x q s) v = (w, refl, (v, refl))
  call_step-IsSystem w i r (written_back x) v = (w, refl, (v, refl))

  go_step-IsSystem :
      {n : ℕ} {f : Bytes → Option Value} (w : System) (i : ℕ) (t : Thread)
      → w.thread i ≡ t
      → IsSystem h pcas n f w
      → n + length w.log + 1 < 2 ^ 63
      → Returns
          (go_step (pure_hash h) pcas w i t)
          λ u. IsSystem h pcas n f u × (length u.log ≤ length w.log + 1)
  go_step-IsSystem w i resting e v small = (w, refl, (v, omega arith))
  go_step-IsSystem w i (written_back x) e v small =
      (_, refl, (free_lock h pcas w i x v e, omega arith))
  go_step-IsSystem w i (loaded x r s) e v small =
      let (p, run, v') = commit w i x r s v e small in rw run (_, refl, (v', omega arith))
  go_step-IsSystem w i (holding x r) e v small =
      let home : x ≡ home_sub pcas w.dick (key_of r) = subst (Fits h pcas w.dick) e (v.fits i) in
      rw (home, at_home h pcas w.dick (key_of r) v.models.valid)
        (
          _,
          refl,
          (
            keep_lock h pcas w i (loaded _ r _) v (ap some (sym home) ∙ sym (ap at_sub e))
                (refl, refl),
            omega arith,
          ),
        )

  act_step-IsSystem :
      {n : ℕ} {f : Bytes → Option Value} (w : System) (a : Act)
      → IsSystem h pcas n f w
      → n + length w.log + 1 < 2 ^ 63
      → Returns
          (act_step (pure_hash h) pcas w a)
          λ u. IsSystem h pcas n f u × (length u.log ≤ length w.log + 1)
  unfolding act_step
  act_step-IsSystem w (call i r) v small =
      let (u, run, (v', same)) = call_step-IsSystem w i r (w.thread i) v in
      (u, run, (v', omega (arith, ap length same)))
  act_step-IsSystem w (go_on i) v small = go_step-IsSystem w i (w.thread i) refl v small

  run_acts-IsSystem :
      {n : ℕ} {f : Bytes → Option Value} (acts : List Act) (w : System)
      → IsSystem h pcas n f w
      → n + length w.log + length acts < 2 ^ 63
      → Returns (run_acts (pure_hash h) pcas acts w) (IsSystem h pcas n f)
  unfolding run_acts
  run_acts-IsSystem [] w v small = (w, refl, v)
  run_acts-IsSystem (a ∷ acts) w v small =
      let (u, run, (v', le)) = act_step-IsSystem w a v (omega (arith, small)) in
      rw run (run_acts-IsSystem acts u v' (omega (arith, small, le)))

  new_system-IsSystem :
      {n : ℕ} (f : Bytes → Option Value) (d : XDick)
      → Models h pcas n f d
      → IsSystem h pcas n f (new_system d)
  unfolding new_system map_after
  new_system-IsSystem {n} f d m = record {
    models = let none_yet : n ≡ n + 0 = omega arith in subst (λ c. Models h pcas c f d) none_yet m;
    answers = tt;
    locked = λ i x e. absurd (cc);
    alone = λ i j x e. absurd (cc);
    fits = λ i. tt;
  }

  -- On a dictionary that models a map `f` with at most `n` entries in a sub-dictionary: every
  -- interleaving of the goroutines' steps, `n` and their number below 2 ^ 63 together, returns;
  -- in the order in which the calls wrote, each was answered as the map answers it; and the
  -- dictionary models the map after these calls.
  pub run_acts-linear :
      {n : ℕ} (f : Bytes → Option Value) (d : XDick) (acts : List Act)
      → Models h pcas n f d
      → n + length acts < 2 ^ 63
      → Returns
          (run_acts (pure_hash h) pcas acts (new_system d))
          λ w. Answers f w.log × Models h pcas (n + length w.log) (map_after f w.log) w.dick
  unfolding new_system
  run_acts-linear {n} f d acts m small =
      let small' : n + 0 + length acts < 2 ^ 63 = omega (arith, small) in
      let (w, run, v) = run_acts-IsSystem acts (new_system d) (new_system-IsSystem f d m) small' in
      (w, run, (v.answers, v.models))
