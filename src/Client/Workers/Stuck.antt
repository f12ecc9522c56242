-- ===== src/Client/Workers/Stuck.antt =====
-- client/main.go: the load test after a call of `NewCli` that fails.
use mathlib.Core.Path.{subst}
use nodare_db_dev.Prelude.{
  ==_iff, Bool, Bool-cases, List, Option, [], ap, arith, inl, inr, ltb, none, refl, set, some, suc,
  sym, zero, ℕ, ◌++◌, ◌<◌, ◌==◌, ◌∙◌, ◌∷◌, ◌≡◌, ◌≢◌, ◌≤◌,
}
use nodare_db_dev.Client.Workers.{
  Channels, Flags, Job, MainSpot, Move, Outside, Pairs, Program, Spot, Worker, at_checks,
  at_get_done, at_inserts, at_ints, at_maps, at_set_done, at_stop, exits, gave_up, inserting, moves,
  waits, worker_step,
}
use nodare_db_dev.Client.Workers.Balance.{IfMoves, IfMoves-moves}
use nodare_db_dev.Client.Workers.Counted.{Counted, IsCounted}
use nodare_db_dev.Client.Workers.Counted.Reached.{Runs-Counted, step_program-Counted}
use nodare_db_dev.Client.Workers.Counts.{is_insert, is_set_done, over, owed_by, owes, sum-at}
use nodare_db_dev.Client.Workers.Main.{main_move, take_int, take_map}
use nodare_db_dev.Client.Workers.Runs.{
  Runs, Runs-keeps, Turn, main_turn, new_program, put_worker, step_program, step_worker, worker_at,
  worker_turn,
}

worker_at-set :
    (ws : List Worker) (n m : ℕ) (v w : Worker)
    → n ≢ m
    → worker_at n ws ≡ some w
    → worker_at n (set ws m v) ≡ some w
unfolding worker_at
worker_at-set [] n m v w other e = e
worker_at-set (x ∷ ws) zero zero v w other e = absurd (other refl)
worker_at-set (x ∷ ws) zero (suc m) v w other e = e
worker_at-set (x ∷ ws) (suc n) zero v w other e = e
worker_at-set (x ∷ ws) (suc n) (suc m) v w other e =
    worker_at-set ws n m v w (λ same. other (ap suc same)) e

worker_at-append :
    (ws vs : List Worker) (n : ℕ) (w : Worker)
    → worker_at n ws ≡ some w
    → worker_at n (ws ++ vs) ≡ some w
unfolding worker_at
worker_at-append [] vs n w e = absurd (cc)
worker_at-append (x ∷ ws) vs zero w e = e
worker_at-append (x ∷ ws) vs (suc n) w e = worker_at-append ws vs n w e

-- The main goroutine before the checks.
abbrev pub Inserting : MainSpot → Type 0
Inserting (at_inserts k) = Unit
Inserting (at_set_done n) = Unit
Inserting (at_maps ms) = ⊥
Inserting (at_checks todo) = ⊥
Inserting (at_get_done n) = ⊥
Inserting (at_ints n) = ⊥
Inserting (at_stop n) = ⊥

abbrev pub failed_insert : ℕ → Worker
failed_insert r = record { job = inserting r; spot = gave_up }

module _ {W : Type 0} (out : Outside W) (flags : Flags) where
  open flags use {rounds}

  -- The worker has failed, and stays as it is.
  abbrev Fails : ℕ → ℕ → Program W → Type 0
  Fails n r p = worker_at n p.workers ≡ some (failed_insert r)

  put_worker-Fails :
      (p q : Program W) (n r m : ℕ) (job : Job) (to : Move (Spot × Channels W))
      → n ≢ m
      → Fails n r p
      → put_worker out flags p m job to ≡ moves q
      → Fails n r q
  put_worker-Fails p q n r m job waits other fails e = absurd (cc)
  put_worker-Fails p q n r m job exits other fails e = absurd (cc)
  put_worker-Fails p q n r m job (moves (s', c')) other fails e =
      let after : Program W = record p {
        workers = set p.workers m (record { job = job; spot = s' });
        channels = c';
      } in
      let same : after ≡ q = cc in
      subst (Fails n r) same (
        worker_at-set p.workers n m (record { job = job; spot = s' }) (failed_insert r) other fails)

  worker_turn-Fails :
      (p q : Program W) (n r m : ℕ) (dialled : Bool) (o : Option Worker)
      → worker_at m p.workers ≡ o
      → Fails n r p
      → step_worker out flags p m dialled o ≡ moves q
      → Fails n r q
  unfolding worker_step
  worker_turn-Fails p q n r m dialled none found fails e = absurd (cc)
  worker_turn-Fails p q n r m dialled (some w) found fails e = elim (Bool-cases (n == m)) [
    | inl same ↦
        let here : n ≡ m = (==_iff n m).0 same in
        let it : some w ≡ some (failed_insert r) =
          sym found ∙ subst (λ k. worker_at k p.workers ≡ some (failed_insert r)) here fails in
        let idle : step_worker out flags p m dialled (some (failed_insert r)) ≡ waits = refl in
        let stuck : waits ≡ moves q =
          sym idle ∙ (ap (step_worker out flags p m dialled) (sym it) ∙ e) in
        absurd (cc)
    | inr other ↦
        put_worker-Fails p q n r m w.job _
          (λ same. let yes_same = (==_iff n m).1 same in absurd (cc)) fails e
  ]

  main_move-Fails :
      (main : MainSpot) (p : Program W) (n r : ℕ)
      → Fails n r p
      → IfMoves (Fails n r) (main_move out flags main p)
  unfolding main_move
  main_move-Fails (at_inserts k) p n r fails = elim (Bool-cases (ltb k rounds)) [
    | inl e ↦ rw e (worker_at-append p.workers _ n (failed_insert r) fails)
    | inr e ↦ rw e fails
  ]
  main_move-Fails (at_set_done k) p n r fails = elim (Bool-cases (p.channels.set_done == 0)) [
    | inl e ↦ rw e tt
    | inr e ↦ rw e fails
  ]
  main_move-Fails (at_maps ms) p n r fails = map_taken ms p p.channels.maps fails
    where
      map_taken :
          (ms : List Pairs) (p : Program W) (here : List Pairs)
          → Fails n r p
          → IfMoves (Fails n r) (take_map out flags ms p here)
      map_taken ms p [] fails = tt
      map_taken ms p (m ∷ rest) fails = fails
  main_move-Fails (at_checks []) p n r fails = fails
  main_move-Fails (at_checks (ps ∷ rest)) p n r fails =
      worker_at-append p.workers _ n (failed_insert r) fails
  main_move-Fails (at_get_done k) p n r fails = elim (Bool-cases (p.channels.get_done == 0)) [
    | inl e ↦ rw e tt
    | inr e ↦ rw e fails
  ]
  main_move-Fails (at_ints k) p n r fails = int_taken k p p.channels.ints fails
    where
      int_taken :
          (k : ℕ) (p : Program W) (here : List ℕ)
          → Fails n r p
          → IfMoves (Fails n r) (take_int out flags k p here)
      int_taken k p [] fails = tt
      int_taken k p (i ∷ rest) fails = fails
  main_move-Fails (at_stop k) p n r fails = tt

  step_program-Fails :
      (p q : Program W) (t : Turn) (n r : ℕ)
      → Fails n r p
      → step_program out flags t p ≡ moves q
      → Fails n r q
  unfolding step_program
  step_program-Fails p q main_turn n r fails e =
      IfMoves-moves (Fails n r) _ q (main_move-Fails p.main p n r fails) e
  step_program-Fails p q (worker_turn m dialled) n r fails e =
      worker_turn-Fails p q n r m dialled (worker_at m p.workers) refl fails e

  stays-Inserting :
      (main : MainSpot) (p : Program W) (n r : ℕ)
      → IsCounted out flags p.workers main p.channels
      → Fails n r p
      → Inserting main
  stays-Inserting main p n r v fails =
      let owed = sum-at (over (owes is_set_done is_insert)) p.workers n (failed_insert r) fails in
      by_place main v owed
    where
      by_place :
          (main : MainSpot)
          → IsCounted out flags p.workers main p.channels
          → 1 ≤ owed_by is_set_done is_insert p.workers
          → Inserting main
      by_place (at_inserts k) v owed = tt
      by_place (at_set_done k) v owed = tt
      by_place (at_maps ms) v owed = absurd (omega (arith, v.sets, owed))
      by_place (at_checks todo) v owed = absurd (omega (arith, v.sets, owed))
      by_place (at_get_done k) v owed = absurd (omega (arith, v.sets, owed))
      by_place (at_ints k) v owed = absurd (omega (arith, v.sets, owed))
      by_place (at_stop k) v owed = absurd (omega (arith, v.sets, owed))

  -- With at least one round, after a state that the load test reaches and in which a worker's
  -- `NewCli` for an insertion has failed, the main goroutine never gets past the wait for the
  -- insertions, whatever steps follow.
  pub gave_up-Inserting :
      (w : W) (p q : Program W) (n r : ℕ)
      → 0 < rounds
      → Runs out flags (new_program out flags w) p
      → worker_at n p.workers ≡ some (failed_insert r)
      → Runs out flags p q
      → Inserting q.main
  gave_up-Inserting w p q n r some_round before fails after =
      let (counts, still) =
        Runs-keeps out flags (λ u. Counted out flags u × Fails n r u)
          (λ u v t (counts, fails) e. (
            step_program-Counted out flags u v t some_round counts e,
            step_program-Fails u v t n r fails e,
          ))
          p q after (Runs-Counted out flags w p some_round before, fails) in
      stays-Inserting q.main q n r counts still
