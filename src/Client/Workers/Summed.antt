-- ===== src/Client/Workers/Summed.antt =====
-- client/main.go: the sum of the checked items.
use mathlib.Core.Path.{subst}
use nodare_db_dev.Prelude.{
  ==_iff, All, All-snoc, Bool, Bool-cases, List, Option, [], ap, arith, false, if◌then◌else◌, inl,
  inr, length, ltb, none, refl, set, some, suc, sym, true, zero, ℕ, ◌*◌, ◌++◌, ◌+◌, ◌<◌, ◌==◌, ◌∙◌,
  ◌∷◌, ◌≡◌, ◌≢◌,
}
use nodare_db_dev.Client.Workers.{
  Channels, Flags, MainSpot, Move, Outside, Pairs, Program, Spot, Worker, at_checks, at_get_done,
  at_inserts, at_ints, at_maps, at_set_done, at_stop, checking, exits, inserting, moves, waits,
}
use nodare_db_dev.Client.Workers.Balance.{IfMoves, IfMoves-moves}
use nodare_db_dev.Client.Workers.Counts.{over, owes, sum, sum-set, sum-snoc}
use nodare_db_dev.Client.Workers.Main.{
  count_rounds, main_move, new_worker, pairs_from, take_int, take_map,
}
use nodare_db_dev.Client.Workers.Runs.{
  Turn, main_turn, put_worker, step_program, step_worker, worker_at, worker_turn,
}
use nodare_db_dev.Client.Workers.Stored.{IsUsual, MapHolds, WorkerHolds}
use nodare_db_dev.Client.Workers.Stored.Jobs.{All-worker_at}
use nodare_db_dev.Client.Workers.Stored.Main.{IsStored, Stored}
use nodare_db_dev.Client.Workers.Totals.{SumStep, int_of, to_check, total, unread, worker_step-sum}
use nodare_db_dev.Server.Shutdown.Passing.{left}
use nodare_db_dev.Server.Socket.Loops.{stored}

module _ {W : Type 0} (out : Outside W) (flags : Flags) (usual : IsUsual out flags) where
  open flags use {items, rounds, randomize}

  -- The main goroutine's sum, what it has not read, and what the checks that it has not started
  -- will send.
  abbrev pub MainSum : MainSpot → ℕ → Type 0
  MainSum (at_inserts k) left = left ≡ 0
  MainSum (at_set_done n) left = left ≡ 0
  MainSum (at_maps ms) left = left ≡ 0
  MainSum (at_checks todo) left = sum length todo + left ≡ items * rounds
  MainSum (at_get_done n) left = left ≡ items * rounds
  MainSum (at_ints n) left = (n + left ≡ items * rounds) × (n ≢ items * rounds)
  MainSum (at_stop n) left = n ≡ items * rounds

  abbrev pub Summed : Program W → Type 0
  Summed p = MainSum p.main (unread out flags usual p.workers p.channels)

  same_left : (main : MainSpot) (a b : ℕ) → b ≡ a → MainSum main a → MainSum main b
  same_left main a b e = subst (MainSum main) (sym e)

  step_worker-Summed :
      (p q : Program W) (n : ℕ) (w : Worker) (m : Move (Spot × Channels W))
      → worker_at n p.workers ≡ some w
      → IfMoves (SumStep out flags usual w.job w.spot p.channels) m
      → Summed p
      → put_worker out flags p n w.job m ≡ moves q
      → Summed q
  step_worker-Summed p q n w waits found balanced v e = absurd (cc)
  step_worker-Summed p q n w exits found balanced v e = absurd (cc)
  step_worker-Summed p q n w (moves (s', c')) found balanced v e =
      let after : Program W = record p {
        workers = set p.workers n (record w { spot = s' });
        channels = c';
      } in
      let same : after ≡ q = cc in
      subst Summed same (
        same_left p.main (unread out flags usual p.workers p.channels) _
          (omega (
            arith,
            balanced,
            sum-set (over (owes int_of to_check)) p.workers n w (record w { spot = s' }) found,
          ))
          v)

  pub sum-captured :
      (w : W) (ms : List Pairs)
      → All (MapHolds out flags usual w) ms
      → sum length ms ≡ items * length ms
  sum-captured w [] all = omega arith
  sum-captured w (m ∷ ms) ((has, wide), all) =
      omega (arith, wide, sum-captured w ms all, mul-suc items (length ms))
    where
      mul-suc : (a b : ℕ) → a * suc b ≡ a + a * b
      mul-suc a b = omega arith

  length-pairs_from : (n i r : ℕ) → length (pairs_from out flags n i r) ≡ n
  unfolding pairs_from
  length-pairs_from zero i r = refl
  length-pairs_from (suc n) i r = ap suc (length-pairs_from n (i + 1) r)

  pub sum-count_rounds : (n r : ℕ) → sum length (count_rounds out flags n r) ≡ items * n
  unfolding count_rounds
  sum-count_rounds zero r = omega arith
  sum-count_rounds (suc n) r =
      omega (arith, length-pairs_from items 0 r, sum-count_rounds n (r + 1))

  after_inserts-sum :
      (b : Bool) (left : ℕ)
      → left ≡ 0
      → MainSum (if b then at_maps [] else at_checks (count_rounds out flags rounds 1)) left
  after_inserts-sum true left e = e
  after_inserts-sum false left e = omega (arith, e, sum-count_rounds rounds 1)

  pub length-ranged :
      (ps : Pairs) (b : Bool) → length (if b then out.range_of ps else ps) ≡ length ps
  length-ranged ps true = usual.ranges.ranges_length ps
  length-ranged ps false = refl

  main_maps-Summed :
      (ms : List Pairs) (p : Program W) (here : List Pairs)
      → p.channels.maps ≡ here
      → IsStored out flags usual p.workers (at_maps ms) p.channels
      → MainSum (at_maps ms) (unread out flags usual p.workers p.channels)
      → IfMoves Summed (take_map out flags ms p here)
  main_maps-Summed ms p [] e stored v = tt
  main_maps-Summed ms p (m ∷ rest) e stored v =
      let (new, others) =
        subst (All (MapHolds out flags usual p.channels.server)) e stored.maps_hold in
      let more = All-snoc (MapHolds out flags usual p.channels.server) ms m stored.main_holds new in
      elim (Bool-cases (length (ms ++ m ∷ []) == rounds)) [
        | inl l ↦
            let all = (==_iff (length (ms ++ m ∷ [])) rounds).0 l in
            let captured = sum-captured p.channels.server (ms ++ m ∷ []) more in
            let whole : sum length (ms ++ m ∷ []) ≡ items * rounds =
              captured ∙ ap (λ k. items * k) all in
            rw l (omega (arith, v, whole))
        | inr l ↦ rw l v
      ]

  main_ints-Summed :
      (n : ℕ) (p : Program W) (here : List ℕ)
      → p.channels.ints ≡ here
      → MainSum (at_ints n) (unread out flags usual p.workers p.channels)
      → IfMoves Summed (take_int out flags n p here)
  main_ints-Summed n p [] e v = tt
  main_ints-Summed n p (i ∷ rest) e v =
      let split : total p.channels.ints ≡ i + total rest = rw e refl in
      elim (Bool-cases (n + i == items * rounds)) [
        | inl l ↦ let all = (==_iff (n + i) (items * rounds)).0 l in rw l all
        | inr l ↦ rw l (
          omega (arith, v.0, split),
          λ all. let l' = (==_iff (n + i) (items * rounds)).1 all in absurd (cc),
        )
      ]

  main_move-Summed :
      (main : MainSpot) (p : Program W)
      → 0 < items * rounds
      → IsStored out flags usual p.workers main p.channels
      → MainSum main (unread out flags usual p.workers p.channels)
      → IfMoves Summed (main_move out flags main p)
  unfolding main_move
  main_move-Summed (at_inserts k) p some_item stored v = elim (Bool-cases (ltb k rounds)) [
    | inl e ↦ rw e (
        omega (
          arith,
          v,
          sum-snoc (over (owes int_of to_check)) p.workers
              (new_worker out flags (inserting (k + 1))),
        ))
    | inr e ↦ rw e v
  ]
  main_move-Summed (at_set_done n) p some_item stored v =
      elim (Bool-cases (p.channels.set_done == 0)) [
        | inl e ↦ rw e tt
        | inr e ↦ rw e (elim (Bool-cases (n + 1 == rounds)) [
          | inl l ↦ rw l (after_inserts-sum randomize _ v)
          | inr l ↦ rw l v
        ])
      ]
  main_move-Summed (at_maps ms) p some_item stored v =
      main_maps-Summed ms p p.channels.maps refl stored v
  main_move-Summed (at_checks []) p some_item stored v = omega (arith, v)
  main_move-Summed (at_checks (ps ∷ rest)) p some_item stored v = omega (
    arith,
    v,
    length-ranged ps randomize,
    sum-snoc (over (owes int_of to_check)) p.workers
        (new_worker out flags (checking (if randomize then out.range_of ps else ps))),
  )
  main_move-Summed (at_get_done n) p some_item stored v =
      elim (Bool-cases (p.channels.get_done == 0)) [
        | inl e ↦ rw e tt
        | inr e ↦ rw e (elim (Bool-cases (n + 1 == rounds)) [
          | inl l ↦ rw l (omega (arith, v), λ e. absurd (omega (arith, some_item, e)))
          | inr l ↦ rw l v
        ])
      ]
  main_move-Summed (at_ints n) p some_item stored v = main_ints-Summed n p p.channels.ints refl v
  main_move-Summed (at_stop n) p some_item stored v = tt

  step_at-Summed :
      (p q : Program W) (n : ℕ) (dialled : Bool) (o : Option Worker)
      → worker_at n p.workers ≡ o
      → Stored out flags usual p
      → Summed p
      → step_worker out flags p n dialled o ≡ moves q
      → Summed q
  step_at-Summed p q n dialled none found stored v e = absurd (cc)
  step_at-Summed p q n dialled (some w) found stored v e =
      step_worker-Summed p q n w _ found
        (worker_step-sum out flags usual dialled w.job w.spot p.channels (
          All-worker_at (λ x. WorkerHolds out flags usual p.channels.server x.job x.spot) p.workers
            n w found stored.workers_hold))
        v e

  pub step_program-Summed :
      (p q : Program W) (t : Turn)
      → 0 < items * rounds
      → Stored out flags usual p
      → Summed p
      → step_program out flags t p ≡ moves q
      → Summed q
  unfolding step_program
  step_program-Summed p q main_turn some_item stored v e =
      IfMoves-moves Summed _ q (main_move-Summed p.main p some_item stored v) e
  step_program-Summed p q (worker_turn n dialled) some_item stored v e =
      step_at-Summed p q n dialled (worker_at n p.workers) refl stored v e
