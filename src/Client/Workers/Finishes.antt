-- ===== src/Client/Workers/Finishes.antt =====
-- client/main.go: a bound of the steps that are left to the load test.
use mathlib.Core.Path.{subst}
use nodare_db_dev.Prelude.{
  Bool, Bool-cases, Bytes, List, Option, Run, [], arith, false, fault, if◌then◌else◌, inl, inr,
  length, ltb, ltb→lt, none, ok, set, some, true, ℕ, ◌*◌, ◌+◌, ◌-◌, ◌<◌, ◌==◌, ◌∷◌, ◌≡◌, ◌≤◌,
}
use nodare_db_dev.Client.Workers.{
  Channels, Flags, Job, MainSpot, Move, Outside, Pairs, Program, Send, Spot, Worker, after_check,
  after_send, after_set, at_check, at_checks, at_dial, at_get_done, at_inserts, at_ints, at_lock,
  at_maps, at_pool, at_return, at_sends, at_set, at_set_done, at_stop, check_step, checking, exits,
  gave_up, inserting, moves, send_get_done, send_int, send_map, send_set_done, set_step, start_spot,
  waits, worker_done, worker_step,
}
use nodare_db_dev.Client.Workers.Balance.{Balanced, IfMoves}
use nodare_db_dev.Client.Workers.Counted.{unchecked}
use nodare_db_dev.Client.Workers.Counts.{is_check, is_int, over, owed_by, owes, sum, sum-set}
use nodare_db_dev.Client.Workers.Runs.{put_worker, worker_at}
use nodare_db_dev.Client.Workers.Stored.{IsUsual}

module _ {W : Type 0} (out : Outside W) (flags : Flags) (usual : IsUsual out flags) where
  open flags use {items, rounds, parallel, randomize}

  -- A bound of the steps that are left to a worker.
  abbrev pub load : Job → ℕ
  load (inserting r) = items
  load (checking ps) = length ps

  abbrev pub weight : Job → Spot → ℕ
  weight job at_lock = 8 + load job
  weight job at_pool = 7 + load job
  weight job at_dial = 6 + load job
  weight job (at_set i m) = 5 + (items - i)
  weight job (at_check rest n) = 5 + length rest
  weight job (at_return sends) = 2 + length sends
  weight job (at_sends sends) = 1 + length sends
  weight job worker_done = 0
  weight job gave_up = 0

  abbrev Lighter : Job → Spot → Spot × Channels W → Type 0
  Lighter job s (s', c') = weight job s' + 1 ≤ weight job s

  insert_sends-Lighter :
      (r i : ℕ) (m m' : Pairs) (c : Channels W) (b : Bool)
      → Lighter
          (inserting r)
          (at_set i m')
          (at_return (if b then send_map m ∷ send_set_done ∷ [] else send_set_done ∷ []), c)
  insert_sends-Lighter r i m m' c true = omega arith
  insert_sends-Lighter r i m m' c false = omega arith

  after_set-Lighter :
      (r i : ℕ) (m m' : Pairs) (c : Channels W) (o : Option W)
      → i < items
      → IfMoves (Lighter (inserting r) (at_set i m)) (after_set out flags i m' c o)
  after_set-Lighter r i m m' c none less = tt
  after_set-Lighter r i m m' c (some w) less = omega (arith, less)

  set_step-Lighter :
      (r i : ℕ) (m : Pairs) (c : Channels W)
      → IfMoves (Lighter (inserting r) (at_set i m)) (set_step out flags r i m c)
  unfolding set_step
  set_step-Lighter r i m c = elim (Bool-cases (ltb i items)) [
    | inl e ↦ rw e (after_set-Lighter r i m _ c _ (ltb→lt i items e))
    | inr e ↦ rw e (insert_sends-Lighter r i m m c randomize)
  ]

  check_sends-Lighter :
      (ps : Pairs) (n : ℕ) (c : Channels W) (b : Bool)
      → Lighter (checking ps) (at_check [] n) (
        at_return (if b then send_int n ∷ send_get_done ∷ [] else send_get_done ∷ send_int n ∷ []),
        c,
      )
  check_sends-Lighter ps n c true = omega arith
  check_sends-Lighter ps n c false = omega arith

  after_check-Lighter :
      (ps rest : Pairs) (p : Bytes × Bytes) (n : ℕ) (c : Channels W) (o : Run W)
      → IfMoves (Lighter (checking ps) (at_check (p ∷ rest) n)) (after_check out flags rest n c o)
  after_check-Lighter ps rest p n c (fault why) = tt
  after_check-Lighter ps rest p n c (ok w) = omega arith

  check_step-Lighter :
      (ps rest : Pairs) (n : ℕ) (c : Channels W)
      → IfMoves (Lighter (checking ps) (at_check rest n)) (check_step out flags rest n c)
  unfolding check_step
  check_step-Lighter ps [] n c = check_sends-Lighter ps n c randomize
  check_step-Lighter ps ((k, v) ∷ rest) n c = after_check-Lighter ps rest (k, v) n c _

  after_send-Lighter :
      (job : Job) (s : Send) (rest : List Send) (o : Option (Channels W))
      → IfMoves (Lighter job (at_sends (s ∷ rest))) (after_send out flags rest o)
  after_send-Lighter job s rest none = tt
  after_send-Lighter job s rest (some c) = omega arith

  start_spot-Lighter :
      (job : Job) (c : Channels W) → Lighter job at_dial (start_spot out flags job, c)
  start_spot-Lighter (inserting r) c = omega arith
  start_spot-Lighter (checking ps) c = omega arith

  pub worker_step-Lighter :
      (dialled : Bool) (job : Job) (s : Spot) (c : Channels W)
      → IfMoves (Lighter job s) (worker_step out flags dialled job s c)
  unfolding worker_step
  worker_step-Lighter dialled job at_lock c = elim (Bool-cases (ltb c.par parallel)) [
    | inl e ↦ rw e (omega arith)
    | inr e ↦ rw e tt
  ]
  worker_step-Lighter dialled job at_pool c = elim (Bool-cases (c.cli == 0)) [
    | inl e ↦ rw e (omega arith)
    | inr e ↦ rw e (omega (arith, start_spot-Lighter job c))
  ]
  worker_step-Lighter true job at_dial c = start_spot-Lighter job c
  worker_step-Lighter false job at_dial c = omega arith
  worker_step-Lighter dialled (inserting r) (at_set i m) c = set_step-Lighter r i m c
  worker_step-Lighter dialled (checking ps) (at_set i m) c = tt
  worker_step-Lighter dialled (checking ps) (at_check rest n) c = check_step-Lighter ps rest n c
  worker_step-Lighter dialled (inserting r) (at_check rest n) c = tt
  worker_step-Lighter dialled job (at_return sends) c = elim (Bool-cases (ltb c.cli parallel)) [
    | inl e ↦ rw e (omega arith)
    | inr e ↦ rw e tt
  ]
  worker_step-Lighter dialled job (at_sends (s ∷ rest)) c = after_send-Lighter job s rest _
  worker_step-Lighter dialled job (at_sends []) c = elim (Bool-cases (c.par == 0)) [
    | inl e ↦ rw e tt
    | inr e ↦ rw e (omega arith)
  ]
  worker_step-Lighter dialled job worker_done c = tt
  worker_step-Lighter dialled job gave_up c = tt

  -- The steps of the main goroutine that are left, with those of the workers that it will start, but
  -- without its receives from `RetIntChan`.
  abbrev pub check_loads : List Pairs → ℕ
  check_loads = sum (λ ps. 9 + length ps)

  abbrev pub main_weight : MainSpot → ℕ
  main_weight (at_inserts k) =
      (rounds - k) * (9 + items) + (rounds * (9 + items) + (3 * rounds + 5))
  main_weight (at_set_done n) = (rounds - n) + (rounds * (9 + items) + (2 * rounds + 4))
  main_weight (at_maps ms) = (rounds - length ms) + (rounds * (9 + items) + (rounds + 3))
  main_weight (at_checks todo) = check_loads todo + (rounds + 2)
  main_weight (at_get_done n) = (rounds - n) + 1
  main_weight (at_ints n) = 0
  main_weight (at_stop n) = 0

  -- The numbers that are still to be received from `RetIntChan`.
  abbrev pub backlog : List Worker → MainSpot → Channels W → ℕ
  backlog ws main c = length c.ints + owed_by is_int is_check ws + unchecked rounds main

  abbrev pub measure : List Worker → MainSpot → Channels W → ℕ
  measure ws main c = sum (over weight) ws + main_weight main + backlog ws main c

  abbrev pub measured : Program W → ℕ
  measured p = measure p.workers p.main p.channels

  pub step_worker-measure :
      (p q : Program W) (n : ℕ) (w : Worker) (m : Move (Spot × Channels W))
      → worker_at n p.workers ≡ some w
      → IfMoves (Lighter w.job w.spot) m
      → IfMoves (Balanced out flags w.job w.spot p.channels) m
      → put_worker out flags p n w.job m ≡ moves q
      → measured q + 1 ≤ measured p
  step_worker-measure p q n w waits found lighter balanced e = absurd (cc)
  step_worker-measure p q n w exits found lighter balanced e = absurd (cc)
  step_worker-measure p q n w (moves (s', c')) found lighter balanced e =
      let after : Program W = record p {
        workers = set p.workers n (record w { spot = s' });
        channels = c';
      } in
      let same : after ≡ q = cc in
      let less : measured after + 1 ≤ measured p = omega (
        arith,
        lighter,
        balanced.results,
        sum-set (over weight) p.workers n w (record w { spot = s' }) found,
        sum-set (over (owes is_int is_check)) p.workers n w (record w { spot = s' }) found,
      ) in
      subst (λ u. measured u + 1 ≤ measured p) same less
