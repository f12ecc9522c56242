-- ===== src/Client/Workers/Ready.antt =====
-- client/main.go: which workers of the load test have to wait.
use nodare_db_dev.Prelude.{
  Bool-cases, List, Option, Run, [], arith, false, fault, inl, inr, length, ltb, lt→ltb, none, ok,
  refl, some, true, ℕ, ◌+◌, ◌==◌, ◌∷◌, ◌≡◌, ◌≤◌,
}
use nodare_db_dev.Client.Workers.{
  Channels, Flags, Job, MainSpot, Move, Outside, Pairs, Send, Spot, Worker, after_check, after_send,
  after_set, at_check, at_dial, at_lock, at_pool, at_return, at_sends, at_set, check_step, checking,
  exits, gave_up, inserting, moves, put_send, send_get_done, send_int, send_map, send_set_done,
  set_step, waits, worker_done, worker_step,
}
use nodare_db_dev.Client.Workers.Counted.{IsCounted}
use nodare_db_dev.Client.Workers.Counts.{
  holds_conn, holds_lock, is_check, is_get_done, is_insert, is_int, is_map, is_set_done, over,
  owed_by, owes, sum, sum-at,
}
use nodare_db_dev.Client.Workers.Runs.{worker_at}
use nodare_db_dev.Client.Workers.Stored.{IsUsual, SendHolds, WorkerHolds}
use nodare_db_dev.Client.Workers.Stored.Items.{IfSafe}
use nodare_db_dev.Client.Workers.Stored.Steps.{sends-rest}

-- A step that does not have to wait.
abbrev pub IsReady {ℓ} : {A : Type ℓ} → Move A → Type 0
IsReady waits = ⊥
IsReady exits = Unit
IsReady (moves a) = Unit

abbrev pub Moves {ℓ} : {A : Type ℓ} → Move A → Type ℓ
Moves {A} m = (a : A) × (m ≡ moves a)

pub ready-Moves {ℓ} : {A : Type ℓ} (P : A → Type 0) (m : Move A) → IsReady m → IfSafe P m → Moves m
ready-Moves P waits ready safe = absurd ready
ready-Moves P exits ready safe = absurd safe
ready-Moves P (moves a) ready safe = (a, refl)

-- A worker that waits for its turn in `parChan`, or is at its end.
abbrev pub Idle : Spot → Type 0
Idle at_lock = Unit
Idle worker_done = Unit
Idle at_pool = ⊥
Idle at_dial = ⊥
Idle (at_set i m) = ⊥
Idle (at_check rest n) = ⊥
Idle (at_return sends) = ⊥
Idle (at_sends sends) = ⊥
Idle gave_up = ⊥

abbrev pub Ended : Spot → Type 0
Ended at_lock = ⊥
Ended worker_done = Unit
Ended at_pool = ⊥
Ended at_dial = ⊥
Ended (at_set i m) = ⊥
Ended (at_check rest n) = ⊥
Ended (at_return sends) = ⊥
Ended (at_sends sends) = ⊥
Ended gave_up = ⊥

abbrev pub Failed : Spot → Type 0
Failed gave_up = Unit
Failed at_lock = ⊥
Failed worker_done = ⊥
Failed at_pool = ⊥
Failed at_dial = ⊥
Failed (at_set i m) = ⊥
Failed (at_check rest n) = ⊥
Failed (at_return sends) = ⊥
Failed (at_sends sends) = ⊥

pub Idle-holds_lock : (s : Spot) → Idle s → holds_lock s ≡ 0
Idle-holds_lock at_lock idle = refl
Idle-holds_lock worker_done idle = refl
Idle-holds_lock at_pool idle = absurd idle
Idle-holds_lock at_dial idle = absurd idle
Idle-holds_lock (at_set i m) idle = absurd idle
Idle-holds_lock (at_check rest n) idle = absurd idle
Idle-holds_lock (at_return sends) idle = absurd idle
Idle-holds_lock (at_sends sends) idle = absurd idle
Idle-holds_lock gave_up idle = absurd idle

pub Ended-owes : (f : Send → ℕ) (b : Job → ℕ) (job : Job) (s : Spot) → Ended s → owes f b job s ≡ 0
Ended-owes f b job worker_done fin = refl
Ended-owes f b job at_lock fin = absurd fin
Ended-owes f b job at_pool fin = absurd fin
Ended-owes f b job at_dial fin = absurd fin
Ended-owes f b job (at_set i m) fin = absurd fin
Ended-owes f b job (at_check rest n) fin = absurd fin
Ended-owes f b job (at_return sends) fin = absurd fin
Ended-owes f b job (at_sends sends) fin = absurd fin
Ended-owes f b job gave_up fin = absurd fin

module _ {W : Type 0} (out : Outside W) (flags : Flags) (usual : IsUsual out flags) where
  open flags use {items, rounds, parallel, randomize}

  set_step-IsReady : (r i : ℕ) (m : Pairs) (c : Channels W) → IsReady (set_step out flags r i m c)
  unfolding set_step
  set_step-IsReady r i m c = elim (Bool-cases (ltb i items)) [
    | inl e ↦ rw e (after_set-IsReady i _ c _)
    | inr e ↦ rw e tt
  ]
    where
      after_set-IsReady :
          (i : ℕ) (m : Pairs) (c : Channels W) (o : Option W)
          → IsReady (after_set out flags i m c o)
      after_set-IsReady i m c none = tt
      after_set-IsReady i m c (some w) = tt

  check_step-IsReady :
      (rest : Pairs) (n : ℕ) (c : Channels W) → IsReady (check_step out flags rest n c)
  unfolding check_step
  check_step-IsReady [] n c = tt
  check_step-IsReady ((k, v) ∷ rest) n c = after_check-IsReady rest n c _
    where
      after_check-IsReady :
          (rest : Pairs) (n : ℕ) (c : Channels W) (o : Run W)
          → IsReady (after_check out flags rest n c o)
      after_check-IsReady rest n c (fault why) = tt
      after_check-IsReady rest n c (ok w) = tt

  -- Each channel has room for what its sender still owes.
  put_send-IsReady :
      (w : W) (job : Job) (s : Send) (rest : List Send) (c : Channels W) (ws : List Worker)
      (main : MainSpot)
      → IsCounted out flags ws main c
      → SendHolds out flags usual w s
      → ((f : Send → ℕ) (b : Job → ℕ) → f s + sum f rest ≤ owed_by f b ws)
      → IsReady (after_send out flags rest (put_send out flags s c))
  unfolding put_send
  put_send-IsReady w job (send_map m) rest c ws main v holds owed =
      let room : ltb (length c.maps) rounds ≡ true =
        lt→ltb (length c.maps) rounds (omega (arith, v.captures holds.0, owed is_map is_insert)) in
      rw room tt
  put_send-IsReady w job send_set_done rest c ws main v holds owed =
      let room : ltb c.set_done rounds ≡ true =
        lt→ltb c.set_done rounds (omega (arith, v.sets, owed is_set_done is_insert)) in
      rw room tt
  put_send-IsReady w job send_get_done rest c ws main v holds owed =
      let room : ltb c.get_done rounds ≡ true =
        lt→ltb c.get_done rounds (omega (arith, v.gets, owed is_get_done is_check)) in
      rw room tt
  put_send-IsReady w job (send_int n) rest c ws main v holds owed =
      let room : ltb (length c.ints) rounds ≡ true =
        lt→ltb (length c.ints) rounds (omega (arith, v.results, owed is_int is_check)) in
      rw room tt

  -- A worker whose call of `NewCli` failed, one that need not wait, one that waits for room in
  -- `parChan`, and one at its end.
  pub data Chance (job : Job) (s : Spot) (c : Channels W) : Type 0 where
    failed_once : Failed s → Chance job s c
    can_move : IsReady (worker_step out flags true job s c) → Chance job s c
    no_room : Idle s → parallel ≤ c.par → Chance job s c
    at_end : Idle s → Ended s → Chance job s c

  pub worker-Chance :
      (n : ℕ) (job : Job) (s : Spot) (ws : List Worker) (main : MainSpot) (c : Channels W)
      → worker_at n ws ≡ some (record { job = job; spot = s })
      → IsCounted out flags ws main c
      → WorkerHolds out flags usual c.server job s
      → Chance job s c
  unfolding worker_step
  worker-Chance n job at_lock ws main c found v knows = elim (Bool-cases (ltb c.par parallel)) [
    | inl e ↦ can_move (rw e tt)
    | inr e ↦ no_room tt (ground (arith, e))
  ]
  worker-Chance n job at_pool ws main c found v knows = elim (Bool-cases (c.cli == 0)) [
    | inl e ↦ can_move (rw e tt)
    | inr e ↦ can_move (rw e tt)
  ]
  worker-Chance n job at_dial ws main c found v knows = can_move tt
  worker-Chance n (inserting r) (at_set i m) ws main c found v knows =
      can_move (set_step-IsReady r i m c)
  worker-Chance n (checking ps) (at_set i m) ws main c found v knows = absurd knows
  worker-Chance n (inserting r) (at_check rest k) ws main c found v knows = absurd knows
  worker-Chance n (checking ps) (at_check rest k) ws main c found v knows =
      can_move (check_step-IsReady rest k c)
  worker-Chance n job (at_return sends) ws main c found v knows =
      let room : ltb c.cli parallel ≡ true = lt→ltb c.cli parallel (
        omega (
          arith,
          v.conn_room,
          sum-at (over (λ job s. holds_conn s)) ws n (record { job = job; spot = at_return sends })
              found,
        )) in
      can_move (rw room tt)
  worker-Chance n job (at_sends (s ∷ rest)) ws main c found v knows = can_move (
      put_send-IsReady c.server job s rest c ws main v
        (sends-rest out flags usual c.server job s rest knows).0
        (λ f b.
          sum-at (over (owes f b)) ws n (record { job = job; spot = at_sends (s ∷ rest) }) found))
  worker-Chance n job (at_sends []) ws main c found v knows =
      let locked : (c.par == 0) ≡ false =
        let held =
          sum-at (over (λ job s. holds_lock s)) ws n (record { job = job; spot = at_sends [] })
            found in
        ground (arith, held, v.locks) in
      can_move (rw locked tt)
  worker-Chance n job worker_done ws main c found v knows = at_end tt tt
  worker-Chance n job gave_up ws main c found v knows = failed_once tt
