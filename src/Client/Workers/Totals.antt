-- ===== src/Client/Workers/Totals.antt =====
-- client/main.go: the numbers of checked items, as a worker counts and sends them.
use nodare_db_dev.Prelude.{
  Bool, Bool-cases, List, Option, Run, [], arith, false, fault, if◌then◌else◌, inl, inr, length,
  ltb, none, ok, refl, some, true, ℕ, ◌+◌, ◌-◌, ◌==◌, ◌∷◌, ◌≡◌,
}
use nodare_db_dev.Client.Workers.{
  Channels, Flags, Job, Outside, Pairs, Send, Spot, Worker, after_check, after_send, after_set,
  at_check, at_dial, at_lock, at_pool, at_return, at_sends, at_set, check_step, checking, gave_up,
  inserting, put_send, send_get_done, send_int, send_map, send_set_done, set_step, start_spot,
  worker_done, worker_step,
}
use nodare_db_dev.Client.Workers.Balance.{IfMoves}
use nodare_db_dev.Client.Workers.Counts.{owed_by, owes, sum, sum-snoc}
use nodare_db_dev.Client.Workers.Stored.{IsUsual, WorkerHolds}

abbrev pub int_of : Send → ℕ
int_of (send_map m) = 0
int_of send_set_done = 0
int_of send_get_done = 0
int_of (send_int n) = n

abbrev pub to_check : Job → ℕ
to_check (inserting r) = 0
to_check (checking ps) = length ps

abbrev pub total : List ℕ → ℕ
total = sum (λ n. n)

module _ {W : Type 0} (out : Outside W) (flags : Flags) (usual : IsUsual out flags) where
  open flags use {items, rounds, randomize}

  -- What is in the channel and what the workers are still to send.
  abbrev pub unread : List Worker → Channels W → ℕ
  unread ws c = total c.ints + owed_by int_of to_check ws

  abbrev pub SumStep : Job → Spot → Channels W → Spot × Channels W → Type 0
  SumStep job s c (s', c') =
      total c'.ints + owes int_of to_check job s' ≡ total c.ints + owes int_of to_check job s

  insert_sends-sum :
      (r i : ℕ) (m : Pairs) (c : Channels W) (b : Bool)
      → SumStep
          (inserting r)
          (at_set i m)
          c
          (at_return (if b then send_map m ∷ send_set_done ∷ [] else send_set_done ∷ []), c)
  insert_sends-sum r i m c true = refl
  insert_sends-sum r i m c false = refl

  after_set-sum :
      (r i : ℕ) (m m' : Pairs) (c : Channels W) (o : Option W)
      → IfMoves (SumStep (inserting r) (at_set i m) c) (after_set out flags i m' c o)
  after_set-sum r i m m' c none = tt
  after_set-sum r i m m' c (some w) = refl

  set_step-sum :
      (r i : ℕ) (m : Pairs) (c : Channels W)
      → IfMoves (SumStep (inserting r) (at_set i m) c) (set_step out flags r i m c)
  unfolding set_step
  set_step-sum r i m c = elim (Bool-cases (ltb i items)) [
    | inl e ↦ rw e (after_set-sum r i m _ c _)
    | inr e ↦ rw e (insert_sends-sum r i m c randomize)
  ]

  check_sends-sum :
      (ps : Pairs) (n : ℕ) (c : Channels W) (b : Bool)
      → n ≡ length ps
      → SumStep (checking ps) (at_check [] n) c (
        at_return (if b then send_int n ∷ send_get_done ∷ [] else send_get_done ∷ send_int n ∷ []),
        c,
      )
  check_sends-sum ps n c true e = omega (arith, e)
  check_sends-sum ps n c false e = omega (arith, e)

  after_check-sum :
      (ps rest rest' : Pairs) (n : ℕ) (c : Channels W) (o : Run W)
      → IfMoves (SumStep (checking ps) (at_check rest n) c) (after_check out flags rest' n c o)
  after_check-sum ps rest rest' n c (fault why) = tt
  after_check-sum ps rest rest' n c (ok w) = refl

  check_step-sum :
      (ps rest : Pairs) (n : ℕ) (c : Channels W)
      → n + length rest ≡ length ps
      → IfMoves (SumStep (checking ps) (at_check rest n) c) (check_step out flags rest n c)
  unfolding check_step
  check_step-sum ps [] n c e = check_sends-sum ps n c randomize (omega (arith, e))
  check_step-sum ps ((k, v) ∷ rest) n c e = after_check-sum ps ((k, v) ∷ rest) rest n c _

  put_send-sum :
      (job : Job) (s : Send) (rest : List Send) (c : Channels W)
      → IfMoves
          (SumStep job (at_sends (s ∷ rest)) c)
          (after_send out flags rest (put_send out flags s c))
  unfolding put_send
  put_send-sum job (send_map m) rest c = elim (Bool-cases (ltb (length c.maps) rounds)) [
    | inl e ↦ rw e (omega arith)
    | inr e ↦ rw e tt
  ]
  put_send-sum job send_set_done rest c = elim (Bool-cases (ltb c.set_done rounds)) [
    | inl e ↦ rw e (omega arith)
    | inr e ↦ rw e tt
  ]
  put_send-sum job send_get_done rest c = elim (Bool-cases (ltb c.get_done rounds)) [
    | inl e ↦ rw e (omega arith)
    | inr e ↦ rw e tt
  ]
  put_send-sum job (send_int n) rest c = elim (Bool-cases (ltb (length c.ints) rounds)) [
    | inl e ↦ rw e (omega (arith, sum-snoc (λ k. k) c.ints n))
    | inr e ↦ rw e tt
  ]

  start_spot-sum :
      (job : Job) (s : Spot) (c : Channels W) (n : ℕ)
      → owes int_of to_check job s ≡ to_check job
      → SumStep job s c (start_spot out flags job, record c { cli = n })
  start_spot-sum (inserting r) s c n e = omega (arith, e)
  start_spot-sum (checking ps) s c n e = omega (arith, e)

  pub worker_step-sum :
      (dialled : Bool) (job : Job) (s : Spot) (c : Channels W)
      → WorkerHolds out flags usual c.server job s
      → IfMoves (SumStep job s c) (worker_step out flags dialled job s c)
  unfolding worker_step
  worker_step-sum dialled job at_lock c knows = elim (Bool-cases (ltb c.par flags.parallel)) [
    | inl e ↦ rw e refl
    | inr e ↦ rw e tt
  ]
  worker_step-sum dialled job at_pool c knows = elim (Bool-cases (c.cli == 0)) [
    | inl e ↦ rw e refl
    | inr e ↦ rw e (start_spot-sum job at_pool c (c.cli - 1) refl)
  ]
  worker_step-sum true job at_dial c knows = start_spot-sum job at_dial c c.cli refl
  worker_step-sum false job at_dial c knows = refl
  worker_step-sum dialled (inserting r) (at_set i m) c knows = set_step-sum r i m c
  worker_step-sum dialled (checking ps) (at_set i m) c knows = tt
  worker_step-sum dialled (checking ps) (at_check rest n) c knows =
      check_step-sum ps rest n c knows.1
  worker_step-sum dialled (inserting r) (at_check rest n) c knows = tt
  worker_step-sum dialled job (at_return sends) c knows =
      elim (Bool-cases (ltb c.cli flags.parallel)) [ inl e ↦ rw e refl | inr e ↦ rw e tt ]
  worker_step-sum dialled job (at_sends (s ∷ rest)) c knows = put_send-sum job s rest c
  worker_step-sum dialled job (at_sends []) c knows = elim (Bool-cases (c.par == 0)) [
    | inl e ↦ rw e tt
    | inr e ↦ rw e refl
  ]
  worker_step-sum dialled job worker_done c knows = tt
  worker_step-sum dialled job gave_up c knows = tt
