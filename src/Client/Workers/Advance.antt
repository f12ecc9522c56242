-- ===== src/Client/Workers/Advance.antt =====
-- client/main.go: the load test does not stop before its end.
use nodare_db_dev.Prelude.{
  All, All-map, Bool-cases, List, [], ap, arith, false, inl, inr, length, ltb, refl, some, suc,
  true, zero, ℕ, ◌*◌, ◌<◌, ◌==◌, ◌∙◌, ◌∷◌, ◌≡◌, ◌≤◌, ◌⊎◌,
}
use nodare_db_dev.Client.Workers.{
  Channels, Flags, Job, MainSpot, Move, Outside, Pairs, Program, Send, Spot, Worker, at_checks,
  at_get_done, at_inserts, at_ints, at_maps, at_set_done, at_stop, moves, worker_step,
}
use nodare_db_dev.Client.Workers.Counted.{Counted, IsCounted}
use nodare_db_dev.Client.Workers.Counts.{
  holds_lock, is_check, is_get_done, is_insert, is_map, is_set_done, locks_held, over, owed_by,
  owes, sum,
}
use nodare_db_dev.Client.Workers.Main.{main_move, take_int, take_map}
use nodare_db_dev.Client.Workers.Ready.{
  Ended, Ended-owes, Failed, Idle, Idle-holds_lock, IsReady, Moves, at_end, can_move, failed_once,
  no_room, ready-Moves, worker-Chance,
}
use nodare_db_dev.Client.Workers.Runs.{
  Runs, Turn, main_turn, most_turns, new_program, put_worker, step_program, step_worker, worker_at,
  worker_turn,
}
use nodare_db_dev.Client.Workers.Stored.{IsUsual, WorkerHolds}
use nodare_db_dev.Client.Workers.Stored.Jobs.{All-worker_at}
use nodare_db_dev.Client.Workers.Stored.Main.{IsStored, Stored, main_move-Stored}
use nodare_db_dev.Client.Workers.Stored.Reached.{Runs-Reached, Runs-Summed}
use nodare_db_dev.Client.Workers.Stored.Steps.{worker_step-holds}
use nodare_db_dev.Client.Workers.Summed.{MainSum}
use nodare_db_dev.Client.Workers.Totals.{int_of, to_check, total, unread}
use nodare_db_dev.Server.Socket.Loops.{stored}

sum-zero :
    (P : Worker → Type 0) (f : Worker → ℕ) (ws : List Worker)
    → ((w : Worker) → P w → f w ≡ 0)
    → All P ws
    → sum f ws ≡ 0
sum-zero P f [] zeros all = refl
sum-zero P f (w ∷ ws) zeros (holds, all) = omega (arith, zeros w holds, sum-zero P f ws zeros all)

one_or_each :
    (P Q : Worker → Type 0) (ws : List Worker)
    → ((n : ℕ) (w : Worker) → worker_at n ws ≡ some w → P w ⊎ Q w)
    → ((n : ℕ) × (w : Worker) × (worker_at n ws ≡ some w) × P w) ⊎ All Q ws
unfolding worker_at
one_or_each P Q [] each = inr tt
one_or_each P Q (x ∷ ws) each = elim (each 0 x refl) [
  | inl holds ↦ inl (0, x, refl, holds)
  | inr rests ↦ elim (one_or_each P Q ws (λ n w e. each (suc n) w e)) [
    | inl (n, w, e, holds) ↦ inl (suc n, w, e, holds)
    | inr all ↦ inr (rests, all)
  ]
]

mul-pos : (a b : ℕ) → 0 < a → 0 < b → 0 < a * b
mul-pos zero b pos pos' = absurd (omega (arith, pos))
mul-pos (suc a) zero pos pos' = absurd (omega (arith, pos'))
mul-pos (suc a) (suc b) pos pos' = omega arith

module _ {W : Type 0} (out : Outside W) (flags : Flags) (usual : IsUsual out flags) where
  open flags use {items, rounds, parallel, randomize}

  -- Some worker need not wait, or all are idle for good.
  abbrev Rests : Channels W → Worker → Type 0
  Rests c x = Idle x.spot × (Ended x.spot ⊎ (parallel ≤ c.par))

  worker-IsReady :
      (p : Program W)
      → Counted out flags p
      → Stored out flags usual p
      → All (λ x. Failed x.spot → ⊥) p.workers
      → ((n : ℕ) × (x : Worker) × (worker_at n p.workers ≡ some x)
          × IsReady (worker_step out flags true x.job x.spot p.channels))
        ⊎ All (Rests p.channels) p.workers
  worker-IsReady p counts stored none_failed =
      one_or_each (λ x. IsReady (worker_step out flags true x.job x.spot p.channels))
        (Rests p.channels) p.workers
        λ n x found.
          let sound = All-worker_at (λ y. Failed y.spot → ⊥) p.workers n x found none_failed in
          let knows =
            All-worker_at (λ y. WorkerHolds out flags usual p.channels.server y.job y.spot)
              p.workers n x found stored.workers_hold in
          elim (worker-Chance out flags usual n x.job x.spot p.workers p.main p.channels found
            counts knows) [
              | failed_once bad ↦ absurd (sound bad)
              | can_move ready ↦ inl ready
              | no_room idle full ↦ inr (idle, inr full)
              | at_end idle fin ↦ inr (idle, inl fin)
            ]

  All-Ended :
      (ws : List Worker) (main : MainSpot) (c : Channels W)
      → 0 < parallel
      → IsCounted out flags ws main c
      → All (Rests c) ws
      → All (λ x. Ended x.spot) ws
  All-Ended ws main c some_room v rests =
      let none_held : locks_held ws ≡ 0 =
        sum-zero (Rests c) (over (λ job s. holds_lock s)) ws
          (λ x rest. Idle-holds_lock x.spot rest.0) rests in
      All-map ws
        (λ x (idle, why). elim why [
          | inl fin ↦ fin
          | inr full ↦ absurd (omega (arith, full, v.locks, none_held, some_room))
        ])
        rests

  -- With every worker at its end, the main goroutine has what it waits for.
  main-Moves :
      (main : MainSpot) (p : Program W)
      → 0 < rounds
      → IsCounted out flags p.workers main p.channels
      → IsStored out flags usual p.workers main p.channels
      → MainSum out flags usual main (unread out flags usual p.workers p.channels)
      → ((f : Send → ℕ) (b : Job → ℕ) → owed_by f b p.workers ≡ 0)
      → (main ≡ at_stop (items * rounds)) ⊎ IsReady (main_move out flags main p)
  unfolding main_move
  main-Moves (at_inserts k) p some_round v stored sums none_owed =
      inr (elim (Bool-cases (ltb k rounds)) [ inl e ↦ rw e tt | inr e ↦ rw e tt ])
  main-Moves (at_set_done n) p some_round v stored sums none_owed =
      let some_done : (p.channels.set_done == 0) ≡ false =
        let owed = none_owed is_set_done is_insert in ground (arith, v.sets, v.in_main, owed) in
      inr (rw some_done tt)
  main-Moves (at_maps ms) p some_round v stored sums none_owed = inr (
      take_map-IsReady ms p p.channels.maps
        (omega (arith, v.captures v.in_main.1, v.in_main.0, none_owed is_map is_insert)))
    where
      take_map-IsReady :
          (ms : List Pairs) (p : Program W) (here : List Pairs)
          → 0 < length here
          → IsReady (take_map out flags ms p here)
      take_map-IsReady ms p [] some_map = absurd (omega (arith, some_map))
      take_map-IsReady ms p (m ∷ rest) some_map = tt
  main-Moves (at_checks []) p some_round v stored sums none_owed = inr tt
  main-Moves (at_checks (ps ∷ rest)) p some_round v stored sums none_owed = inr tt
  main-Moves (at_get_done n) p some_round v stored sums none_owed =
      let some_done : (p.channels.get_done == 0) ≡ false =
        let owed = none_owed is_get_done is_check in ground (arith, v.gets, v.in_main, owed) in
      inr (rw some_done tt)
  main-Moves (at_ints n) p some_round v stored (sums, more) none_owed =
      elim (take_int-IsReady n p p.channels.ints) [
        | inl none_left ↦ absurd (more (omega (arith, sums, none_left, none_owed int_of to_check)))
        | inr ready ↦ inr ready
      ]
    where
      take_int-IsReady :
          (n : ℕ) (p : Program W) (here : List ℕ)
          → (total here ≡ 0) ⊎ IsReady (take_int out flags n p here)
      take_int-IsReady n p [] = inl refl
      take_int-IsReady n p (i ∷ rest) = inr tt
  main-Moves (at_stop n) p some_round v stored sums none_owed = inl (ap at_stop sums)

  put_worker-Moves :
      (p : Program W) (n : ℕ) (job : Job) (m : Move (Spot × Channels W))
      → Moves m
      → Moves (put_worker out flags p n job m)
  put_worker-Moves p n job m (to, e) = rw e (_, refl)

  -- With at least one item, one round and one place for a worker, against a server that keeps a
  -- map of words and has room for as many sets as a run has steps, where no key is used twice and
  -- the random texts are within the server's limit: in every state that the load test reaches in
  -- which no worker's call of `NewCli` has failed, the main goroutine is at its end with every
  -- item of every round counted as checked, or some goroutine can make a step. No order of the
  -- steps leads to a deadlock.
  pub step_program-moves :
      (w : W) (p : Program W)
      → 0 < items
      → 0 < rounds
      → 0 < parallel
      → usual.serves.HasRoom (suc (most_turns flags)) w
      → Runs out flags (new_program out flags w) p
      → All (λ x. Failed x.spot → ⊥) p.workers
      → (p.main ≡ at_stop (items * rounds))
        ⊎ ((t : Turn) × (q : Program W) × (step_program out flags t p ≡ moves q))
  unfolding step_program
  step_program-moves w p some_item some_round some_room room run none_failed =
      let reached = Runs-Reached out flags usual w p some_round room run in
      let counts = reached.counted in
      let stored = reached.known in
      let sums =
        Runs-Summed out flags usual w p some_round (mul-pos items rounds some_item some_round) room
          run in
      elim (worker-IsReady p counts stored none_failed) [
        | inl (n, x, found, ready) ↦
            let safe =
              worker_step-holds out flags usual reached.room true x.job x.spot p.channels
                reached.has_room stored.maps_hold
                (All-worker_at (λ y. WorkerHolds out flags usual p.channels.server y.job y.spot)
                  p.workers n x found stored.workers_hold) in
            let (q, e) =
              put_worker-Moves p n x.job _
                (ready-Moves _ (worker_step out flags true x.job x.spot p.channels) ready safe) in
            inr (worker_turn n true, q, ap (step_worker out flags p n true) found ∙ e)
        | inr rests ↦
            let fin = All-Ended p.workers p.main p.channels some_room counts rests in
            elim (main-Moves p.main p some_round counts stored sums (λ f b.
              sum-zero (λ x. Ended x.spot) (over (owes f b)) p.workers
                (λ x over_now. Ended-owes f b x.job x.spot over_now) fin)) [
                  | inl stop ↦ inl stop
                  | inr ready ↦
                      let (q, e) =
                        ready-Moves (Stored out flags usual) (main_move out flags p.main p) ready
                          (main_move-Stored out flags usual p.main p counts stored) in
                      inr (main_turn, q, e)
                ]
      ]
