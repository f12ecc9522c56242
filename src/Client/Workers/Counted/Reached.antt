-- ===== src/Client/Workers/Counted/Reached.antt =====
-- client/main.go: the counts of the load test in every state that it reaches.
use nodare_db_dev.Prelude.{Bool, Option, arith, none, refl, some, ℕ, ◌+◌, ◌<◌, ◌≡◌, ◌≤◌}
use nodare_db_dev.Client.Workers.{Flags, Outside, Program, Worker, moves}
use nodare_db_dev.Client.Workers.Balance.{IfMoves-moves, worker_step-Balanced}
use nodare_db_dev.Client.Workers.Counted.{Counted, step_worker-Counted}
use nodare_db_dev.Client.Workers.Counted.Main.{main_move-Counted}
use nodare_db_dev.Client.Workers.Counts.{conns_held, locks_held}
use nodare_db_dev.Client.Workers.Runs.{
  Runs, Runs-keeps, Turn, main_turn, new_program, step_program, step_worker, worker_at, worker_turn,
}

module _ {W : Type 0} (out : Outside W) (flags : Flags) where
  open flags use {rounds, parallel}

  step_at-Counted :
      (p q : Program W) (n : ℕ) (dialled : Bool) (o : Option Worker)
      → worker_at n p.workers ≡ o
      → Counted out flags p
      → step_worker out flags p n dialled o ≡ moves q
      → Counted out flags q
  step_at-Counted p q n dialled none found v e = absurd (cc)
  step_at-Counted p q n dialled (some w) found v e =
      step_worker-Counted out flags p q n dialled w _ found
        (worker_step-Balanced out flags dialled w.job w.spot p.channels) v e

  pub step_program-Counted :
      (p q : Program W) (t : Turn)
      → 0 < rounds
      → Counted out flags p
      → step_program out flags t p ≡ moves q
      → Counted out flags q
  unfolding step_program
  step_program-Counted p q main_turn some_round v e =
      IfMoves-moves (Counted out flags) _ q (main_move-Counted out flags p.main p some_round v) e
  step_program-Counted p q (worker_turn n dialled) some_round v e =
      step_at-Counted p q n dialled (worker_at n p.workers) refl v e

  -- The counts hold in every state that the program reaches.
  pub Runs-Counted :
      (w : W) (p : Program W)
      → 0 < rounds
      → Runs out flags (new_program out flags w) p
      → Counted out flags p
  unfolding new_program
  Runs-Counted w p some_round run =
      Runs-keeps out flags (Counted out flags) (λ p q t. step_program-Counted p q t some_round) _ p
        run
        (record {
          locks = refl;
          lock_room = omega arith;
          conn_room = omega arith;
          sets = omega arith;
          gets = omega arith;
          results = omega arith;
          captures = λ u. omega arith;
          in_main = omega arith;
        })

  -- With at least one round, in every state that the load test reaches: at most `parallel`
  -- workers have a place in `parChan`, and at most `parallel` connections are in `cliChan`, with
  -- a worker, or being made.
  pub Runs-room :
      (w : W) (p : Program W)
      → 0 < rounds
      → Runs out flags (new_program out flags w) p
      → (locks_held p.workers ≤ parallel) × (p.channels.cli + conns_held p.workers ≤ parallel)
  Runs-room w p some_round run =
      let v = Runs-Counted w p some_round run in (omega (arith, v.locks, v.lock_room), v.conn_room)
