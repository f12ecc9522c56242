-- ===== src/Client/Workers/Runs.antt =====
-- client/main.go: the steps of the load test's goroutines in any order.
use nodare_db_dev.Prelude.{
  Bool, List, Option, [], none, set, some, suc, zero, ℕ, ◌*◌, ◌+◌, ◌∷◌, ◌≡◌,
}
use nodare_db_dev.Client.Workers.{
  Channels, Flags, Job, Move, Outside, Program, Spot, Worker, at_inserts, exits, moves, waits,
  worker_step,
}
use nodare_db_dev.Client.Workers.Main.{main_move}

-- The goroutine that takes the next step; of a worker its place in the order of the starts, and
-- whether a call of `NewCli` in the step succeeds.
pub data Turn : Type 0 where
  main_turn : Turn
  worker_turn : ℕ → Bool → Turn

unfoldable pub worker_at : ℕ → List Worker → Option Worker
worker_at n [] = none
worker_at zero (x ∷ xs) = some x
worker_at (suc n) (x ∷ xs) = worker_at n xs

-- A bound of the steps of a run.
abbrev pub most_turns : Flags → ℕ
most_turns flags = 2 * (flags.rounds * (9 + flags.items)) + (4 * flags.rounds + 5)

module _ {W : Type 0} (out : Outside W) (flags : Flags) where
  abbrev pub put_worker : Program W → ℕ → Job → Move (Spot × Channels W) → Move (Program W)
  put_worker p n job waits = waits
  put_worker p n job exits = exits
  put_worker p n job (moves (spot, c)) =
      moves
        (record p { workers = set p.workers n (record { job = job; spot = spot }); channels = c })

  abbrev pub step_worker : Program W → ℕ → Bool → Option Worker → Move (Program W)
  step_worker p n dialled none = waits
  step_worker p n dialled (some w) =
      put_worker p n w.job (worker_step out flags dialled w.job w.spot p.channels)

  unfoldable pub step_program : Turn → Program W → Move (Program W)
  step_program main_turn p = main_move out flags p.main p
  step_program (worker_turn n dialled) p = step_worker p n dialled (worker_at n p.workers)

  -- The program at the start, with a server in the state `w`.
  unfoldable pub new_program : W → Program W
  new_program w = record {
    workers = [];
    main = at_inserts 0;
    channels = record {
      server = w;
      par = 0;
      cli = 0;
      set_done = 0;
      get_done = 0;
      maps = [];
      ints = [];
    };
  }

  -- Some steps of the program, the last step last.
  pub data Runs (p : Program W) : Program W → Type 0 where
    no_turn : Runs p p
    then_turn : {q u : Program W} (t : Turn) → Runs p q → step_program t q ≡ moves u → Runs p u

  -- What holds at the start and is kept by each step holds in every state that is reached.
  pub Runs-keeps :
      (P : Program W → Type 0)
      → ((p q : Program W) (t : Turn) → P p → step_program t p ≡ moves q → P q)
      → (p q : Program W) → Runs p q
      → P p
      → P q
  Runs-keeps P kept p q no_turn start = start
  Runs-keeps P kept p q (then_turn {q = m} t before e) start =
      kept m q t (Runs-keeps P kept p m before start) e

  unfoldable pub turns_of : {p q : Program W} → Runs p q → ℕ
  turns_of no_turn = 0
  turns_of (then_turn t before e) = turns_of before + 1
