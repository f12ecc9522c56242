-- ===== src/Client/Workers/Stored/Reached.antt =====
-- client/main.go: what the load test knows of the server in every state that it reaches.
use mathlib.Core.Path.{subst}
use nodare_db_dev.Prelude.{
  Bool, Option, arith, none, refl, some, suc, ℕ, ◌*◌, ◌+◌, ◌-◌, ◌<◌, ◌≡◌, ◌≢◌, ◌≤◌,
}
use nodare_db_dev.Client.Workers.{
  Channels, Flags, Job, Move, Outside, Program, Spot, Worker, exits, moves, waits,
}
use nodare_db_dev.Client.Workers.Balance.{IfMoves-moves}
use nodare_db_dev.Client.Workers.Counted.{Counted}
use nodare_db_dev.Client.Workers.Counted.Reached.{Runs-Counted, step_program-Counted}
use nodare_db_dev.Client.Workers.Finishes.{measured}
use nodare_db_dev.Client.Workers.Measured.{
  SameServer, main_move-server, measured-new_program, step_program-measure,
}
use nodare_db_dev.Client.Workers.Runs.{
  Runs, Turn, main_turn, most_turns, new_program, no_turn, put_worker, step_program, step_worker,
  then_turn, turns_of, worker_at, worker_turn,
}
use nodare_db_dev.Client.Workers.Stored.{IsUsual, WorkerHolds}
use nodare_db_dev.Client.Workers.Stored.Items.{IfSafe, IfSafe-exits, IfSafe-moves, StepHolds}
use nodare_db_dev.Client.Workers.Stored.Jobs.{All-worker_at}
use nodare_db_dev.Client.Workers.Stored.Main.{Stored, main_move-Stored, step_worker-Stored}
use nodare_db_dev.Client.Workers.Stored.Steps.{worker_step-holds}
use nodare_db_dev.Client.Workers.Summed.{Summed, step_program-Summed}
use nodare_db_dev.Server.Shutdown.Passing.{left}

module _ {W : Type 0} (out : Outside W) (flags : Flags) (usual : IsUsual out flags) where
  open flags use {items, rounds}

  -- A step that is made keeps what is known, and takes the room for one set at most.
  abbrev Next : ℕ → Program W → Type 0
  Next room q = Stored out flags usual q × usual.serves.HasRoom room q.channels.server

  step_at-Stored :
      (p q : Program W) (n room : ℕ) (dialled : Bool) (o : Option Worker)
      → worker_at n p.workers ≡ o
      → Stored out flags usual p
      → usual.serves.HasRoom (suc room) p.channels.server
      → step_worker out flags p n dialled o ≡ moves q
      → Next room q
  step_at-Stored p q n room dialled none found v has_room e = absurd (cc)
  step_at-Stored p q n room dialled (some w) found v has_room e =
      step_worker-Stored out flags usual p q n room w _ found
        (worker_step-holds out flags usual room dialled w.job w.spot p.channels has_room v.maps_hold
          (All-worker_at (λ x. WorkerHolds out flags usual p.channels.server x.job x.spot) p.workers
            n w found v.workers_hold))
        v e

  step_program-Stored :
      (p q : Program W) (t : Turn) (room : ℕ)
      → Counted out flags p
      → Stored out flags usual p
      → usual.serves.HasRoom (suc room) p.channels.server
      → step_program out flags t p ≡ moves q
      → Next room q
  unfolding step_program
  step_program-Stored p q main_turn room counts v has_room e = (
    IfSafe-moves (Stored out flags usual) _ q (main_move-Stored out flags usual p.main p counts v)
        e,
    rw
        (IfMoves-moves (SameServer out flags usual p) _ q
          (main_move-server out flags usual p.main p) e)
        (usual.serves.less_room room p.channels.server has_room),
  )
  step_program-Stored p q (worker_turn n dialled) room counts v has_room e =
      step_at-Stored p q n room dialled (worker_at n p.workers) refl v has_room e

  -- What holds after so many steps: what is known of the server and of the counts, the steps that
  -- are left, and the room for the sets that can come.
  pub record IsReached (turns : ℕ) (p : Program W) : Type 0 where
    pub counted : Counted out flags p
    pub known : Stored out flags usual p
    pub within : turns + measured out flags usual p ≤ most_turns flags
    pub room : ℕ
    pub has_room : usual.serves.HasRoom (suc room) p.channels.server
    pub enough : most_turns flags ≤ room + turns

  step_program-Reached :
      (p q : Program W) (t : Turn) (turns : ℕ)
      → 0 < rounds
      → IsReached turns p
      → step_program out flags t p ≡ moves q
      → IsReached (turns + 1) q
  step_program-Reached p q t turns some_round v e =
      let less = step_program-measure out flags usual p q t v.counted v.known e in
      let more : v.room ≡ suc (v.room - 1) = omega (arith, less, v.within, v.enough) in
      let (known', left) = step_program-Stored p q t v.room v.counted v.known v.has_room e in
      record {
        counted = step_program-Counted out flags p q t some_round v.counted e;
        known = known';
        within = omega (arith, less, v.within);
        room = v.room - 1;
        has_room = subst (λ n. usual.serves.HasRoom n q.channels.server) more left;
        enough = omega (arith, more, v.enough);
      }

  pub Runs-Reached :
      (w : W) (p : Program W)
      → 0 < rounds
      → usual.serves.HasRoom (suc (most_turns flags)) w
      → (run : Runs out flags (new_program out flags w) p) → IsReached (turns_of out flags run) p
  unfolding turns_of
  Runs-Reached w p some_round room no_turn = record {
    counted = Runs-Counted out flags w _ some_round no_turn;
    known =
        unfold new_program in
        record {
          workers_hold = tt;
          maps_hold = tt;
          main_holds = tt;
          started = λ r least most. absurd (omega (arith, least, most));
        };
    within = omega (arith, measured-new_program out flags usual w);
    room = most_turns flags;
    has_room = unfold new_program in room;
    enough = omega arith;
  }
  Runs-Reached w p some_round room (then_turn {q = m} t before e) =
      step_program-Reached m p t _ some_round (Runs-Reached w m some_round room before) e

  pub Runs-Summed :
      (w : W) (p : Program W)
      → 0 < rounds
      → 0 < items * rounds
      → usual.serves.HasRoom (suc (most_turns flags)) w
      → Runs out flags (new_program out flags w) p
      → Summed out flags usual p
  Runs-Summed w p some_round some_item room no_turn = unfold new_program in refl
  Runs-Summed w p some_round some_item room (then_turn {q = m} t before e) =
      step_program-Summed out flags usual m p t some_item
        (Runs-Reached w m some_round room before).known
        (Runs-Summed w m some_round some_item room before) e

  step_at-safe :
      (p : Program W) (n room : ℕ) (dialled : Bool) (o : Option Worker)
      → worker_at n p.workers ≡ o
      → Stored out flags usual p
      → usual.serves.HasRoom (suc room) p.channels.server
      → step_worker out flags p n dialled o ≢ exits
  step_at-safe p n room dialled none found v has_room e = absurd (cc)
  step_at-safe p n room dialled (some w) found v has_room e =
      put_worker-safe p n w.job _
        (worker_step-holds out flags usual room dialled w.job w.spot p.channels has_room v.maps_hold
          (All-worker_at (λ x. WorkerHolds out flags usual p.channels.server x.job x.spot) p.workers
            n w found v.workers_hold))
        e
    where
      put_worker-safe :
          (p : Program W) (n : ℕ) (job : Job) (m : Move (Spot × Channels W))
          → IfSafe (StepHolds out flags usual room p.channels.server job) m
          → put_worker out flags p n job m ≢ exits
      put_worker-safe p n job waits holds e = absurd (cc)
      put_worker-safe p n job exits holds e = holds
      put_worker-safe p n job (moves (s', c')) holds e = absurd (cc)

  pub step_program-safe :
      (w : W) (p : Program W) (t : Turn)
      → 0 < rounds
      → usual.serves.HasRoom (suc (most_turns flags)) w
      → Runs out flags (new_program out flags w) p
      → step_program out flags t p ≢ exits
  unfolding step_program
  step_program-safe w p main_turn some_round room run e =
      let v = Runs-Reached w p some_round room run in
      IfSafe-exits (Stored out flags usual) _
        (main_move-Stored out flags usual p.main p v.counted v.known) e
  step_program-safe w p (worker_turn n dialled) some_round room run e =
      let v = Runs-Reached w p some_round room run in
      step_at-safe p n v.room dialled (worker_at n p.workers) refl v.known v.has_room e
