-- ===== src/Tests/Load.antt =====
-- Runs of the load test of client/main.go at concrete flags.
use nodare_db_dev.Prelude.{
  [], arith, false, if◌then◌else◌, length, ltb, refl, suc, true, ◌%◌, ◌*◌, ◌+◌, ◌-◌, ◌∷◌, ◌≡◌, ◌≤◌,
  ◌⊎◌,
}
use nodare_db_dev.Client.LoadTest.{Calls}
use nodare_db_dev.Client.LoadTest.Checked.{IsMapServer}
use nodare_db_dev.Client.LoadTest.Random.{dev_urandom_string, length-dev_urandom_string}
use nodare_db_dev.Client.LoadTest.Serves.{http_calls, http_calls-IsMapServer}
use nodare_db_dev.Client.Workers.{
  Flags, Move, Outside, Program, at_stop, exits, moves, waits, worker_step,
}
use nodare_db_dev.Client.Workers.Advance.{step_program-moves}
use nodare_db_dev.Client.Workers.Bounded.{turns_of-bounded}
use nodare_db_dev.Client.Workers.Counted.Reached.{Runs-room}
use nodare_db_dev.Client.Workers.Counting.{count_test-Distinct}
use nodare_db_dev.Client.Workers.Counts.{conns_held, locks_held}
use nodare_db_dev.Client.Workers.Main.{main_move}
use nodare_db_dev.Client.Workers.Runs.{
  Runs, Turn, main_turn, most_turns, new_program, no_turn, step_program, then_turn, turns_of,
  worker_at, worker_turn,
}
use nodare_db_dev.Client.Workers.Stored.{Distinct, IsUsual}
use nodare_db_dev.Client.Workers.Stuck.{Inserting, gave_up-Inserting}
use nodare_db_dev.Database.Dick.{XDatabase}
use nodare_db_dev.Tests.{busy_dick-Models, busy_map, code}
use nodare_db_dev.Tests.Serve.{busy_db}
use nodare_db_dev.Tests.Web.{
  after_h, decode_one, decode_one-IsDecoder, lost, match_three, match_three-IsRouter,
}

-- The calls by HTTP, through the router and the handlers, to a database with one entry.
abbrev over_http : Calls XDatabase
over_http = http_calls code code match_three lost decode_one after_h (104 ∷ [])

abbrev over_http-IsMapServer : IsMapServer over_http
over_http-IsMapServer =
    http_calls-IsMapServer code code match_three lost decode_one after_h (104 ∷ [])
      match_three-IsRouter decode_one-IsDecoder (λ path plain. refl)

abbrev outside : Outside XDatabase
outside = record {
  calls = over_http;
  key_bytes = λ r i k. r + i + k;
  val_bytes = λ r i k. r * i + k;
  range_of = λ m. m;
}

-- Two rounds of two items, one after the other, with keys that count up from 1.
abbrev small_flags : Flags
small_flags = record {
  items = 2;
  rounds = 2;
  parallel = 1;
  startint = 1;
  randomize = false;
  keylen = 16;
  vallen = 16;
}

small-Distinct : Distinct outside small_flags
small-Distinct = count_test-Distinct outside small_flags refl (omega arith) (omega arith)

abbrev small-IsUsual : IsUsual outside small_flags
small-IsUsual = record {
  serves = over_http-IsMapServer;
  ranges = record { ranges_all = λ P m all. all; ranges_length = λ m. refl };
  distinct = small-Distinct;
  bytes_in = λ random r i k. absurd (cc);
  fits = λ random. absurd (cc);
}

busy-has_room : small-IsUsual.serves.HasRoom (suc (most_turns small_flags)) busy_db
busy-has_room = (1, busy_map, busy_dick-Models, omega arith)

abbrev at_start : Program XDatabase
at_start = new_program outside small_flags busy_db

abbrev or_same {ℓ} : {A : Type ℓ} → A → Move A → A
or_same a waits = a
or_same a exits = a
or_same a (moves b) = b

abbrev next : Turn → Program XDatabase → Program XDatabase
next t p = or_same p (step_program outside small_flags t p)

-- The first worker is started, gets its place, finds no connection, and has one or has not.
abbrev in_dial : Program XDatabase
in_dial = next (worker_turn 0 true) (next (worker_turn 0 true) (next main_turn at_start))

in_dial-Runs : Runs outside small_flags at_start in_dial
unfolding step_program main_move worker_step worker_at new_program
in_dial-Runs =
    then_turn (worker_turn 0 true)
      (then_turn (worker_turn 0 true) (then_turn main_turn no_turn refl) refl) refl

in_loop-Runs : Runs outside small_flags at_start (next (worker_turn 0 true) in_dial)
unfolding step_program main_move worker_step worker_at new_program
in_loop-Runs = then_turn (worker_turn 0 true) in_dial-Runs refl

dial_failed-Runs : Runs outside small_flags at_start (next (worker_turn 0 false) in_dial)
unfolding step_program main_move worker_step worker_at new_program
dial_failed-Runs = then_turn (worker_turn 0 false) in_dial-Runs refl

step_program-moves_example :
    ((next (worker_turn 0 true) in_dial).main ≡ at_stop (2 * 2))
    ⊎ ((t : Turn) × (q : Program XDatabase) × (step_program outside small_flags t
            (next (worker_turn 0 true) in_dial)
          ≡ moves q))
unfolding step_program main_move worker_step worker_at new_program
step_program-moves_example =
    step_program-moves outside small_flags small-IsUsual busy_db _ (omega arith) (omega arith)
      (omega arith) busy-has_room in_loop-Runs (λ bad. bad, tt)

turns_of-bounded_example :
    turns_of outside small_flags in_loop-Runs ≤ 2 * (2 * (9 + 2)) + (4 * 2 + 5)
turns_of-bounded_example =
    turns_of-bounded outside small_flags small-IsUsual busy_db _ in_loop-Runs (omega arith)
      busy-has_room

Runs-room_example :
    (locks_held (next (worker_turn 0 true) in_dial).workers ≤ 1)
    × ((next (worker_turn 0 true) in_dial).channels.cli
          + conns_held (next (worker_turn 0 true) in_dial).workers
        ≤ 1)
Runs-room_example = Runs-room outside small_flags busy_db _ (omega arith) in_loop-Runs

gave_up-Inserting_example : Inserting (next main_turn (next (worker_turn 0 false) in_dial)).main
unfolding step_program main_move worker_step worker_at new_program
gave_up-Inserting_example =
    gave_up-Inserting outside small_flags busy_db _ _ 0 1 (omega arith) dial_failed-Runs refl
      (then_turn main_turn no_turn refl)

length-dev_urandom_string_example :
    length (dev_urandom_string 15 (λ k. 16 * k + 5)) ≡ (if ltb 15 2 then 2 else 15 - 15 % 2)
length-dev_urandom_string_example = length-dev_urandom_string 15 (λ k. 16 * k + 5)
