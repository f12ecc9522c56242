-- ===== src/Client/Workers/Bounded.antt =====
-- client/main.go: every run of the load test ends.
use nodare_db_dev.Prelude.{arith, suc, ◌*◌, ◌+◌, ◌<◌, ◌≤◌}
use nodare_db_dev.Client.Workers.{Flags, Outside, Program}
use nodare_db_dev.Client.Workers.Runs.{Runs, most_turns, new_program, turns_of}
use nodare_db_dev.Client.Workers.Stored.{IsUsual}
use nodare_db_dev.Client.Workers.Stored.Reached.{Runs-Reached}

module _ {W : Type 0} (out : Outside W) (flags : Flags) (usual : IsUsual out flags) where
  open flags use {items, rounds}

  -- With at least one round, against a server that keeps a map of words and has room for so many
  -- sets, where no key is used twice and the random texts are within the server's limit: every
  -- run of the load test, whatever the order of its steps, has at most this number of steps.
  pub turns_of-bounded :
      (w : W) (p : Program W) (run : Runs out flags (new_program out flags w) p)
      → 0 < rounds
      → usual.serves.HasRoom (suc (most_turns flags)) w
      → turns_of out flags run ≤ 2 * (rounds * (9 + items)) + (4 * rounds + 5)
  turns_of-bounded w p run some_round room =
      let v = Runs-Reached out flags usual w p some_round room run in omega (arith, v.within)
