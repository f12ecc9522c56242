-- ===== src/Tests/Locks.antt =====
-- Two goroutines on the dictionary of the parent, in turn.
use nodare_db_dev.Prelude.{List, Returns, [], arith, length, ◌+◌, ◌∷◌}
use nodare_db_dev.Database.Entry.{str}
use nodare_db_dev.Database.Locks.{Act, call, go_on, new_system, run_acts}
use nodare_db_dev.Database.Locks.Linear.{run_acts-linear}
use nodare_db_dev.Database.Locks.Owners.{Answers, map_after}
use nodare_db_dev.Database.Refines.{Models, get_key, set_key}
use nodare_db_dev.Database.Sub.Move.{pure_hash}
use nodare_db_dev.Tests.{busy_dick, busy_dick-Models, busy_map, code, key_a, key_b, text_x}

abbrev turns : List Act
turns =
    call 0 (set_key key_b (str text_x))
    ∷ call 1 (get_key key_b)
    ∷ call 1 (get_key key_a)
    ∷ go_on 1
    ∷ go_on 0
    ∷ go_on 0
    ∷ go_on 1
    ∷ go_on 0
    ∷ []

run_acts-linear_example : Returns (run_acts (pure_hash code) code turns (new_system busy_dick)) λ w.
    Answers busy_map w.log × Models code code (1 + length w.log) (map_after busy_map w.log) w.dick
run_acts-linear_example =
    run_acts-linear code code {n = 1} busy_map busy_dick turns busy_dick-Models (omega arith)
