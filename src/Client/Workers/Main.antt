-- ===== src/Client/Workers/Main.antt =====
-- client/main.go: the main goroutine of the load test, which starts the workers and waits for them.
use nodare_db_dev.Prelude.{
  List, [], if◌then◌else◌, length, ltb, suc, zero, ℕ, ◌*◌, ◌++◌, ◌+◌, ◌-◌, ◌==◌, ◌∷◌,
}
use nodare_db_dev.Client.Workers.{
  Flags, Job, MainSpot, Move, Outside, Pairs, Program, Worker, at_checks, at_get_done, at_inserts,
  at_ints, at_lock, at_maps, at_set_done, at_stop, checking, inserting, moves, pair_of, waits,
}

module _ {W : Type 0} (out : Outside W) (flags : Flags) where
  open flags use {items, rounds, randomize}

  -- The pairs that the check of the round `r` makes, from the item `i` on.
  unfoldable pub pairs_from : ℕ → ℕ → ℕ → Pairs
  pairs_from zero i r = []
  pairs_from (suc n) i r = pair_of out flags r i ∷ pairs_from n (i + 1) r

  unfoldable pub count_rounds : ℕ → ℕ → List Pairs
  count_rounds zero r = []
  count_rounds (suc n) r = pairs_from items 0 r ∷ count_rounds n (r + 1)

  abbrev pub after_inserts : MainSpot
  after_inserts = if randomize then at_maps [] else at_checks (count_rounds rounds 1)

  abbrev pub new_worker : Job → Worker
  new_worker job = record { job = job; spot = at_lock }

  -- The receives from `MapRetChan` and `RetIntChan`, by what is in the channel.
  abbrev pub take_map : List Pairs → Program W → List Pairs → Move (Program W)
  take_map captured p [] = waits
  take_map captured p (testmap ∷ rest) =
      let more = captured ++ testmap ∷ [] in
      moves (record p {
        main = if length more == rounds then at_checks more else at_maps more;
        channels = record p.channels { maps = rest };
      })

  abbrev pub take_int : ℕ → Program W → List ℕ → Move (Program W)
  take_int checked p [] = waits
  take_int checked p (aint ∷ rest) = moves (record p {
    main =
        if checked + aint == items * rounds
        then at_stop (checked + aint)
        else at_ints (checked + aint);
    channels = record p.channels { ints = rest };
  })

  -- The loop that starts the insertions; a goroutine that is started comes last.
  abbrev pub start_inserts : ℕ → Program W → Move (Program W)
  start_inserts k p =
      if ltb k rounds
      then moves (record p {
        workers = p.workers ++ new_worker (inserting (k + 1)) ∷ [];
        main = at_inserts (k + 1);
      })
      else moves (record p { main = at_set_done 0 })

  abbrev pub wait_set_done : ℕ → Program W → Move (Program W)
  wait_set_done n p =
      if p.channels.set_done == 0
      then waits
      else moves (record p {
        main = if n + 1 == rounds then after_inserts else at_set_done (n + 1);
        channels = record p.channels { set_done = p.channels.set_done - 1 };
      })

  -- The loop that starts the checks, with what is left to start.
  abbrev pub start_checks : List Pairs → Program W → Move (Program W)
  start_checks [] p = moves (record p { main = at_get_done 0 })
  start_checks (pairs ∷ rest) p = moves (record p {
    workers =
        p.workers ++ new_worker (checking (if randomize then out.range_of pairs else pairs)) ∷ [];
    main = at_checks rest;
  })

  abbrev pub wait_get_done : ℕ → Program W → Move (Program W)
  wait_get_done n p =
      if p.channels.get_done == 0
      then waits
      else moves (record p {
        main = if n + 1 == rounds then at_ints 0 else at_get_done (n + 1);
        channels = record p.channels { get_done = p.channels.get_done - 1 };
      })

  -- A step of the main goroutine.
  unfoldable pub main_move : MainSpot → Program W → Move (Program W)
  main_move (at_inserts k) p = start_inserts k p
  main_move (at_set_done n) p = wait_set_done n p
  main_move (at_maps captured) p = take_map captured p p.channels.maps
  main_move (at_checks todo) p = start_checks todo p
  main_move (at_get_done n) p = wait_get_done n p
  main_move (at_ints checked) p = take_int checked p p.channels.ints
  main_move (at_stop checked) p = waits
