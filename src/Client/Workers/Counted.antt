-- ===== src/Client/Workers/Counted.antt =====
-- client/main.go: the counts of the load test, and that a step of a worker keeps them.
pub mod Main
pub mod Reached
use mathlib.Core.Path.{subst}
use nodare_db_dev.Prelude.{
  Bool, List, arith, inl, inr, length, set, some, true, ℕ, ◌+◌, ◌-◌, ◌<◌, ◌≡◌, ◌≤◌,
}
use nodare_db_dev.Client.Workers.{
  Channels, Flags, Job, MainSpot, Move, Outside, Program, Spot, Worker, at_checks, at_get_done,
  at_inserts, at_ints, at_maps, at_set_done, at_stop, exits, moves, waits,
}
use nodare_db_dev.Client.Workers.Balance.{Balanced, ConnStep, IfMoves}
use nodare_db_dev.Client.Workers.Counts.{
  conns_held, holds_conn, holds_lock, holds_lock-split, is_check, is_get_done, is_insert, is_int,
  is_map, is_set_done, lock_only, locks_held, over, owed_by, owes, sum, sum-add, sum-at, sum-set,
}
use nodare_db_dev.Client.Workers.Runs.{put_worker, worker_at}
use nodare_db_dev.Database.Locks.{lock}
use nodare_db_dev.Database.Table.{empty}

-- What the main goroutine has got of each kind, and the workers that it has still to start.
abbrev pub uninserted : ℕ → MainSpot → ℕ
uninserted rounds (at_inserts k) = rounds - k
uninserted rounds (at_set_done n) = 0
uninserted rounds (at_maps ms) = 0
uninserted rounds (at_checks todo) = 0
uninserted rounds (at_get_done n) = 0
uninserted rounds (at_ints n) = 0
uninserted rounds (at_stop n) = 0

abbrev pub unchecked : ℕ → MainSpot → ℕ
unchecked rounds (at_inserts k) = rounds
unchecked rounds (at_set_done n) = rounds
unchecked rounds (at_maps ms) = rounds
unchecked rounds (at_checks todo) = length todo
unchecked rounds (at_get_done n) = 0
unchecked rounds (at_ints n) = 0
unchecked rounds (at_stop n) = 0

abbrev pub sets_got : ℕ → MainSpot → ℕ
sets_got rounds (at_inserts k) = 0
sets_got rounds (at_set_done n) = n
sets_got rounds (at_maps ms) = rounds
sets_got rounds (at_checks todo) = rounds
sets_got rounds (at_get_done n) = rounds
sets_got rounds (at_ints n) = rounds
sets_got rounds (at_stop n) = rounds

abbrev pub maps_got : ℕ → MainSpot → ℕ
maps_got rounds (at_inserts k) = 0
maps_got rounds (at_set_done n) = 0
maps_got rounds (at_maps ms) = length ms
maps_got rounds (at_checks todo) = rounds
maps_got rounds (at_get_done n) = rounds
maps_got rounds (at_ints n) = rounds
maps_got rounds (at_stop n) = rounds

abbrev pub gets_got : ℕ → MainSpot → ℕ
gets_got rounds (at_inserts k) = 0
gets_got rounds (at_set_done n) = 0
gets_got rounds (at_maps ms) = 0
gets_got rounds (at_checks todo) = 0
gets_got rounds (at_get_done n) = n
gets_got rounds (at_ints n) = rounds
gets_got rounds (at_stop n) = rounds

module _ {W : Type 0} (out : Outside W) (flags : Flags) where
  open flags use {rounds, parallel, randomize}

  abbrev pub MainFits : MainSpot → Type 0
  MainFits (at_inserts k) = k ≤ rounds
  MainFits (at_set_done n) = n < rounds
  MainFits (at_maps ms) = (length ms < rounds) × (randomize ≡ true)
  MainFits (at_checks todo) = length todo ≤ rounds
  MainFits (at_get_done n) = n < rounds
  MainFits (at_ints n) = Unit
  MainFits (at_stop n) = Unit

  pub record IsCounted (ws : List Worker) (main : MainSpot) (c : Channels W) : Type 0 where
    pub locks : c.par ≡ locks_held ws
    pub lock_room : c.par ≤ parallel
    pub conn_room : c.cli + conns_held ws ≤ parallel
    pub sets :
        sets_got rounds main
          + c.set_done
          + owed_by is_set_done is_insert ws
          + uninserted rounds main
        ≡ rounds
    pub gets :
        gets_got rounds main + c.get_done + owed_by is_get_done is_check ws + unchecked rounds main
        ≡ rounds
    pub results : length c.ints + owed_by is_int is_check ws + unchecked rounds main ≤ rounds
    pub captures :
        randomize ≡ true
        → maps_got rounds main
            + length c.maps
            + owed_by is_map is_insert ws
            + uninserted rounds main
          ≡ rounds
    pub in_main : MainFits main

  abbrev pub Counted : Program W → Type 0
  Counted p = IsCounted p.workers p.main p.channels

  -- A worker that gets a connection of its own has its item in `parChan` without one.
  conns_held-room :
      (ws : List Worker) (n : ℕ) (w : Worker) (s' : Spot) (c c' : Channels W)
      → worker_at n ws ≡ some w
      → ConnStep out flags w.spot c (s', c')
      → c.par ≡ locks_held ws
      → c.par ≤ parallel
      → c.cli + conns_held ws ≤ parallel
      → c'.cli + conns_held (set ws n (record w { spot = s' })) ≤ parallel
  conns_held-room ws n w s' c c' found (inl less) locks room conns = omega (
    arith,
    less,
    conns,
    sum-set (over (λ job s. holds_conn s)) ws n w (record w { spot = s' }) found,
  )
  conns_held-room ws n w s' c c' found (inr (empty, empty', lock, conn, no_conn)) locks room conns =
      omega (
        arith,
        empty',
        lock,
        conn,
        no_conn,
        locks,
        room,
        sum-set (over (λ job s. holds_conn s)) ws n w (record w { spot = s' }) found,
        sum-at (over (λ job s. lock_only s)) ws n w found,
        sum-add (over (λ job s. holds_lock s)) (over (λ job s. holds_conn s))
            (over (λ job s. lock_only s)) ws (λ x. holds_lock-split x.spot),
      )

  pub step_worker-Counted :
      (p q : Program W) (n : ℕ) (dialled : Bool) (w : Worker) (m : Move (Spot × Channels W))
      → worker_at n p.workers ≡ some w
      → IfMoves (Balanced out flags w.job w.spot p.channels) m
      → Counted p
      → put_worker out flags p n w.job m ≡ moves q
      → Counted q
  step_worker-Counted p q n dialled w waits found balanced v e = absurd (cc)
  step_worker-Counted p q n dialled w exits found balanced v e = absurd (cc)
  step_worker-Counted p q n dialled w (moves (s', c')) found balanced v e =
      let totals : (f : Job → Spot → ℕ)
          → sum (over f) (set p.workers n (record w { spot = s' })) + f w.job w.spot
            ≡ sum (over f) p.workers + f w.job s' =
        λ f. sum-set (over f) p.workers n w (record w { spot = s' }) found in
      let next : Counted
          (record p { workers = set p.workers n (record w { spot = s' }); channels = c' }) =
        record {
          locks = omega (arith, balanced.locks, v.locks, totals (λ job s. holds_lock s));
          lock_room = balanced.lock_room v.lock_room;
          conn_room =
              conns_held-room p.workers n w s' p.channels c' found balanced.conns v.locks
                v.lock_room v.conn_room;
          sets = omega (arith, balanced.sets, v.sets, totals (owes is_set_done is_insert));
          gets = omega (arith, balanced.gets, v.gets, totals (owes is_get_done is_check));
          results = omega (arith, balanced.results, v.results, totals (owes is_int is_check));
          captures =
              λ u. omega (arith, balanced.captures u, v.captures u, totals (owes is_map is_insert));
          in_main = v.in_main;
        } in
      subst Counted (cc) next
