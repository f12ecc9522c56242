-- ===== src/Client/Workers/Counted/Main.antt =====
-- client/main.go: a step of the main goroutine keeps the counts of the load test.
use nodare_db_dev.Prelude.{
  ==_iff, Bool, Bool-cases, List, [], ap, arith, false, if◌then◌else◌, inl, inr, length,
  length-append, ltb, ltb→lt, refl, set, suc, true, zero, ℕ, ◌*◌, ◌++◌, ◌+◌, ◌-◌, ◌<◌, ◌==◌, ◌∷◌,
  ◌≡◌,
}
use nodare_db_dev.Client.Workers.{
  Channels, Flags, Job, MainSpot, Outside, Pairs, Program, Spot, Worker, at_checks, at_get_done,
  at_inserts, at_ints, at_lock, at_maps, at_set_done, at_stop, checking, inserting,
}
use nodare_db_dev.Client.Workers.Balance.{IfMoves}
use nodare_db_dev.Client.Workers.Counted.{
  Counted, IsCounted, MainFits, gets_got, maps_got, sets_got, unchecked, uninserted,
}
use nodare_db_dev.Client.Workers.Counts.{
  holds_conn, holds_lock, is_check, is_get_done, is_insert, is_int, is_map, is_set_done, over, owes,
  sum, sum-snoc,
}
use nodare_db_dev.Client.Workers.Main.{count_rounds, main_move, new_worker, take_int, take_map}

module _ {W : Type 0} (out : Outside W) (flags : Flags) where
  open flags use {rounds, randomize}

  -- A worker that is started holds nothing, and owes what its job sends.
  main_start-Counted :
      (ws : List Worker) (main main' : MainSpot) (c : Channels W) (job : Job)
      → IsCounted out flags ws main c
      → sets_got rounds main' + is_insert job + uninserted rounds main'
        ≡ sets_got rounds main + uninserted rounds main
      → gets_got rounds main' + is_check job + unchecked rounds main'
        ≡ gets_got rounds main + unchecked rounds main
      → is_check job + unchecked rounds main' ≡ unchecked rounds main
      → maps_got rounds main' + is_insert job + uninserted rounds main'
        ≡ maps_got rounds main + uninserted rounds main
      → MainFits out flags main'
      → IsCounted out flags (ws ++ new_worker out flags job ∷ []) main' c
  main_start-Counted ws main main' c job v set got result capture fits =
      let totals : (f : Job → Spot → ℕ)
          → sum (over f) (ws ++ new_worker out flags job ∷ []) ≡ sum (over f) ws + f job at_lock =
        λ f. sum-snoc (over f) ws (new_worker out flags job) in
      record {
        locks = omega (arith, v.locks, totals (λ job s. holds_lock s));
        lock_room = v.lock_room;
        conn_room = omega (arith, v.conn_room, totals (λ job s. holds_conn s));
        sets = omega (arith, set, v.sets, totals (owes is_set_done is_insert));
        gets = omega (arith, got, v.gets, totals (owes is_get_done is_check));
        results = omega (arith, result, v.results, totals (owes is_int is_check));
        captures = λ u. omega (arith, capture, v.captures u, totals (owes is_map is_insert));
        in_main = fits;
      }

  pub length-count_rounds : (n r : ℕ) → length (count_rounds out flags n r) ≡ n
  unfolding count_rounds
  length-count_rounds zero r = refl
  length-count_rounds (suc n) r = ap suc (length-count_rounds n (r + 1))

  after_inserts-Counted :
      (ws : List Worker) (c : Channels W) (n : ℕ) (b : Bool)
      → randomize ≡ b
      → 0 < rounds
      → n + 1 ≡ rounds
      → 0 < c.set_done
      → IsCounted out flags ws (at_set_done n) c
      → IsCounted out flags ws
          (if b then at_maps [] else at_checks (count_rounds out flags rounds 1))
          (record c { set_done = c.set_done - 1 })
  after_inserts-Counted ws c n true e some_round last got v = record {
    locks = v.locks;
    lock_room = v.lock_room;
    conn_room = v.conn_room;
    sets = omega (arith, v.sets, last, got);
    gets = v.gets;
    results = v.results;
    captures = v.captures;
    in_main = (some_round, e);
  }
  after_inserts-Counted ws c n false e some_round last got v = record {
    locks = v.locks;
    lock_room = v.lock_room;
    conn_room = v.conn_room;
    sets = omega (arith, v.sets, last, got);
    gets = omega (arith, v.gets, length-count_rounds rounds 1);
    results = omega (arith, v.results, length-count_rounds rounds 1);
    captures = λ u. absurd (cc);
    in_main = omega (arith, length-count_rounds rounds 1);
  }

  main_inserts-Counted :
      (k : ℕ) (p : Program W)
      → 0 < rounds
      → IsCounted out flags p.workers (at_inserts k) p.channels
      → IfMoves (Counted out flags) (main_move out flags (at_inserts k) p)
  unfolding main_move
  main_inserts-Counted k p some_round v = elim (Bool-cases (ltb k rounds)) [
    | inl e ↦
        let less = ltb→lt k rounds e in
        rw e (
          main_start-Counted p.workers (at_inserts k) (at_inserts (k + 1)) p.channels
            (inserting (k + 1)) v (omega (arith, less)) (omega arith) (omega arith)
            (omega (arith, less)) (omega (arith, less)))
    | inr e ↦ rw e (record {
      locks = v.locks;
      lock_room = v.lock_room;
      conn_room = v.conn_room;
      sets = ground (arith, e, v.sets, v.in_main);
      gets = v.gets;
      results = v.results;
      captures = λ u. let all = v.captures u in ground (arith, e, all, v.in_main);
      in_main = some_round;
    })
  ]

  main_set_done-Counted :
      (n : ℕ) (p : Program W)
      → 0 < rounds
      → IsCounted out flags p.workers (at_set_done n) p.channels
      → IfMoves (Counted out flags) (main_move out flags (at_set_done n) p)
  unfolding main_move
  main_set_done-Counted n p some_round v = elim (Bool-cases (p.channels.set_done == 0)) [
    | inl e ↦ rw e tt
    | inr e ↦
        let got : 0 < p.channels.set_done = ground (arith, e) in
        rw e (elim (Bool-cases (n + 1 == rounds)) [
          | inl l ↦ rw l (
              after_inserts-Counted p.workers p.channels n randomize refl some_round
                ((==_iff (n + 1) rounds).0 l) got v)
          | inr l ↦ rw l (record {
            locks = v.locks;
            lock_room = v.lock_room;
            conn_room = v.conn_room;
            sets = omega (arith, v.sets, got);
            gets = v.gets;
            results = v.results;
            captures = v.captures;
            in_main = ground (arith, l, v.in_main);
          })
        ])
  ]

  main_maps-Counted :
      (ms : List Pairs) (p : Program W) (here : List Pairs)
      → p.channels.maps ≡ here
      → 0 < rounds
      → IsCounted out flags p.workers (at_maps ms) p.channels
      → IfMoves (Counted out flags) (take_map out flags ms p here)
  main_maps-Counted ms p [] e some_round v = tt
  main_maps-Counted ms p (m ∷ rest) e some_round v =
      let more : length p.channels.maps ≡ length rest + 1 = rw e (omega arith) in
      let got = v.captures v.in_main.1 in
      elim (Bool-cases (length (ms ++ m ∷ []) == rounds)) [
        | inl l ↦ rw l (record {
          locks = v.locks;
          lock_room = v.lock_room;
          conn_room = v.conn_room;
          sets = v.sets;
          gets =
              let all = (==_iff (length (ms ++ m ∷ [])) rounds).0 l in omega (arith, v.gets, all);
          results =
              let all = (==_iff (length (ms ++ m ∷ [])) rounds).0 l in
              omega (arith, v.results, all);
          captures = λ u.
              let all = (==_iff (length (ms ++ m ∷ [])) rounds).0 l in
              omega (arith, got, more, all, length-append ms (m ∷ []));
          in_main = let all = (==_iff (length (ms ++ m ∷ [])) rounds).0 l in omega (arith, all);
        })
        | inr l ↦ rw l (record {
          locks = v.locks;
          lock_room = v.lock_room;
          conn_room = v.conn_room;
          sets = v.sets;
          gets = v.gets;
          results = v.results;
          captures = λ u. omega (arith, got, more, length-append ms (m ∷ []));
          in_main = (
            let wide = length-append ms (m ∷ []) in ground (arith, l, wide, v.in_main.0),
            v.in_main.1,
          );
        })
      ]

  main_get_done-Counted :
      (n : ℕ) (p : Program W)
      → 0 < rounds
      → IsCounted out flags p.workers (at_get_done n) p.channels
      → IfMoves (Counted out flags) (main_move out flags (at_get_done n) p)
  unfolding main_move
  main_get_done-Counted n p some_round v = elim (Bool-cases (p.channels.get_done == 0)) [
    | inl e ↦ rw e tt
    | inr e ↦
        let got : 0 < p.channels.get_done = ground (arith, e) in
        rw e (elim (Bool-cases (n + 1 == rounds)) [
          | inl l ↦ rw l (record {
            locks = v.locks;
            lock_room = v.lock_room;
            conn_room = v.conn_room;
            sets = v.sets;
            gets = let last = (==_iff (n + 1) rounds).0 l in omega (arith, v.gets, got, last);
            results = v.results;
            captures = v.captures;
            in_main = tt;
          })
          | inr l ↦ rw l (record {
            locks = v.locks;
            lock_room = v.lock_room;
            conn_room = v.conn_room;
            sets = v.sets;
            gets = omega (arith, v.gets, got);
            results = v.results;
            captures = v.captures;
            in_main = ground (arith, l, v.in_main);
          })
        ])
  ]

  -- The counts do not depend on the sum that the main goroutine has.
  main_ints-Counted :
      (n : ℕ) (p : Program W) (here : List ℕ)
      → p.channels.ints ≡ here
      → IsCounted out flags p.workers (at_ints n) p.channels
      → IfMoves (Counted out flags) (take_int out flags n p here)
  main_ints-Counted n p [] e v = tt
  main_ints-Counted n p (i ∷ rest) e v =
      let more : length p.channels.ints ≡ length rest + 1 = rw e (omega arith) in
      elim (Bool-cases (n + i == flags.items * rounds)) [
        | inl l ↦ rw l (record {
          locks = v.locks;
          lock_room = v.lock_room;
          conn_room = v.conn_room;
          sets = v.sets;
          gets = v.gets;
          results = omega (arith, v.results, more);
          captures = v.captures;
          in_main = tt;
        })
        | inr l ↦ rw l (record {
          locks = v.locks;
          lock_room = v.lock_room;
          conn_room = v.conn_room;
          sets = v.sets;
          gets = v.gets;
          results = omega (arith, v.results, more);
          captures = v.captures;
          in_main = tt;
        })
      ]

  pub main_move-Counted :
      (main : MainSpot) (p : Program W)
      → 0 < rounds
      → IsCounted out flags p.workers main p.channels
      → IfMoves (Counted out flags) (main_move out flags main p)
  unfolding main_move
  main_move-Counted (at_inserts k) p some_round v = main_inserts-Counted k p some_round v
  main_move-Counted (at_set_done n) p some_round v = main_set_done-Counted n p some_round v
  main_move-Counted (at_maps ms) p some_round v =
      main_maps-Counted ms p p.channels.maps refl some_round v
  main_move-Counted (at_checks []) p some_round v = record {
    locks = v.locks;
    lock_room = v.lock_room;
    conn_room = v.conn_room;
    sets = v.sets;
    gets = v.gets;
    results = v.results;
    captures = v.captures;
    in_main = some_round;
  }
  main_move-Counted (at_checks (ps ∷ rest)) p some_round v =
      main_start-Counted p.workers (at_checks (ps ∷ rest)) (at_checks rest) p.channels
        (checking (if randomize then out.range_of ps else ps)) v (omega arith) (omega arith)
        (omega arith) (omega arith) (omega (arith, v.in_main))
  main_move-Counted (at_get_done n) p some_round v = main_get_done-Counted n p some_round v
  main_move-Counted (at_ints n) p some_round v = main_ints-Counted n p p.channels.ints refl v
  main_move-Counted (at_stop n) p some_round v = tt
