-- ===== src/Client/Workers/Stored/Main.antt =====
-- client/main.go: what the load test knows of the server, and a step of the main goroutine.
use mathlib.Core.Path.{subst}
use nodare_db_dev.Prelude.{
  ==_iff, All, All-map, All-snoc, Bool, Bool-cases, List, [], arith, false, if◌then◌else◌, inl, inr,
  length, ltb, ltb→lt, refl, set, some, sym, true, ℕ, ◌*◌, ◌++◌, ◌+◌, ◌-◌, ◌<◌, ◌==◌, ◌∷◌, ◌≡◌, ◌≤◌,
}
use nodare_db_dev.Client.Workers.{
  Channels, Flags, MainSpot, Move, Outside, Pairs, Program, Spot, Worker, at_checks, at_get_done,
  at_inserts, at_ints, at_maps, at_set_done, at_stop, exits, inserting, moves, waits,
}
use nodare_db_dev.Client.Workers.Counted.{IsCounted, uninserted}
use nodare_db_dev.Client.Workers.Counts.{is_insert, is_set_done, owed_by}
use nodare_db_dev.Client.Workers.Main.{count_rounds, main_move, new_worker, take_int, take_map}
use nodare_db_dev.Client.Workers.Runs.{put_worker, worker_at}
use nodare_db_dev.Client.Workers.Stored.{
  IsUsual, KeepsPairs, MapHolds, MapHolds-kept, Settled, WorkerHolds, WorkerHolds-kept,
}
use nodare_db_dev.Client.Workers.Stored.Items.{IfSafe, StepHolds}
use nodare_db_dev.Client.Workers.Stored.Jobs.{
  All-set, HasJob, HasJob-append, HasJob-new, HasJob-set, all_owe_none, count_rounds-hold,
}

module _ {W : Type 0} (out : Outside W) (flags : Flags) (usual : IsUsual out flags) where
  open flags use {items, rounds, randomize}

  abbrev HoldsMap : W → Pairs → Type 0
  HoldsMap = MapHolds out flags usual

  abbrev pub MainHolds : W → MainSpot → Type 0
  MainHolds w (at_inserts k) = Unit
  MainHolds w (at_set_done n) = Unit
  MainHolds w (at_maps ms) = All (MapHolds out flags usual w) ms
  MainHolds w (at_checks todo) = All (MapHolds out flags usual w) todo
  MainHolds w (at_get_done n) = Unit
  MainHolds w (at_ints n) = Unit
  MainHolds w (at_stop n) = Unit

  MainHolds-kept :
      (w w' : W) (main : MainSpot)
      → KeepsPairs out flags usual w w'
      → MainHolds w main
      → MainHolds w' main
  MainHolds-kept w w' (at_inserts k) keeps holds = tt
  MainHolds-kept w w' (at_set_done n) keeps holds = tt
  MainHolds-kept w w' (at_maps ms) keeps holds =
      All-map ms (λ m. MapHolds-kept out flags usual w w' m keeps) holds
  MainHolds-kept w w' (at_checks todo) keeps holds =
      All-map todo (λ m. MapHolds-kept out flags usual w w' m keeps) holds
  MainHolds-kept w w' (at_get_done n) keeps holds = tt
  MainHolds-kept w w' (at_ints n) keeps holds = tt
  MainHolds-kept w w' (at_stop n) keeps holds = tt

  pub record IsStored (ws : List Worker) (main : MainSpot) (c : Channels W) : Type 0 where
    pub workers_hold : All (λ x. WorkerHolds out flags usual c.server x.job x.spot) ws
    pub maps_hold : All (MapHolds out flags usual c.server) c.maps
    pub main_holds : MainHolds c.server main
    pub started : (r : ℕ) → 1 ≤ r → r + uninserted rounds main ≤ rounds → HasJob (inserting r) ws

  abbrev pub Stored : Program W → Type 0
  Stored p = IsStored p.workers p.main p.channels

  pub step_worker-Stored :
      (p q : Program W) (n room : ℕ) (w : Worker) (m : Move (Spot × Channels W))
      → worker_at n p.workers ≡ some w
      → IfSafe (StepHolds out flags usual room p.channels.server w.job) m
      → Stored p
      → put_worker out flags p n w.job m ≡ moves q
      → Stored q × usual.serves.HasRoom room q.channels.server
  step_worker-Stored p q n room w waits found holds v e = absurd (cc)
  step_worker-Stored p q n room w exits found holds v e = absurd holds
  step_worker-Stored p q n room w (moves (s', c')) found (has_room, knows, later, maps) v e =
      let next : Stored
          (record p { workers = set p.workers n (record w { spot = s' }); channels = c' }) =
        record {
          workers_hold =
              All-set _ p.workers n (record w { spot = s' })
                (All-map p.workers
                  (λ x.
                    WorkerHolds-kept out flags usual p.channels.server c'.server x.job x.spot later)
                  v.workers_hold)
                knows;
          maps_hold = maps;
          main_holds = MainHolds-kept p.channels.server c'.server p.main later v.main_holds;
          started = λ r least most.
              HasJob-set (inserting r) p.workers n w s' found (v.started r least most);
        } in
      subst (λ x. Stored x × usual.serves.HasRoom room x.channels.server) (cc) (next, has_room)

  -- The main goroutine leaves the server alone: what it changes is its own place, what is in a
  -- channel, or the workers by one.
  moves_main :
      (ws : List Worker) (main main' : MainSpot) (c c' : Channels W)
      → IsStored ws main c
      → c'.server ≡ c.server
      → All (HoldsMap c.server) c'.maps
      → MainHolds c.server main'
      → uninserted rounds main ≤ uninserted rounds main'
      → IsStored ws main' c'
  moves_main ws main main' c c' v e maps holds le = record {
    workers_hold = rw e (v.workers_hold);
    maps_hold = rw e maps;
    main_holds = rw e holds;
    started = λ r least most. v.started r least (omega (arith, most, le));
  }

  main_inserts-Stored :
      (k : ℕ) (p : Program W)
      → k ≤ rounds
      → IsStored p.workers (at_inserts k) p.channels
      → IfSafe Stored (main_move out flags (at_inserts k) p)
  unfolding main_move
  main_inserts-Stored k p le v = elim (Bool-cases (ltb k rounds)) [
    | inl e ↦
        let less = ltb→lt k rounds e in
        rw e (record {
          workers_hold = All-snoc _ p.workers _ v.workers_hold (omega arith, omega (arith, less));
          maps_hold = v.maps_hold;
          main_holds = tt;
          started = λ r least most. elim (Bool-cases (r == k + 1)) [
            | inl last ↦
                let same = (==_iff r (k + 1)).0 last in
                subst
                  (λ n.
                    HasJob (inserting n)
                      (p.workers ++ new_worker out flags (inserting (k + 1)) ∷ []))
                  (sym same) (HasJob-new p.workers (new_worker out flags (inserting (k + 1))))
            | inr before ↦
                HasJob-append (inserting r) p.workers _
                  (v.started r least (ground (arith, before, most, less)))
          ];
        })
    | inr e ↦ rw e (
        moves_main p.workers (at_inserts k) (at_set_done 0) p.channels p.channels v refl v.maps_hold
          tt (ground (arith, e, le)))
  ]

  after_inserts-Stored :
      (ws : List Worker) (c : Channels W) (n : ℕ) (b : Bool)
      → owed_by is_set_done is_insert ws ≡ 0
      → IsStored ws (at_set_done n) c
      → IsStored ws
          (if b then at_maps [] else at_checks (count_rounds out flags rounds 1))
          (record c { set_done = c.set_done - 1 })
  after_inserts-Stored ws c n true none_owed v =
      moves_main ws (at_set_done n) (at_maps []) c _ v refl v.maps_hold tt (omega arith)
  after_inserts-Stored ws c n false none_owed v =
      moves_main ws (at_set_done n) (at_checks (count_rounds out flags rounds 1)) c _ v refl
        v.maps_hold
        (count_rounds-hold out flags usual c.server rounds 1 (λ r lo hi.
          all_owe_none out flags usual c.server r ws v.workers_hold none_owed
            (v.started r lo (omega (arith, hi)))))
        (omega arith)

  main_set_done-Stored :
      (n : ℕ) (p : Program W)
      → IsCounted out flags p.workers (at_set_done n) p.channels
      → IsStored p.workers (at_set_done n) p.channels
      → IfSafe Stored (main_move out flags (at_set_done n) p)
  unfolding main_move
  main_set_done-Stored n p counts v = elim (Bool-cases (p.channels.set_done == 0)) [
    | inl e ↦ rw e tt
    | inr e ↦
        let got : 0 < p.channels.set_done = ground (arith, e) in
        rw e (elim (Bool-cases (n + 1 == rounds)) [
          | inl l ↦
              let last = (==_iff (n + 1) rounds).0 l in
              rw l (
                after_inserts-Stored p.workers p.channels n randomize
                  (omega (arith, counts.sets, got, last)) v)
          | inr l ↦ rw l (
              moves_main p.workers (at_set_done n) (at_set_done (n + 1)) p.channels _ v refl
                v.maps_hold tt (omega arith))
        ])
  ]

  main_maps-Stored :
      (ms : List Pairs) (p : Program W) (here : List Pairs)
      → p.channels.maps ≡ here
      → IsStored p.workers (at_maps ms) p.channels
      → IfSafe Stored (take_map out flags ms p here)
  main_maps-Stored ms p [] e v = tt
  main_maps-Stored ms p (m ∷ rest) e v =
      let (new, others) = subst (All (HoldsMap p.channels.server)) e v.maps_hold in
      let more = All-snoc (HoldsMap p.channels.server) ms m v.main_holds new in
      elim (Bool-cases (length (ms ++ m ∷ []) == rounds)) [
        | inl l ↦ rw l (
            moves_main p.workers (at_maps ms) (at_checks (ms ++ m ∷ [])) p.channels _ v refl others
              more (omega arith))
        | inr l ↦ rw l (
            moves_main p.workers (at_maps ms) (at_maps (ms ++ m ∷ [])) p.channels _ v refl others
              more (omega arith))
      ]

  ranged-Settled :
      (w : W) (ps : Pairs) (b : Bool)
      → All (Settled out flags usual w) ps
      → All (Settled out flags usual w) (if b then out.range_of ps else ps)
  ranged-Settled w ps true all = usual.ranges.ranges_all _ ps all
  ranged-Settled w ps false all = all

  main_get_done-Stored :
      (n : ℕ) (p : Program W)
      → IsStored p.workers (at_get_done n) p.channels
      → IfSafe Stored (main_move out flags (at_get_done n) p)
  unfolding main_move
  main_get_done-Stored n p v = elim (Bool-cases (p.channels.get_done == 0)) [
    | inl e ↦ rw e tt
    | inr e ↦ rw e (elim (Bool-cases (n + 1 == rounds)) [
      | inl l ↦ rw l (
          moves_main p.workers (at_get_done n) (at_ints 0) p.channels _ v refl v.maps_hold tt
            (omega arith))
      | inr l ↦ rw l (
          moves_main p.workers (at_get_done n) (at_get_done (n + 1)) p.channels _ v refl v.maps_hold
            tt (omega arith))
    ])
  ]

  main_ints-Stored :
      (n : ℕ) (p : Program W) (here : List ℕ)
      → IsStored p.workers (at_ints n) p.channels
      → IfSafe Stored (take_int out flags n p here)
  main_ints-Stored n p [] v = tt
  main_ints-Stored n p (i ∷ rest) v = elim (Bool-cases (n + i == items * rounds)) [
    | inl l ↦ rw l (
        moves_main p.workers (at_ints n) (at_stop (n + i)) p.channels _ v refl v.maps_hold tt
          (omega arith))
    | inr l ↦ rw l (
        moves_main p.workers (at_ints n) (at_ints (n + i)) p.channels _ v refl v.maps_hold tt
          (omega arith))
  ]

  pub main_move-Stored :
      (main : MainSpot) (p : Program W)
      → IsCounted out flags p.workers main p.channels
      → IsStored p.workers main p.channels
      → IfSafe Stored (main_move out flags main p)
  unfolding main_move
  main_move-Stored (at_inserts k) p counts v = main_inserts-Stored k p counts.in_main v
  main_move-Stored (at_set_done n) p counts v = main_set_done-Stored n p counts v
  main_move-Stored (at_maps ms) p counts v = main_maps-Stored ms p p.channels.maps refl v
  main_move-Stored (at_checks []) p counts v =
      moves_main p.workers (at_checks []) (at_get_done 0) p.channels _ v refl v.maps_hold tt
        (omega arith)
  main_move-Stored (at_checks (ps ∷ rest)) p counts v = record {
    workers_hold =
        All-snoc _ p.workers _ v.workers_hold
          (ranged-Settled p.channels.server ps randomize v.main_holds.0.0);
    maps_hold = v.maps_hold;
    main_holds = v.main_holds.1;
    started = λ r least most. HasJob-append (inserting r) p.workers _ (v.started r least most);
  }
  main_move-Stored (at_get_done n) p counts v = main_get_done-Stored n p v
  main_move-Stored (at_ints n) p counts v = main_ints-Stored n p p.channels.ints v
  main_move-Stored (at_stop n) p counts v = tt
