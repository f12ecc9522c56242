-- ===== src/Client/Workers/Measured.antt =====
-- client/main.go: each step of the load test leaves fewer steps to make.
use mathlib.Core.Path.{subst}
use nodare_db_dev.Prelude.{
  ==_iff, All, All-snoc, Bool, Bool-cases, List, Option, [], ap, arith, false, if◌then◌else◌, inl,
  inr, length, length-append, ltb, ltb→lt, none, refl, some, suc, true, ℕ, ◌*◌, ◌++◌, ◌+◌, ◌-◌, ◌<◌,
  ◌==◌, ◌∙◌, ◌∷◌, ◌≡◌, ◌≤◌,
}
use nodare_db_dev.Client.Workers.{
  Channels, Flags, MainSpot, Outside, Pairs, Program, Worker, at_checks, at_get_done, at_inserts,
  at_ints, at_maps, at_set_done, at_stop, checking, inserting, moves,
}
use nodare_db_dev.Client.Workers.Balance.{IfMoves, IfMoves-moves, worker_step-Balanced}
use nodare_db_dev.Client.Workers.Counted.{Counted, IsCounted}
use nodare_db_dev.Client.Workers.Counted.Main.{length-count_rounds}
use nodare_db_dev.Client.Workers.Counts.{is_check, is_int, over, owes, sum, sum-snoc}
use nodare_db_dev.Client.Workers.Finishes.{
  check_loads, measure, measured, step_worker-measure, weight, worker_step-Lighter,
}
use nodare_db_dev.Client.Workers.Main.{count_rounds, main_move, new_worker, take_int, take_map}
use nodare_db_dev.Client.Workers.Runs.{
  Turn, main_turn, most_turns, new_program, step_program, step_worker, worker_at, worker_turn,
}
use nodare_db_dev.Client.Workers.Stored.{IsUsual, MapHolds}
use nodare_db_dev.Client.Workers.Stored.Main.{IsStored, Stored}
use nodare_db_dev.Client.Workers.Summed.{length-ranged, sum-captured, sum-count_rounds}
use nodare_db_dev.Server.Socket.Loops.{stored}

module _ {W : Type 0} (out : Outside W) (flags : Flags) (usual : IsUsual out flags) where
  open flags use {items, rounds, randomize}

  abbrev size_of : List Worker → MainSpot → Channels W → ℕ
  size_of = measure out flags usual

  abbrev pub SameServer : Program W → Program W → Type 0
  SameServer p q = q.channels.server ≡ p.channels.server

  abbrev Less : ℕ → Program W → Type 0
  Less n q = measured out flags usual q + 1 ≤ n

  check_loads-sum :
      (ms : List Pairs) → check_loads out flags usual ms ≡ 9 * length ms + sum length ms
  check_loads-sum [] = omega arith
  check_loads-sum (m ∷ ms) = omega (arith, check_loads-sum ms)

  spawn-weight :
      (k : ℕ)
      → k < rounds
      → (rounds - k) * (9 + items) ≡ 9 + items + (rounds - (k + 1)) * (9 + items)
  spawn-weight k less =
      let one_more : rounds - k ≡ suc (rounds - (k + 1)) = omega (arith, less) in
      ap (λ n. n * (9 + items)) one_more ∙ suc-mul (rounds - (k + 1)) (9 + items)
    where
      suc-mul : (a b : ℕ) → suc a * b ≡ b + a * b
      suc-mul a b = omega arith

  after_inserts-measure :
      (ws : List Worker) (c : Channels W) (n : ℕ) (b : Bool)
      → n + 1 ≡ rounds
      → size_of ws
            (if b then at_maps [] else at_checks (count_rounds out flags rounds 1))
            (record c { set_done = c.set_done - 1 })
          + 1
        ≤ size_of ws (at_set_done n) c
  after_inserts-measure ws c n true last = omega (arith, last)
  after_inserts-measure ws c n false last =
      let wide = length-count_rounds out flags rounds 1 in
      let loads = check_loads-sum (count_rounds out flags rounds 1) in
      let all = sum-count_rounds out flags usual rounds 1 in
      let split = mul-split rounds items in omega (arith, last, wide, loads, all, split)
    where
      mul-split : (a b : ℕ) → a * (9 + b) ≡ 9 * a + b * a
      mul-split a b = omega arith

  main_maps-measure :
      (ms : List Pairs) (p : Program W) (here : List Pairs)
      → p.channels.maps ≡ here
      → IsCounted out flags p.workers (at_maps ms) p.channels
      → IsStored out flags usual p.workers (at_maps ms) p.channels
      → IfMoves (Less (size_of p.workers (at_maps ms) p.channels)) (take_map out flags ms p here)
  main_maps-measure ms p [] e v stored = tt
  main_maps-measure ms p (m ∷ rest) e v stored =
      let (new, others) =
        subst (All (MapHolds out flags usual p.channels.server)) e stored.maps_hold in
      let more = All-snoc (MapHolds out flags usual p.channels.server) ms m stored.main_holds new in
      let wide = length-append ms (m ∷ []) in
      elim (Bool-cases (length (ms ++ m ∷ []) == rounds)) [
        | inl l ↦
            let all = (==_iff (length (ms ++ m ∷ [])) rounds).0 l in
            let captured = sum-captured out flags usual p.channels.server (ms ++ m ∷ []) more in
            let whole : sum length (ms ++ m ∷ []) ≡ items * rounds =
              captured ∙ ap (λ k. items * k) all in
            let loads = check_loads-sum (ms ++ m ∷ []) in
            rw l (omega (arith, v.in_main.0, wide, all, whole, loads))
        | inr l ↦ rw l (omega (arith, v.in_main.0, wide))
      ]

  main_ints-measure :
      (n : ℕ) (p : Program W) (here : List ℕ)
      → p.channels.ints ≡ here
      → IfMoves (Less (size_of p.workers (at_ints n) p.channels)) (take_int out flags n p here)
  main_ints-measure n p [] e = tt
  main_ints-measure n p (i ∷ rest) e =
      let one_less : length p.channels.ints ≡ length rest + 1 = rw e (omega arith) in
      elim (Bool-cases (n + i == items * rounds)) [
        | inl l ↦ rw l (omega (arith, one_less))
        | inr l ↦ rw l (omega (arith, one_less))
      ]

  main_move-measure :
      (main : MainSpot) (p : Program W)
      → IsCounted out flags p.workers main p.channels
      → IsStored out flags usual p.workers main p.channels
      → IfMoves (Less (size_of p.workers main p.channels)) (main_move out flags main p)
  unfolding main_move
  main_move-measure (at_inserts k) p v stored = elim (Bool-cases (ltb k rounds)) [
    | inl e ↦ rw e (
        omega (
          arith,
          spawn-weight k (ltb→lt k rounds e),
          sum-snoc (over (weight out flags usual)) p.workers
              (new_worker out flags (inserting (k + 1))),
          sum-snoc (over (owes is_int is_check)) p.workers
              (new_worker out flags (inserting (k + 1))),
        ))
    | inr e ↦
        let none_left : (rounds - k) * (9 + items) ≡ 0 =
          let zero_left : rounds - k ≡ 0 = ground (arith, e) in
          ap (λ n. n * (9 + items)) zero_left ∙ omega arith in
        rw e (omega (arith, none_left))
  ]
  main_move-measure (at_set_done n) p v stored = elim (Bool-cases (p.channels.set_done == 0)) [
    | inl e ↦ rw e tt
    | inr e ↦ rw e (elim (Bool-cases (n + 1 == rounds)) [
      | inl l ↦
          rw l
            (after_inserts-measure p.workers p.channels n randomize ((==_iff (n + 1) rounds).0 l))
      | inr l ↦ rw l (omega (arith, v.in_main))
    ])
  ]
  main_move-measure (at_maps ms) p v stored = main_maps-measure ms p p.channels.maps refl v stored
  main_move-measure (at_checks []) p v stored = omega arith
  main_move-measure (at_checks (ps ∷ rest)) p v stored =
      let job = checking (if randomize then out.range_of ps else ps) in
      omega (
        arith,
        length-ranged out flags usual ps randomize,
        sum-snoc (over (weight out flags usual)) p.workers (new_worker out flags job),
        sum-snoc (over (owes is_int is_check)) p.workers (new_worker out flags job),
      )
  main_move-measure (at_get_done n) p v stored = elim (Bool-cases (p.channels.get_done == 0)) [
    | inl e ↦ rw e tt
    | inr e ↦ rw e (elim (Bool-cases (n + 1 == rounds)) [
      | inl l ↦ rw l (omega (arith, v.in_main))
      | inr l ↦ rw l (omega (arith, v.in_main))
    ])
  ]
  main_move-measure (at_ints n) p v stored = main_ints-measure n p p.channels.ints refl
  main_move-measure (at_stop n) p v stored = tt

  step_at-measure :
      (p q : Program W) (n : ℕ) (dialled : Bool) (o : Option Worker)
      → worker_at n p.workers ≡ o
      → step_worker out flags p n dialled o ≡ moves q
      → Less (measured out flags usual p) q
  step_at-measure p q n dialled none found e = absurd (cc)
  step_at-measure p q n dialled (some w) found e =
      step_worker-measure out flags usual p q n w _ found
        (worker_step-Lighter out flags usual dialled w.job w.spot p.channels)
        (worker_step-Balanced out flags dialled w.job w.spot p.channels) e

  pub step_program-measure :
      (p q : Program W) (t : Turn)
      → Counted out flags p
      → Stored out flags usual p
      → step_program out flags t p ≡ moves q
      → Less (measured out flags usual p) q
  unfolding step_program
  step_program-measure p q main_turn v stored e =
      IfMoves-moves (Less (measured out flags usual p)) _ q (main_move-measure p.main p v stored) e
  step_program-measure p q (worker_turn n dialled) v stored e =
      step_at-measure p q n dialled (worker_at n p.workers) refl e

  -- Of `measure`, at the start.
  pub measured-new_program :
      (w : W) → measured out flags usual (new_program out flags w) ≤ most_turns flags
  unfolding new_program
  measured-new_program w =
      let whole : (rounds - 0) * (9 + items) ≡ rounds * (9 + items) =
        let all : rounds - 0 ≡ rounds = omega arith in ap (λ n. n * (9 + items)) all in
      omega (arith, whole)

  main_maps-server :
      (ms : List Pairs) (p : Program W) (here : List Pairs)
      → IfMoves (SameServer p) (take_map out flags ms p here)
  main_maps-server ms p [] = tt
  main_maps-server ms p (m ∷ rest) = refl

  main_ints-server :
      (n : ℕ) (p : Program W) (here : List ℕ) → IfMoves (SameServer p) (take_int out flags n p here)
  main_ints-server n p [] = tt
  main_ints-server n p (i ∷ rest) = refl

  -- The main goroutine leaves the server alone.
  pub main_move-server :
      (main : MainSpot) (p : Program W) → IfMoves (SameServer p) (main_move out flags main p)
  unfolding main_move
  main_move-server (at_inserts k) p = elim (Bool-cases (ltb k rounds)) [
    | inl e ↦ rw e refl
    | inr e ↦ rw e refl
  ]
  main_move-server (at_set_done n) p = elim (Bool-cases (p.channels.set_done == 0)) [
    | inl e ↦ rw e tt
    | inr e ↦ rw e refl
  ]
  main_move-server (at_maps ms) p = main_maps-server ms p p.channels.maps
  main_move-server (at_checks []) p = refl
  main_move-server (at_checks (ps ∷ rest)) p = refl
  main_move-server (at_get_done n) p = elim (Bool-cases (p.channels.get_done == 0)) [
    | inl e ↦ rw e tt
    | inr e ↦ rw e refl
  ]
  main_move-server (at_ints n) p = main_ints-server n p p.channels.ints
  main_move-server (at_stop n) p = tt
