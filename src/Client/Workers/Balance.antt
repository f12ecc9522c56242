-- ===== src/Client/Workers/Balance.antt =====
-- client/main.go: a step of a worker moves what it holds or owes between it and the channels.
use nodare_db_dev.Prelude.{
  ==_iff, Bool, Bool-cases, List, Option, Run, [], arith, false, fault, if◌then◌else◌, inl, inr,
  length, length-append, ltb, map, none, ok, refl, set, some, true, ℕ, ◌+◌, ◌-◌, ◌==◌, ◌∷◌, ◌≡◌,
  ◌≤◌, ◌⊎◌,
}
use nodare_db_dev.Client.Workers.{
  Channels, Flags, Job, Move, Outside, Pairs, Send, Spot, after_check, after_send, after_set,
  at_check, at_dial, at_lock, at_pool, at_return, at_sends, at_set, check_step, checking, exits,
  gave_up, inserting, moves, put_send, send_get_done, send_int, send_map, send_set_done, set_step,
  start_spot, waits, worker_done, worker_step,
}
use nodare_db_dev.Client.Workers.Counts.{
  holds_conn, holds_lock, is_check, is_get_done, is_insert, is_int, is_map, is_set_done, lock_only,
  owes,
}
use nodare_db_dev.Database.Locks.{lock}

-- What holds of a step if it is made.
abbrev pub IfMoves {ℓ} : {A : Type ℓ} → (A → Type 0) → Move A → Type 0
IfMoves P waits = Unit
IfMoves P exits = Unit
IfMoves P (moves a) = P a

pub IfMoves-moves {ℓ} :
    {A : Type ℓ} (P : A → Type 0) (m : Move A) (a : A) → IfMoves P m → m ≡ moves a → P a
IfMoves-moves P m a given e = rw e at given

module _ {W : Type 0} (out : Outside W) (flags : Flags) where
  open flags use {rounds, parallel, randomize}

  -- The connections that are open or being made change only where a worker finds none in `cliChan`.
  abbrev pub ConnStep : Spot → Channels W → Spot × Channels W → Type 0
  ConnStep s c (s', c') =
      (c'.cli + holds_conn s' ≤ c.cli + holds_conn s)
      ⊎ ((c.cli ≡ 0) × (c'.cli ≡ 0) × (lock_only s ≡ 1) × (holds_conn s' ≡ 1) × (holds_conn s ≡ 0))

  pub record Balanced (job : Job) (s : Spot) (c : Channels W) (to : Spot × Channels W)
      : Type 0 where
    pub locks : to.1.par + holds_lock s ≡ c.par + holds_lock to.0
    pub lock_room : c.par ≤ parallel → to.1.par ≤ parallel
    pub conns : ConnStep s c to
    pub sets :
        to.1.set_done + owes is_set_done is_insert job to.0
        ≡ c.set_done + owes is_set_done is_insert job s
    pub gets :
        to.1.get_done + owes is_get_done is_check job to.0
        ≡ c.get_done + owes is_get_done is_check job s
    pub results :
        length to.1.ints + owes is_int is_check job to.0
        ≡ length c.ints + owes is_int is_check job s
    pub captures :
        randomize ≡ true
        → length to.1.maps + owes is_map is_insert job to.0
          ≡ length c.maps + owes is_map is_insert job s

  -- A step that leaves the channels, and what the worker holds, as they are.
  stays-Balanced :
      (job : Job) (s s' : Spot) (c : Channels W) (w : W)
      → holds_lock s' ≡ holds_lock s
      → holds_conn s' ≡ holds_conn s
      → owes is_set_done is_insert job s' ≡ owes is_set_done is_insert job s
      → owes is_get_done is_check job s' ≡ owes is_get_done is_check job s
      → owes is_int is_check job s' ≡ owes is_int is_check job s
      → (randomize ≡ true → owes is_map is_insert job s' ≡ owes is_map is_insert job s)
      → Balanced job s c (s', record c { server = w })
  stays-Balanced job s s' c w lock conn set got int map = record {
    locks = omega (arith, lock);
    lock_room = λ le. le;
    conns = inl (omega (arith, conn));
    sets = omega (arith, set);
    gets = omega (arith, got);
    results = omega (arith, int);
    captures = λ e. omega (arith, map e);
  }

  -- A worker that gets a connection starts its loop.
  start_spot-Balanced :
      (job : Job) (s : Spot) (c : Channels W) (n : ℕ)
      → ((f : Send → ℕ) (b : Job → ℕ) → owes f b job s ≡ b job)
      → holds_lock s ≡ 1
      → c.cli + holds_conn s ≡ n + 1
      → Balanced job s c (start_spot out flags job, record c { cli = n })
  start_spot-Balanced (inserting r) s c n owed lock conn = record {
    locks = omega (arith, lock);
    lock_room = λ le. le;
    conns = inl (omega (arith, conn));
    sets = omega (arith, owed is_set_done is_insert);
    gets = omega (arith, owed is_get_done is_check);
    results = omega (arith, owed is_int is_check);
    captures = λ e. omega (arith, owed is_map is_insert);
  }
  start_spot-Balanced (checking ps) s c n owed lock conn = record {
    locks = omega (arith, lock);
    lock_room = λ le. le;
    conns = inl (omega (arith, conn));
    sets = omega (arith, owed is_set_done is_insert);
    gets = omega (arith, owed is_get_done is_check);
    results = omega (arith, owed is_int is_check);
    captures = λ e. omega (arith, owed is_map is_insert);
  }

  after_set-Balanced :
      (r i : ℕ) (m m' : Pairs) (c : Channels W) (o : Option W)
      → IfMoves (Balanced (inserting r) (at_set i m) c) (after_set out flags i m' c o)
  after_set-Balanced r i m m' c none = tt
  after_set-Balanced r i m m' c (some w) =
      stays-Balanced (inserting r) (at_set i m) (at_set (i + 1) m') c w refl refl refl refl refl
        (λ e. refl)

  insert_sends-Balanced :
      (r i : ℕ) (m : Pairs) (c : Channels W) (b : Bool)
      → randomize ≡ b
      → Balanced
          (inserting r)
          (at_set i m)
          c
          (at_return (if b then send_map m ∷ send_set_done ∷ [] else send_set_done ∷ []), c)
  insert_sends-Balanced r i m c true e =
      stays-Balanced (inserting r) (at_set i m) _ c c.server refl refl refl refl refl (λ u. refl)
  insert_sends-Balanced r i m c false e =
      stays-Balanced (inserting r) (at_set i m) _ c c.server refl refl refl refl refl
        (λ u. absurd (cc))

  set_step-Balanced :
      (r i : ℕ) (m : Pairs) (c : Channels W)
      → IfMoves (Balanced (inserting r) (at_set i m) c) (set_step out flags r i m c)
  unfolding set_step
  set_step-Balanced r i m c = elim (Bool-cases (ltb i flags.items)) [
    | inl e ↦ rw e (after_set-Balanced r i m _ c _)
    | inr e ↦ rw e (insert_sends-Balanced r i m c randomize refl)
  ]

  after_check-Balanced :
      (ps rest rest' : Pairs) (n : ℕ) (c : Channels W) (o : Run W)
      → IfMoves (Balanced (checking ps) (at_check rest n) c) (after_check out flags rest' n c o)
  after_check-Balanced ps rest rest' n c (fault why) = tt
  after_check-Balanced ps rest rest' n c (ok w) =
      stays-Balanced (checking ps) (at_check rest n) (at_check rest' (n + 1)) c w refl refl refl
        refl refl (λ e. refl)

  check_sends-Balanced :
      (ps : Pairs) (n : ℕ) (c : Channels W) (b : Bool)
      → Balanced (checking ps) (at_check [] n) c (
        at_return (if b then send_int n ∷ send_get_done ∷ [] else send_get_done ∷ send_int n ∷ []),
        c,
      )
  check_sends-Balanced ps n c true =
      stays-Balanced (checking ps) (at_check [] n) _ c c.server refl refl refl refl refl (λ u. refl)
  check_sends-Balanced ps n c false =
      stays-Balanced (checking ps) (at_check [] n) _ c c.server refl refl refl refl refl (λ u. refl)

  check_step-Balanced :
      (ps rest : Pairs) (n : ℕ) (c : Channels W)
      → IfMoves (Balanced (checking ps) (at_check rest n) c) (check_step out flags rest n c)
  unfolding check_step
  check_step-Balanced ps [] n c = check_sends-Balanced ps n c randomize
  check_step-Balanced ps ((k, v) ∷ rest) n c = after_check-Balanced ps ((k, v) ∷ rest) rest n c _

  put_send-Balanced :
      (job : Job) (s : Send) (rest : List Send) (c : Channels W)
      → IfMoves
          (Balanced job (at_sends (s ∷ rest)) c)
          (after_send out flags rest (put_send out flags s c))
  unfolding put_send
  put_send-Balanced job (send_map m) rest c = elim (Bool-cases (ltb (length c.maps) rounds)) [
    | inl e ↦ rw e (record {
      locks = refl;
      lock_room = λ le. le;
      conns = inl (omega arith);
      sets = omega arith;
      gets = omega arith;
      results = omega arith;
      captures = λ u. omega (arith, length-append c.maps (m ∷ []));
    })
    | inr e ↦ rw e tt
  ]
  put_send-Balanced job send_set_done rest c = elim (Bool-cases (ltb c.set_done rounds)) [
    | inl e ↦ rw e (record {
      locks = refl;
      lock_room = λ le. le;
      conns = inl (omega arith);
      sets = omega arith;
      gets = omega arith;
      results = omega arith;
      captures = λ u. omega arith;
    })
    | inr e ↦ rw e tt
  ]
  put_send-Balanced job send_get_done rest c = elim (Bool-cases (ltb c.get_done rounds)) [
    | inl e ↦ rw e (record {
      locks = refl;
      lock_room = λ le. le;
      conns = inl (omega arith);
      sets = omega arith;
      gets = omega arith;
      results = omega arith;
      captures = λ u. omega arith;
    })
    | inr e ↦ rw e tt
  ]
  put_send-Balanced job (send_int n) rest c = elim (Bool-cases (ltb (length c.ints) rounds)) [
    | inl e ↦ rw e (record {
      locks = refl;
      lock_room = λ le. le;
      conns = inl (omega arith);
      sets = omega arith;
      gets = omega arith;
      results = omega (arith, length-append c.ints (n ∷ []));
      captures = λ u. omega arith;
    })
    | inr e ↦ rw e tt
  ]

  pub worker_step-Balanced :
      (dialled : Bool) (job : Job) (s : Spot) (c : Channels W)
      → IfMoves (Balanced job s c) (worker_step out flags dialled job s c)
  unfolding worker_step
  worker_step-Balanced dialled job at_lock c = elim (Bool-cases (ltb c.par parallel)) [
    | inl e ↦ rw e (record {
      locks = omega arith;
      lock_room = λ le. ground (arith, e);
      conns = inl (omega arith);
      sets = refl;
      gets = refl;
      results = refl;
      captures = λ u. refl;
    })
    | inr e ↦ rw e tt
  ]
  worker_step-Balanced dialled job at_pool c = elim (Bool-cases (c.cli == 0)) [
    | inl e ↦ rw e (record {
      locks = refl;
      lock_room = λ le. le;
      conns = let empty = (==_iff c.cli 0).0 e in inr (empty, empty, refl, refl, refl);
      sets = refl;
      gets = refl;
      results = refl;
      captures = λ u. refl;
    })
    | inr e ↦
        rw e (start_spot-Balanced job at_pool c (c.cli - 1) (λ f b. refl) refl (ground (arith, e)))
  ]
  worker_step-Balanced true job at_dial c =
      start_spot-Balanced job at_dial c c.cli (λ f b. refl) refl (omega arith)
  worker_step-Balanced false job at_dial c = record {
    locks = refl;
    lock_room = λ le. le;
    conns = inl (omega arith);
    sets = refl;
    gets = refl;
    results = refl;
    captures = λ u. refl;
  }
  worker_step-Balanced dialled (inserting r) (at_set i m) c = set_step-Balanced r i m c
  worker_step-Balanced dialled (checking ps) (at_set i m) c = tt
  worker_step-Balanced dialled (checking ps) (at_check rest n) c = check_step-Balanced ps rest n c
  worker_step-Balanced dialled (inserting r) (at_check rest n) c = tt
  worker_step-Balanced dialled job (at_return sends) c = elim (Bool-cases (ltb c.cli parallel)) [
    | inl e ↦ rw e (record {
      locks = refl;
      lock_room = λ le. le;
      conns = inl (omega arith);
      sets = refl;
      gets = refl;
      results = refl;
      captures = λ u. refl;
    })
    | inr e ↦ rw e tt
  ]
  worker_step-Balanced dialled job (at_sends (s ∷ rest)) c = put_send-Balanced job s rest c
  worker_step-Balanced dialled job (at_sends []) c = elim (Bool-cases (c.par == 0)) [
    | inl e ↦ rw e tt
    | inr e ↦ rw e (record {
      locks = ground (arith, e);
      lock_room = λ le. omega (arith, le);
      conns = inl (omega arith);
      sets = refl;
      gets = refl;
      results = refl;
      captures = λ u. refl;
    })
  ]
  worker_step-Balanced dialled job worker_done c = tt
  worker_step-Balanced dialled job gave_up c = tt
