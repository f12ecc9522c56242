-- ===== src/Client/Workers/Stored/Items.antt =====
-- client/main.go: an item of a loop of a worker, by what the worker knows of the server.
use mathlib.Core.Path.{subst}
use nodare_db_dev.Prelude.{
  ==_iff, All, All-map, All-snoc, Bool, Bool-cases, Bytes, [], ap, arith, bytes_eq, bytes_eq_refl,
  bytes_eq_sound, false, if◌then◌else◌, inl, inr, length-append, ltb, ltb→lt, refl, set, suc, sym,
  true, ℕ, ◌++◌, ◌+◌, ◌<◌, ◌==◌, ◌∙◌, ◌∷◌, ◌≡◌, ◌≢◌, ◌≤◌,
}
use nodare_db_dev.Client.LoadTest.Words.{IsWord}
use nodare_db_dev.Client.Workers.{
  Channels, Flags, Job, Move, Outside, Pairs, Spot, at_check, at_return, at_set, check_step,
  checking, exits, inserting, moves, pair_of, put_pair, send_get_done, send_int, send_map,
  send_set_done, set_step, waits,
}
use nodare_db_dev.Client.Workers.Stored.{
  Captured, Captured-kept, InRange, Inserted, IsUsual, KeepsPairs, MapHolds, MapHolds-kept, Settled,
  WorkerHolds, call_set-Settles, pair_of-IsWord,
}
use nodare_db_dev.Server.Shutdown.Passing.{left}

-- The step does not end the process, and what holds of it if it is made.
abbrev pub IfSafe {ℓ} : {A : Type ℓ} → (A → Type 0) → Move A → Type 0
IfSafe P waits = Unit
IfSafe P exits = ⊥
IfSafe P (moves a) = P a

pub IfSafe-moves {ℓ} :
    {A : Type ℓ} (P : A → Type 0) (m : Move A) (a : A) → IfSafe P m → m ≡ moves a → P a
IfSafe-moves P m a given e = rw e at given

pub IfSafe-exits {ℓ} : {A : Type ℓ} (P : A → Type 0) (m : Move A) → IfSafe P m → m ≢ exits
IfSafe-exits P m given e = rw e at given

module _ {W : Type 0} (out : Outside W) (flags : Flags) (usual : IsUsual out flags) where
  open flags use {items, rounds, randomize}

  abbrev Knows : W → Job → Spot → Type 0
  Knows = WorkerHolds out flags usual

  abbrev Later : W → W → Type 0
  Later = KeepsPairs out flags usual

  -- What the worker knows after its step, that the server keeps its pairs, that the maps in the
  -- channel are still on it, and the room that it has then.
  abbrev pub StepHolds : ℕ → W → Job → Spot × Channels W → Type 0
  StepHolds room w job (s', c') =
      usual.serves.HasRoom room c'.server
      × WorkerHolds out flags usual c'.server job s'
      × KeepsPairs out flags usual w c'.server
      × All (MapHolds out flags usual c'.server) c'.maps

  no_key_yet :
      (r i n : ℕ) (m : Pairs)
      → (1 ≤ r) × (r ≤ rounds)
      → i < items
      → n ≤ i
      → All (λ p. (j : ℕ) × (j < n) × (p ≡ pair_of out flags r j)) m
      → All (λ p. bytes_eq p.0 (pair_of out flags r i).0 ≡ false) m
  no_key_yet r i n m (least, most) less le all =
      All-map m
        (λ p (j, below, e). elim (Bool-cases (bytes_eq p.0 (pair_of out flags r i).0)) [
          | inl hit ↦
              let same =
                usual.distinct r j r i (least, most, omega (arith, below, le, less))
                  (least, most, less)
                  (sym (ap (λ (q : Bytes × Bytes). q.0) e) ∙ bytes_eq_sound _ _ hit) in
              absurd (omega (arith, same.1, below, le))
          | inr miss ↦ miss
        ])
        all

  put_pair-fresh :
      (k v : Bytes) (m : Pairs)
      → All (λ p. bytes_eq p.0 k ≡ false) m
      → put_pair k v m ≡ m ++ (k, v) ∷ []
  unfolding put_pair
  put_pair-fresh k v [] fresh = refl
  put_pair-fresh k v ((k', v') ∷ m) (miss, fresh) =
      rw miss (ap (λ t. (k', v') ∷ t) (put_pair-fresh k v m fresh))

  put_pair-Captured :
      (w : W) (r i : ℕ) (m : Pairs)
      → (1 ≤ r) × (r ≤ rounds)
      → i < items
      → Settled out flags usual w (pair_of out flags r i)
      → Captured out flags usual w r i m
      → Captured out flags usual w r
          (i + 1)
          (put_pair (pair_of out flags r i).0 (pair_of out flags r i).1 m)
  put_pair-Captured w r i m place less settled (all, wide) =
      let fresh =
        no_key_yet r i i m place less (omega arith) (All-map m (λ p (has, at_j). at_j) all) in
      rw (put_pair-fresh _ _ m fresh) (
        All-snoc _ m _
            (All-map m (λ p (has, (j, below, e)). (has, (j, omega (arith, below), e))) all)
            (settled, (i, omega arith, refl)),
        omega (arith, wide, length-append m (pair_of out flags r i ∷ [])),
      )

  Inserted-next :
      (w w' : W) (r i : ℕ)
      → Later w w'
      → Settled out flags usual w' (pair_of out flags r i)
      → Inserted out flags usual w r i
      → Inserted out flags usual w' r (i + 1)
  Inserted-next w w' r i later settled set j less = elim (Bool-cases (j == i)) [
    | inl e ↦ let same = (==_iff j i).0 e in rw same settled
    | inr e ↦ later _ (set j (ground (arith, less, e)))
  ]

  capture_next :
      (w : W) (r n : ℕ) (m m' : Pairs) (b : Bool)
      → b ≡ true
      → Captured out flags usual w r n m'
      → Captured out flags usual w r n (if b then m' else m)
  capture_next w r n m m' b e captured = rw e captured

  insert_sends-holds :
      (w : W) (r : ℕ) (m : Pairs) (b : Bool)
      → randomize ≡ b
      → Inserted out flags usual w r items
      → (randomize ≡ true → Captured out flags usual w r items m)
      → Knows w
          (inserting r)
          (at_return (if b then send_map m ∷ send_set_done ∷ [] else send_set_done ∷ []))
  insert_sends-holds w r m true e set captured =
      let (all, wide) = captured e in
      (set, ((e, (All-map m (λ p (has, place). has) all, wide)), (tt, tt)))
  insert_sends-holds w r m false e set captured = (set, (tt, tt))

  pub set_step-holds :
      (r i room : ℕ) (m : Pairs) (c : Channels W)
      → usual.serves.HasRoom (suc room) c.server
      → All (MapHolds out flags usual c.server) c.maps
      → Knows c.server (inserting r) (at_set i m)
      → IfSafe (StepHolds room c.server (inserting r)) (set_step out flags r i m c)
  unfolding set_step
  set_step-holds r i room m c has_room maps ((least, most, le), set, captured) =
      elim (Bool-cases (ltb i items)) [
        | inl e ↦
            let less = ltb→lt i items e in
            let (w', run, later, settled, left) =
              call_set-Settles out flags usual c.server r i room (least, most, less) has_room in
            rw (e, run)
              (
                left,
                (
                  (least, most, omega (arith, less)),
                  Inserted-next c.server w' r i later settled set,
                  λ random. capture_next w' r (i + 1) m _ randomize random (
                      put_pair-Captured w' r i m (least, most) less settled
                        (Captured-kept out flags usual c.server w' r i m later (captured random))),
                ),
                later,
                All-map c.maps (λ t. MapHolds-kept out flags usual c.server w' t later) maps,
              )
        | inr e ↦
            let all : i ≡ items = ground (arith, e, le) in
            rw e (
              usual.serves.less_room room c.server has_room,
              (insert_sends-holds c.server r m randomize refl
                  (subst (λ n. Inserted out flags usual c.server r n) all set)
                  (λ random.
                    subst (λ n. Captured out flags usual c.server r n m) all (captured random))),
              λ p settled. settled,
              maps,
            )
      ]

  check_sends-holds :
      (w : W) (ps : Pairs) (n : ℕ) (b : Bool)
      → Knows w (checking ps) (
          at_return
            (if b then send_int n ∷ send_get_done ∷ [] else send_get_done ∷ send_int n ∷ []))
  check_sends-holds w ps n true = (tt, (tt, tt))
  check_sends-holds w ps n false = (tt, (tt, tt))

  place_of-IsWord :
      (p : Bytes × Bytes)
      → (r : ℕ) × (i : ℕ) × InRange out flags r i × (p ≡ pair_of out flags r i)
      → IsWord p.0 × IsWord p.1
  place_of-IsWord p (r, i, place, e) =
      subst (λ (q : Bytes × Bytes). IsWord q.0 × IsWord q.1) (sym e)
        (pair_of-IsWord out flags usual r i)

  pub check_step-holds :
      (ps rest : Pairs) (n room : ℕ) (c : Channels W)
      → usual.serves.HasRoom (suc room) c.server
      → All (MapHolds out flags usual c.server) c.maps
      → Knows c.server (checking ps) (at_check rest n)
      → IfSafe (StepHolds room c.server (checking ps)) (check_step out flags rest n c)
  unfolding check_step
  check_step-holds ps [] n room c has_room maps knows = (
    usual.serves.less_room room c.server has_room,
    check_sends-holds c.server ps n randomize,
    λ p settled. settled,
    maps,
  )
  check_step-holds ps ((k, v) ∷ rest) n room c has_room maps (((has, place), all), wide) =
      let (key_word, val_word) = place_of-IsWord (k, v) place in
      let (w', run, same, left) =
        usual.serves.gets (suc room) c.server k v key_word val_word has_room has in
      let later : Later c.server w' = λ p (had, place'). (same p.0 ∙ had, place') in
      rw (run, bytes_eq_refl v)
        (
          usual.serves.less_room room w' left,
          (All-map rest later all, omega (arith, wide)),
          later,
          All-map c.maps (λ t. MapHolds-kept out flags usual c.server w' t later) maps,
        )
