-- ===== src/Client/Workers/Stored/Jobs.antt =====
-- client/main.go: the rounds that are inserted, by the jobs of the workers.
use mathlib.Core.Path.{subst}
use nodare_db_dev.Prelude.{
  All, List, [], ap, arith, inl, inr, length, refl, set, some, suc, sym, zero, ℕ, ◌++◌, ◌+◌, ◌<◌,
  ◌∙◌, ◌∷◌, ◌≡◌, ◌≤◌, ◌⊎◌,
}
use nodare_db_dev.Client.Workers.{
  Flags, Job, Outside, Spot, Worker, at_check, at_dial, at_lock, at_pool, at_return, at_sends,
  at_set, gave_up, inserting, worker_done,
}
use nodare_db_dev.Client.Workers.Counts.{is_insert, is_set_done, owed_by, owes}
use nodare_db_dev.Client.Workers.Main.{count_rounds, pairs_from}
use nodare_db_dev.Client.Workers.Runs.{worker_at}
use nodare_db_dev.Client.Workers.Stored.{Inserted, IsUsual, MapHolds, Settled, WorkerHolds}

pub All-worker_at :
    (P : Worker → Type 0) (ws : List Worker) (n : ℕ) (w : Worker)
    → worker_at n ws ≡ some w
    → All P ws
    → P w
unfolding worker_at
All-worker_at P [] n w e all = absurd (cc)
All-worker_at P (x ∷ ws) zero w e (holds, all) = let same : x ≡ w = cc in subst P same holds
All-worker_at P (x ∷ ws) (suc n) w e (holds, all) = All-worker_at P ws n w e all

pub All-set :
    (P : Worker → Type 0) (ws : List Worker) (n : ℕ) (v : Worker)
    → All P ws
    → P v
    → All P (set ws n v)
All-set P [] n v all new = tt
All-set P (x ∷ ws) zero v (holds, all) new = (new, all)
All-set P (x ∷ ws) (suc n) v (holds, all) new = (holds, All-set P ws n v all new)

-- Some worker has the job.
abbrev pub HasJob : Job → List Worker → Type 0
HasJob job [] = ⊥
HasJob job (x ∷ ws) = (x.job ≡ job) ⊎ HasJob job ws

pub HasJob-set :
    (job : Job) (ws : List Worker) (n : ℕ) (w : Worker) (s : Spot)
    → worker_at n ws ≡ some w
    → HasJob job ws
    → HasJob job (set ws n (record w { spot = s }))
unfolding worker_at
HasJob-set job [] n w s e has = has
HasJob-set job (x ∷ ws) zero w s e (inl same) =
    let found : x ≡ w = cc in inl (ap (λ y. y.job) (sym found) ∙ same)
HasJob-set job (x ∷ ws) zero w s e (inr has) = inr has
HasJob-set job (x ∷ ws) (suc n) w s e (inl same) = inl same
HasJob-set job (x ∷ ws) (suc n) w s e (inr has) = inr (HasJob-set job ws n w s e has)

pub HasJob-append :
    (job : Job) (ws : List Worker) (v : Worker) → HasJob job ws → HasJob job (ws ++ v ∷ [])
HasJob-append job [] v has = absurd has
HasJob-append job (x ∷ ws) v (inl same) = inl same
HasJob-append job (x ∷ ws) v (inr has) = inr (HasJob-append job ws v has)

pub HasJob-new : (ws : List Worker) (v : Worker) → HasJob v.job (ws ++ v ∷ [])
HasJob-new [] v = inl refl
HasJob-new (x ∷ ws) v = inr (HasJob-new ws v)

module _ {W : Type 0} (out : Outside W) (flags : Flags) (usual : IsUsual out flags) where
  open flags use {items}

  abbrev pub AllHold : W → List Worker → Type 0
  AllHold w = All (λ x. WorkerHolds out flags usual w x.job x.spot)

  -- A worker that owes no message on `SetDoneChan` has inserted its round.
  owes_none :
      (w : W) (r : ℕ) (s : Spot)
      → WorkerHolds out flags usual w (inserting r) s
      → owes is_set_done is_insert (inserting r) s ≡ 0
      → Inserted out flags usual w r items
  owes_none w r at_lock holds e = absurd (omega (arith, e))
  owes_none w r at_pool holds e = absurd (omega (arith, e))
  owes_none w r at_dial holds e = absurd (omega (arith, e))
  owes_none w r (at_set i m) holds e = absurd (omega (arith, e))
  owes_none w r (at_check rest n) holds e = absurd holds
  owes_none w r (at_return sends) (set, all) e = set
  owes_none w r (at_sends sends) (set, all) e = set
  owes_none w r worker_done set e = set
  owes_none w r gave_up holds e = absurd (omega (arith, e))

  pub all_owe_none :
      (w : W) (r : ℕ) (ws : List Worker)
      → AllHold w ws
      → owed_by is_set_done is_insert ws ≡ 0
      → HasJob (inserting r) ws
      → Inserted out flags usual w r items
  all_owe_none w r [] all e has = absurd has
  all_owe_none w r (x ∷ ws) (holds, all) e (inl same) =
      owes_none w r x.spot (subst (λ j. WorkerHolds out flags usual w j x.spot) same holds)
        (ap (λ j. owes is_set_done is_insert j x.spot) (sym same) ∙ omega (arith, e))
  all_owe_none w r (x ∷ ws) (holds, all) e (inr has) =
      all_owe_none w r ws all (omega (arith, e)) has

  pairs_from-Settled :
      (w : W) (r n i : ℕ)
      → n + i ≤ items
      → Inserted out flags usual w r items
      → All (Settled out flags usual w) (pairs_from out flags n i r)
        × (length (pairs_from out flags n i r) ≡ n)
  unfolding pairs_from
  pairs_from-Settled w r zero i le set = (tt, refl)
  pairs_from-Settled w r (suc n) i le set =
      let (all, wide) = pairs_from-Settled w r n (i + 1) (omega (arith, le)) set in
      ((set i (omega (arith, le)), all), ap suc wide)

  pub count_rounds-hold :
      (w : W) (n r : ℕ)
      → ((r' : ℕ) → r ≤ r' → r' < r + n → Inserted out flags usual w r' items)
      → All (MapHolds out flags usual w) (count_rounds out flags n r)
  unfolding count_rounds
  count_rounds-hold w zero r set = tt
  count_rounds-hold w (suc n) r set = (
    pairs_from-Settled w r items 0 (omega arith) (set r (omega arith) (omega arith)),
    count_rounds-hold w n (r + 1) (λ r' lo hi. set r' (omega (arith, lo)) (omega (arith, hi))),
  )
