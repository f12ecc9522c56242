-- ===== src/Client/Workers/Stored.antt =====
-- client/main.go: what the workers of the load test know of the server, whatever the order of
-- their steps.
pub mod Items
pub mod Steps
pub mod Jobs
pub mod Main
pub mod Reached
use nodare_db_dev.Prelude.{
  All, All-map, Bool-cases, Bytes, ap, bytes_eq, bytes_eq_refl, bytes_eq_sound, inl, inr, length,
  refl, set, some, suc, sym, true, ℕ, ◌+◌, ◌<◌, ◌∙◌, ◌≡◌, ◌≤◌,
}
use nodare_db_dev.Client.LoadTest.Checked.{IsMapServer}
use nodare_db_dev.Client.LoadTest.Words.{
  IsWord, count_key-IsWord, count_val-IsWord, dev_urandom_string-IsWord,
}
use nodare_db_dev.Client.Workers.{
  Flags, Job, Outside, Pairs, Send, Spot, at_check, at_dial, at_lock, at_pool, at_return, at_sends,
  at_set, checking, gave_up, inserting, pair_of, send_get_done, send_int, send_map, send_set_done,
  worker_done,
}
use nodare_db_dev.Server.Session.{key_limit}
use nodare_db_dev.Server.Shutdown.Passing.{left}

-- The order of the range over a map: it meets each item, and as many as there are.
pub record IsRange (range_of : Pairs → Pairs) : Type 1 where
  pub ranges_all : (P : Bytes × Bytes → Type 0) (m : Pairs) → All P m → All P (range_of m)
  pub ranges_length : (m : Pairs) → length (range_of m) ≡ length m

module _ {W : Type 0} (out : Outside W) (flags : Flags) where
  open flags use {items, rounds, randomize}

  abbrev pub InRange : ℕ → ℕ → Type 0
  InRange r i = (1 ≤ r) × (r ≤ rounds) × (i < items)

  -- No key is used twice.
  abbrev pub Distinct : Type 0
  Distinct =
      (r i r' i' : ℕ)
      → InRange r i
      → InRange r' i'
      → (pair_of out flags r i).0 ≡ (pair_of out flags r' i').0
      → (r ≡ r') × (i ≡ i')

  -- The server keeps a map of words, the range over a map is one, no key is used twice, and
  -- random keys and values, where the test uses them, are made of bytes and are within the server's
  -- limit.
  pub record IsUsual : Type 1 where
    pub serves : IsMapServer out.calls
    pub ranges : IsRange out.range_of
    pub distinct : Distinct
    pub bytes_in :
        randomize ≡ true → (r i k : ℕ) → (out.key_bytes r i k < 256) × (out.val_bytes r i k < 256)
    pub fits : randomize ≡ true → (flags.keylen ≤ key_limit) × (flags.vallen ≤ key_limit)

  module _ (usual : IsUsual) where
    pub pair_of-IsWord :
        (r i : ℕ) → IsWord (pair_of out flags r i).0 × IsWord (pair_of out flags r i).1
    unfolding pair_of
    pair_of-IsWord r i = elim (Bool-cases randomize) [
      | inl e ↦ rw e (
        dev_urandom_string-IsWord flags.keylen (out.key_bytes r i) (usual.fits e).0
            (λ k. (usual.bytes_in e r i k).0),
        dev_urandom_string-IsWord flags.vallen (out.val_bytes r i) (usual.fits e).1
            (λ k. (usual.bytes_in e r i k).1),
      )
      | inr e ↦
          rw e (count_key-IsWord (flags.startint + i) r, count_val-IsWord (flags.startint + i) r)
    ]

    -- A pair of the test that the server has.
    abbrev pub Settled : W → Bytes × Bytes → Type 0
    Settled w p =
        (usual.serves.view_of w p.0 ≡ some p.1)
        × ((r : ℕ) × (i : ℕ) × InRange r i × (p ≡ pair_of out flags r i))

    abbrev pub Inserted : W → ℕ → ℕ → Type 0
    Inserted w r n = (i : ℕ) → i < n → Settled w (pair_of out flags r i)

    -- The captured map of the first `n` items of a round.
    abbrev pub Captured : W → ℕ → ℕ → Pairs → Type 0
    Captured w r n m =
        All (λ p. Settled w p × ((i : ℕ) × (i < n) × (p ≡ pair_of out flags r i))) m
        × (length m ≡ n)

    abbrev pub MapHolds : W → Pairs → Type 0
    MapHolds w m = All (Settled w) m × (length m ≡ items)

    abbrev pub SendHolds : W → Send → Type 0
    SendHolds w (send_map m) = (randomize ≡ true) × MapHolds w m
    SendHolds w send_set_done = Unit
    SendHolds w send_get_done = Unit
    SendHolds w (send_int n) = Unit

    abbrev pub WorkerHolds : W → Job → Spot → Type 0
    WorkerHolds w (inserting r) at_lock = (1 ≤ r) × (r ≤ rounds)
    WorkerHolds w (inserting r) at_pool = (1 ≤ r) × (r ≤ rounds)
    WorkerHolds w (inserting r) at_dial = (1 ≤ r) × (r ≤ rounds)
    WorkerHolds w (inserting r) gave_up = (1 ≤ r) × (r ≤ rounds)
    WorkerHolds w (inserting r) (at_set i m) =
        ((1 ≤ r) × (r ≤ rounds) × (i ≤ items))
        × Inserted w r i
        × (randomize ≡ true → Captured w r i m)
    WorkerHolds w (inserting r) (at_check rest n) = ⊥
    WorkerHolds w (inserting r) (at_return sends) = Inserted w r items × All (SendHolds w) sends
    WorkerHolds w (inserting r) (at_sends sends) = Inserted w r items × All (SendHolds w) sends
    WorkerHolds w (inserting r) worker_done = Inserted w r items
    WorkerHolds w (checking ps) at_lock = All (Settled w) ps
    WorkerHolds w (checking ps) at_pool = All (Settled w) ps
    WorkerHolds w (checking ps) at_dial = All (Settled w) ps
    WorkerHolds w (checking ps) gave_up = Unit
    WorkerHolds w (checking ps) (at_set i m) = ⊥
    WorkerHolds w (checking ps) (at_check rest n) =
        All (Settled w) rest × (n + length rest ≡ length ps)
    WorkerHolds w (checking ps) (at_return sends) = All (SendHolds w) sends
    WorkerHolds w (checking ps) (at_sends sends) = All (SendHolds w) sends
    WorkerHolds w (checking ps) worker_done = Unit

    -- Later states of the server have what was settled.
    abbrev pub KeepsPairs : W → W → Type 0
    KeepsPairs w w' = (p : Bytes × Bytes) → Settled w p → Settled w' p

    pub MapHolds-kept : (w w' : W) (m : Pairs) → KeepsPairs w w' → MapHolds w m → MapHolds w' m
    MapHolds-kept w w' m keeps (all, wide) = (All-map m (λ p. keeps p) all, wide)

    SendHolds-kept : (w w' : W) (s : Send) → KeepsPairs w w' → SendHolds w s → SendHolds w' s
    SendHolds-kept w w' (send_map m) keeps (e, holds) = (e, MapHolds-kept w w' m keeps holds)
    SendHolds-kept w w' send_set_done keeps holds = tt
    SendHolds-kept w w' send_get_done keeps holds = tt
    SendHolds-kept w w' (send_int n) keeps holds = tt

    pub Captured-kept :
        (w w' : W) (r n : ℕ) (m : Pairs) → KeepsPairs w w' → Captured w r n m → Captured w' r n m
    Captured-kept w w' r n m keeps (all, wide) =
        (All-map m (λ p (settled, place). (keeps p settled, place)) all, wide)

    pub WorkerHolds-kept :
        (w w' : W) (job : Job) (s : Spot)
        → KeepsPairs w w'
        → WorkerHolds w job s
        → WorkerHolds w' job s
    WorkerHolds-kept w w' (inserting r) at_lock keeps holds = holds
    WorkerHolds-kept w w' (inserting r) at_pool keeps holds = holds
    WorkerHolds-kept w w' (inserting r) at_dial keeps holds = holds
    WorkerHolds-kept w w' (inserting r) gave_up keeps holds = holds
    WorkerHolds-kept w w' (inserting r) (at_set i m) keeps (place, set, captured) =
        (place, λ j less. keeps _ (set j less), λ e. Captured-kept w w' r i m keeps (captured e))
    WorkerHolds-kept w w' (inserting r) (at_check rest n) keeps holds = holds
    WorkerHolds-kept w w' (inserting r) (at_return sends) keeps (set, all) =
        (λ j less. keeps _ (set j less), All-map sends (λ s. SendHolds-kept w w' s keeps) all)
    WorkerHolds-kept w w' (inserting r) (at_sends sends) keeps (set, all) =
        (λ j less. keeps _ (set j less), All-map sends (λ s. SendHolds-kept w w' s keeps) all)
    WorkerHolds-kept w w' (inserting r) worker_done keeps set = λ j less. keeps _ (set j less)
    WorkerHolds-kept w w' (checking ps) at_lock keeps all = All-map ps keeps all
    WorkerHolds-kept w w' (checking ps) at_pool keeps all = All-map ps keeps all
    WorkerHolds-kept w w' (checking ps) at_dial keeps all = All-map ps keeps all
    WorkerHolds-kept w w' (checking ps) gave_up keeps holds = holds
    WorkerHolds-kept w w' (checking ps) (at_set i m) keeps holds = holds
    WorkerHolds-kept w w' (checking ps) (at_check rest n) keeps (all, wide) =
        (All-map rest keeps all, wide)
    WorkerHolds-kept w w' (checking ps) (at_return sends) keeps all =
        All-map sends (λ s. SendHolds-kept w w' s keeps) all
    WorkerHolds-kept w w' (checking ps) (at_sends sends) keeps all =
        All-map sends (λ s. SendHolds-kept w w' s keeps) all
    WorkerHolds-kept w w' (checking ps) worker_done keeps holds = holds

    -- A set of a pair of the test, for which there is room, keeps what is settled, and settles the
    -- pair.
    pub call_set-Settles :
        (w : W) (r i room : ℕ)
        → InRange r i
        → usual.serves.HasRoom (suc room) w
        → (w' : W) × (out.calls.call_set w (pair_of out flags r i).0 (pair_of out flags r i).1
            ≡ some w')
          × KeepsPairs w w'
          × Settled w' (pair_of out flags r i)
          × usual.serves.HasRoom room w'
    call_set-Settles w r i room place has_room =
        let (key_word, val_word) = pair_of-IsWord r i in
        let (w', run, seen, left) =
          usual.serves.sets room w (pair_of out flags r i).0 (pair_of out flags r i).1 key_word
            val_word has_room in
        (
          w',
          run,
          λ p (has, (r', i', place', e)). (
            elim (Bool-cases (bytes_eq (pair_of out flags r i).0 p.0)) [
              | inl hit ↦
                  let same =
                    usual.distinct r i r' i' place place'
                      (bytes_eq_sound _ _ hit ∙ ap (λ q. q.0) e) in
                  let pair : pair_of out flags r i ≡ p = rw (same.0, same.1) (sym e) in
                  seen p.0 ∙ rw hit (ap (λ (q : Bytes × Bytes). some q.1) pair)
              | inr miss ↦ seen p.0 ∙ rw miss has
            ],
            (r', i', place', e),
          ),
          (
            seen (pair_of out flags r i).0 ∙ rw (bytes_eq_refl (pair_of out flags r i).0) refl,
            (r, i, place, refl),
          ),
          left,
        )
