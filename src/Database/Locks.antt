-- ===== src/Database/Locks.antt =====
-- database/operations.go: `Get`, `Set` and `Del` as goroutines run them, with the mutex of each
-- sub-dictionary. What a call does between Lock and Unlock is one read of the sub-dictionary and,
-- any number of steps of the others later, one write of it.
pub mod Commit
pub mod Owners
pub mod Linear
use nodare_db_dev.Prelude.{
  Bool, Bytes, List, Run, [], at, false, if◌then◌else◌, ok, true, ℕ, ◌==◌, ◌>>=◌, ◌∷◌,
}
use nodare_db_dev.Database.Dick.{XDick, del_error, put_sub, sub_index, sub_set, value_of}
use nodare_db_dev.Database.Refines.{Reply, Request, del_key, error, get_key, set_key, value}
use nodare_db_dev.Database.Sub.{SubDick, del, get}

abbrev pub key_of : Request → Bytes
key_of (get_key k) = k
key_of (set_key k v) = k
key_of (del_key k) = k

-- Where a goroutine stands: at no call; with the lock of a sub-dictionary; with that
-- sub-dictionary read; and with it written, before the return unlocks it.
pub data Thread : Type 0 where
  resting : Thread
  holding : ℕ → Request → Thread
  loaded : ℕ → Request → SubDick → Thread
  written_back : ℕ → Thread

-- The goroutines by number, the mutexes by sub-dictionary, and the calls that wrote, the latest first.
pub record System : Type 0 where
  pub dick : XDick
  pub is_locked : ℕ → Bool
  pub thread : ℕ → Thread
  pub log : List (Request × Reply)

-- A goroutine calls a method, or takes its next step.
pub data Act : Type 0 where
  call : ℕ → Request → Act
  go_on : ℕ → Act

abbrev pub put {ℓ} : {A : Type ℓ} → (ℕ → A) → ℕ → A → ℕ → A
put f i a j = if i == j then a else f j

-- `Lock` waits while the mutex is taken: nothing changes.
abbrev pub lock : System → ℕ → ℕ → Request → System
lock w i x r =
    if w.is_locked x
    then w
    else record w { is_locked = put w.is_locked x true; thread = put w.thread i (holding x r) }

module _ (hash : Bytes → Run ℕ) (pcas : Bytes → ℕ) where
  -- The body of a method on the sub-dictionary of its key.
  unfoldable pub sub_step : SubDick → Request → Run (SubDick × Reply)
  sub_step s (get_key k) = do r ← get hash s k; ok (s, value (value_of r))
  sub_step s (set_key k v) = do (s', e) ← sub_set hash pcas s k v; ok (s', error e)
  sub_step s (del_key k) = do (s', found) ← del hash s k; ok (s', error (del_error found))

  abbrev pub call_step : System → ℕ → Request → Thread → Run System
  call_step w i r resting = do x ← sub_index pcas w.dick (key_of r); ok (lock w i x r)
  call_step w i r (holding x q) = ok w
  call_step w i r (loaded x q s) = ok w
  call_step w i r (written_back x) = ok w

  abbrev pub go_step : System → ℕ → Thread → Run System
  go_step w i resting = ok w
  go_step w i (holding x r) = do
    s ← at w.dick.sub_dicks x
    ok (record w { thread = put w.thread i (loaded x r s) })
  go_step w i (loaded x r s) = do
    (s', reply) ← sub_step s r
    ok (record w {
      dick = put_sub w.dick x s';
      thread = put w.thread i (written_back x);
      log = (r, reply) ∷ w.log;
    })
  go_step w i (written_back x) =
      ok (record w { is_locked = put w.is_locked x false; thread = put w.thread i resting })

  unfoldable pub act_step : System → Act → Run System
  act_step w (call i r) = call_step w i r (w.thread i)
  act_step w (go_on i) = go_step w i (w.thread i)

  unfoldable pub run_acts : List Act → System → Run System
  run_acts [] w = ok w
  run_acts (a ∷ acts) w = do next ← act_step w a; run_acts acts next

-- No goroutine is at a call.
unfoldable pub new_system : XDick → System
new_system d = record { dick = d; is_locked = λ x. false; thread = λ i. resting; log = [] }
