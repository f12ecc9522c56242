-- ===== src/Client/Workers.antt =====
-- client/main.go: the workers of the load test and their channels. A step of the program is one
-- channel operation, one call of the client library, or one start of a goroutine; steps of the
-- goroutines come in any order. The sleeps, which only make some orders more likely, and the messages
-- are left out.
pub mod Main
pub mod Runs
pub mod Counts
pub mod Balance
pub mod Counted
pub mod Stored
pub mod Counting
pub mod Totals
pub mod Summed
pub mod Ready
pub mod Advance
pub mod Finishes
pub mod Measured
pub mod Bounded
pub mod OverHttp
pub mod Stuck
use nodare_db_dev.Prelude.{
  Bool, Bytes, List, Option, Run, [], bytes_eq, fault, if◌then◌else◌, length, ltb, none, ok, some,
  ℕ, ◌++◌, ◌+◌, ◌-◌, ◌==◌, ◌∷◌,
}
use nodare_db_dev.Client.LoadTest.{Calls, count_key, count_val, verify}
use nodare_db_dev.Client.LoadTest.Random.{dev_urandom_string}

abbrev pub Pairs : Type 0
Pairs = List (Bytes × Bytes)

-- The flags.
pub record Flags : Type 0 where
  pub items : ℕ
  pub rounds : ℕ
  pub parallel : ℕ
  pub startint : ℕ
  pub randomize : Bool
  pub keylen : ℕ
  pub vallen : ℕ

-- What the program calls, with a state of the server of type `W`: the client library, the random
-- bytes for the key and the value of an item of a round, and the order in which the range over a
-- map meets its items.
pub record Outside (W : Type 0) : Type 0 where
  pub calls : Calls W
  pub key_bytes : ℕ → ℕ → ℕ → ℕ
  pub val_bytes : ℕ → ℕ → ℕ → ℕ
  pub range_of : Pairs → Pairs

-- `testmap[key] = val`.
unfoldable pub put_pair : Bytes → Bytes → Pairs → Pairs
put_pair key val [] = (key, val) ∷ []
put_pair key val ((k, v) ∷ testmap) =
    if bytes_eq k key then (key, val) ∷ testmap else (k, v) ∷ put_pair key val testmap

-- The function of a goroutine: the insertions of a round, or the check of some pairs.
pub data Job : Type 0 where
  inserting : ℕ → Job
  checking : Pairs → Job

pub data Send : Type 0 where
  send_map : Pairs → Send
  send_set_done send_get_done : Send
  send_int : ℕ → Send

-- Where a worker stands: at `parChan <-`, at the `select`, in `NewCli`, in the loop of the
-- insertions with the items that are set, in the loop of the check with the pairs that are left, at
-- `cliChan <-`, at the sends that are left before `<-parChan`, at its end, and at the early return.
pub data Spot : Type 0 where
  at_lock at_pool at_dial : Spot
  at_set : ℕ → Pairs → Spot
  at_check : Pairs → ℕ → Spot
  at_return : List Send → Spot
  at_sends : List Send → Spot
  worker_done gave_up : Spot

pub record Worker : Type 0 where
  pub job : Job
  pub spot : Spot

-- The items in each channel: of `parChan` and `cliChan` their number, since one is like another.
pub record Channels (W : Type 0) : Type 0 where
  pub server : W
  pub par : ℕ
  pub cli : ℕ
  pub set_done : ℕ
  pub get_done : ℕ
  pub maps : List Pairs
  pub ints : List ℕ

-- A step that has to wait, one that ends the process by `log.Fatalf`, and one that is made.
pub data Move {ℓ} (A : Type ℓ) : Type ℓ where
  waits exits : Move A
  moves : A → Move A

-- The main goroutine: at the start of the insertions, with the number of workers that are started,
-- at each of its receives, with what it has got there, and at the start of the checks.
pub data MainSpot : Type 0 where
  at_inserts at_set_done : ℕ → MainSpot
  at_maps at_checks : List Pairs → MainSpot
  at_get_done at_ints at_stop : ℕ → MainSpot

pub record Program (W : Type 0) : Type 0 where
  pub workers : List Worker
  pub main : MainSpot
  pub channels : Channels W

module _ {W : Type 0} (out : Outside W) (flags : Flags) where
  open flags use {items, rounds, parallel, startint, randomize}

  -- The key and the value of the item `i`, from 0, of the round `r`.
  unfoldable pub pair_of : ℕ → ℕ → Bytes × Bytes
  pair_of r i =
      if randomize
      then (
        dev_urandom_string flags.keylen (out.key_bytes r i),
        dev_urandom_string flags.vallen (out.val_bytes r i),
      )
      else (count_key (startint + i) r, count_val (startint + i) r)

  abbrev pub start_spot : Job → Spot
  start_spot (inserting r) = at_set 0 []
  start_spot (checking pairs) = at_check pairs 0

  abbrev pub insert_sends : Pairs → List Send
  insert_sends testmap =
      if randomize then send_map testmap ∷ send_set_done ∷ [] else send_set_done ∷ []

  abbrev pub check_sends : ℕ → List Send
  check_sends checked =
      if randomize
      then send_int checked ∷ send_get_done ∷ []
      else send_get_done ∷ send_int checked ∷ []

  -- Each of these channels has room for `rounds` items.
  unfoldable pub put_send : Send → Channels W → Option (Channels W)
  put_send (send_map testmap) c =
      if ltb (length c.maps) rounds then some (record c { maps = c.maps ++ testmap ∷ [] }) else none
  put_send send_set_done c =
      if ltb c.set_done rounds then some (record c { set_done = c.set_done + 1 }) else none
  put_send send_get_done c =
      if ltb c.get_done rounds then some (record c { get_done = c.get_done + 1 }) else none
  put_send (send_int checked) c =
      if ltb (length c.ints) rounds then some (record c { ints = c.ints ++ checked ∷ [] }) else none

  abbrev pub after_send : List Send → Option (Channels W) → Move (Spot × Channels W)
  after_send rest none = waits
  after_send rest (some c) = moves (at_sends rest, c)

  abbrev pub after_set : ℕ → Pairs → Channels W → Option W → Move (Spot × Channels W)
  after_set i testmap c none = exits
  after_set i testmap c (some w) = moves (at_set (i + 1) testmap, record c { server = w })

  abbrev pub after_check : Pairs → ℕ → Channels W → Run W → Move (Spot × Channels W)
  after_check rest checked c (fault why) = exits
  after_check rest checked c (ok w) = moves (at_check rest (checked + 1), record c { server = w })

  -- The item `i` of the loop of the insertions of the round `r`.
  unfoldable pub set_step : ℕ → ℕ → Pairs → Channels W → Move (Spot × Channels W)
  set_step r i testmap c =
      if ltb i items
      then (let (key, val) = pair_of r i in
          after_set i (if randomize then put_pair key val testmap else testmap) c
            (out.calls.call_set c.server key val))
      else moves (at_return (insert_sends testmap), c)

  unfoldable pub check_step : Pairs → ℕ → Channels W → Move (Spot × Channels W)
  check_step [] checked c = moves (at_return (check_sends checked), c)
  check_step ((key, val) ∷ rest) checked c =
      after_check rest checked c (verify out.calls val (out.calls.call_get c.server key))

  -- `dialled` says whether a call of `NewCli` succeeds.
  unfoldable pub worker_step : Bool → Job → Spot → Channels W → Move (Spot × Channels W)
  worker_step dialled job at_lock c =
      if ltb c.par parallel then moves (at_pool, record c { par = c.par + 1 }) else waits
  worker_step dialled job at_pool c =
      if c.cli == 0
      then moves (at_dial, c)
      else moves (start_spot job, record c { cli = c.cli - 1 })
  worker_step dialled job at_dial c =
      if dialled then moves (start_spot job, c) else moves (gave_up, c)
  worker_step dialled (inserting r) (at_set i testmap) c = set_step r i testmap c
  worker_step dialled (checking pairs) (at_set i testmap) c = waits
  worker_step dialled (checking pairs) (at_check rest checked) c = check_step rest checked c
  worker_step dialled (inserting r) (at_check rest checked) c = waits
  worker_step dialled job (at_return sends) c =
      if ltb c.cli parallel then moves (at_sends sends, record c { cli = c.cli + 1 }) else waits
  worker_step dialled job (at_sends (s ∷ rest)) c = after_send rest (put_send s c)
  worker_step dialled job (at_sends []) c =
      if c.par == 0 then waits else moves (worker_done, record c { par = c.par - 1 })
  worker_step dialled job worker_done c = waits
  worker_step dialled job gave_up c = waits
