-- ===== src/Database/Sub.antt =====
-- database/dick.go, the methods on one sub-dictionary. The source passes `idx` and reads
-- `d.SubDICKs[idx]`; here the sub-dictionary is passed and given back. Every method runs under the
-- sub-dictionary's lock, which `Get`, `Set` and `Del` take before the first read.
pub mod Buckets
pub mod Valid
pub mod Expand
pub mod Move
pub mod Skipping
pub mod Finish
pub mod Rehash
pub mod Search
pub mod Edit
pub mod Change
pub mod Add
pub mod Delete
pub mod Ends
use nodare_db_dev.Prelude.{
  Bool, Bytes, List, Option, Run, [], at, bit_and, false, get_or, if◌then◌else◌, length, none, not,
  ok, set, some, suc, true, zero, ℕ, ◌%◌, ◌&&◌, ◌*◌, ◌+◌, ◌==◌, ◌>>=◌, ◌^◌, ◌||◌, ◌∷◌,
}
use nodare_db_dev.Database.Entry.{Chain, DickEntry, Value, assign, find, new_dick_entry, unlink}
use nodare_db_dev.Database.Table.{
  DickTable, dec, inc, initial_size, new_dick_table, next_power, slt,
}

-- `rehashidx` is -1 or an index: `none` stands for -1.
pub record SubDick : Type 0 where
  pub main_dick : DickTable
  pub rehashing_table : DickTable
  pub rehashidx : Option ℕ

unfoldable pub new_sub_dick : SubDick
unfolding new_dick_table
new_sub_dick = record {
  main_dick = new_dick_table 0;
  rehashing_table = new_dick_table 0;
  rehashidx = none;
}

abbrev pub is_some {ℓ} : {A : Type ℓ} → Option A → Bool
is_some none = false
is_some (some a) = true

abbrev pub is_rehashing : SubDick → Bool
is_rehashing s = is_some s.rehashidx

unfoldable pub expand : ℕ → SubDick → SubDick
expand new_size s =
    let next_size = next_power new_size in
    let fresh = new_dick_table next_size in
    if is_rehashing s || slt new_size s.main_dick.used
    then s
    else if not (slt s.main_dick.used next_size)
    then s
    else if length s.main_dick.table == 0
    then record s { main_dick = fresh }
    else record s { rehashing_table = fresh; rehashidx = some 0 }

unfoldable pub expand_if_needed : SubDick → SubDick
expand_if_needed s =
    if is_rehashing s
    then s
    else if length s.main_dick.table == 0
    then expand initial_size s
    else if slt s.main_dick.used s.main_dick.size
    then s
    else expand (s.main_dick.used * 2 % 2 ^ 64) s

-- An entry that a method returns: the table and the bucket it stands in, and its contents.
pub record EntryRef : Type 0 where
  pub rehashing : Bool
  pub index : ℕ
  pub entry : DickEntry

-- What the inner loop of `rehash` ends with.
pub data Skip : Type 0 where
  stopped : ℕ → Skip
  filled : ℕ → ℕ → Chain → Skip

abbrev pub is_nil : Chain → Bool
is_nil [] = true
is_nil (e ∷ c) = false

-- `for len(table) == 0 || table[rehashidx] == nil { rehashidx++; emptyVisits--; … }`. The count of
-- visits is positive whenever the loop is reached, since the method returns when it falls to 0.
unfoldable pub skip_empty : ℕ → List Chain → ℕ → Run Skip
skip_empty zero table r = ok (stopped r)
skip_empty (suc visits) table r =
    let next : Run Skip = elim visits [
      | zero ↦ ok (stopped (r + 1))
      | suc v ↦ skip_empty visits table (r + 1)
    ] in
    if length table == 0
    then next
    else at table r >>= λ chain. if is_nil chain then next else ok (filled (suc visits) r chain)

-- The new table takes the place of the main one when no entry is left there.
unfoldable pub finish_rehash : SubDick → SubDick
finish_rehash s =
    if s.main_dick.used == 0
    then record {
      main_dick = s.rehashing_table;
      rehashing_table = new_dick_table 0;
      rehashidx = none;
    }
    else s

-- One table's share of a search: the bucket of the hash and the entry found there.
unfoldable pub probe : DickTable → ℕ → Bytes → Run (ℕ × Option DickEntry)
probe t h key = do
  let index = bit_and h t.sizemask
  chain ← at t.table index
  ok (index, find key chain)

unfoldable pub add_entry : DickTable → ℕ → Bytes → Value → Run DickTable
add_entry t x key value = do
  chain ← at t.table x
  let fresh = new_dick_entry key value
  let t' = record t { table = set t.table x (fresh ∷ chain); used = inc t.used }
  if is_some (find key chain) then ok t else ok t'

-- One table's share of `del`: the entry, and the table without it.
unfoldable pub remove_entry : DickTable → ℕ → Bytes → Run (Option (DickEntry × DickTable))
remove_entry t h key = do
  let index = bit_and h t.sizemask
  chain ← at t.table index
  elim (find key chain) [
    | none ↦ ok none
    | some e ↦
        ok (some (e, record t { table = set t.table index (unlink key chain); used = dec t.used }))
  ]

-- The errors of `add` and of `Del`.
pub data Error : Type 0 where
  unexpected_entry entry_not_found : Error

abbrev pub ref_of : Bool → ℕ × Option DickEntry → Option EntryRef
ref_of b (i, none) = none
ref_of b (i, some e) = some (record { rehashing = b; index = i; entry = e })

-- `get` passes over a table with no buckets.
unfoldable pub search_table : Bool → DickTable → ℕ → Bytes → Run (Option EntryRef)
search_table b t h key =
    if length t.table == 0 then ok none else probe t h key >>= λ r. ok (ref_of b r)

-- `entry.value = value` through the pointer that `get` returned.
unfoldable pub store_value : EntryRef → Value → SubDick → SubDick
store_value r v s =
    let write = λ (t : DickTable). record t {
      table = set t.table r.index (assign r.entry.key v (get_or t.table r.index []));
    } in
    if r.rehashing
    then record s { rehashing_table = write s.rehashing_table }
    else record s { main_dick = write s.main_dick }

-- `rehash`, `get`, `add` and `del` hash a key by `hash`, the method `hasher`.
module _ (hash : Bytes → Run ℕ) where
  -- The loop over one chain: each entry goes to the front of its bucket of the new table.
  unfoldable pub move_chain : Chain → SubDick → Run SubDick
  move_chain [] s = ok s
  move_chain (e ∷ rest) s = do
    h ← hash e.key
    let t = s.rehashing_table
    let x = bit_and h t.sizemask
    chain ← at t.table x
    let m = s.main_dick
    move_chain rest (record s {
      main_dick = record m { used = dec m.used };
      rehashing_table = record t { table = set t.table x (e ∷ chain); used = inc t.used };
    })

  -- The loop over `n`, from index `r`, with `visits` empty visits left.
  unfoldable pub rehash_loop : ℕ → ℕ → ℕ → SubDick → Run SubDick
  rehash_loop zero visits r s = ok (finish_rehash s)
  rehash_loop (suc n) visits r s =
      if s.main_dick.used == 0
      then ok (finish_rehash s)
      else skip_empty visits s.main_dick.table r >>= elim [
        | stopped i ↦ ok (record s { rehashidx = some i })
        | filled left i chain ↦ do
          t ← move_chain chain s
          let m = t.main_dick
          rehash_loop n left (i + 1) (record t {
            main_dick = record m { table = set m.table i [] };
            rehashidx = some (i + 1);
          })
      ]

  unfoldable pub rehash : ℕ → SubDick → Run SubDick
  rehash n s = elim s.rehashidx [ none ↦ ok s | some r ↦ rehash_loop n (n * 10) r s ]

  unfoldable pub rehash_step : SubDick → Run SubDick
  unfolding rehash
  rehash_step s = rehash 1 s

  -- `none` stands for the result -1.
  unfoldable pub key_index : SubDick → Bytes → Run (SubDick × Option ℕ)
  key_index s key = do
    let s' = expand_if_needed s
    h ← hash key
    (index, hit) ← probe s'.main_dick h key
    if is_some hit
        then ok (s', none)
        else if is_rehashing s'
        then (do
          (index', hit') ← probe s'.rehashing_table h key
          ok (s', if is_some hit' then none else some index'))
        else ok (s', some index)

  unfoldable pub rehash_if_needed : SubDick → Run SubDick
  rehash_if_needed s = if is_rehashing s then rehash_step s else ok s

  unfoldable pub add : SubDick → Bytes → Value → Run (SubDick × Option Error)
  add s key value = do
    (s₁, found) ← key_index s key
    elim found [
      | none ↦ ok (s₁, some unexpected_entry)
      | some x ↦ do
        s₂ ← rehash_if_needed s₁
        if is_rehashing s₂
            then (do
              t ← add_entry s₂.rehashing_table x key value
              ok (record s₂ { rehashing_table = t }, none))
            else (do t ← add_entry s₂.main_dick x key value; ok (record s₂ { main_dick = t }, none))
    ]

  unfoldable pub get : SubDick → Bytes → Run (Option EntryRef)
  get s key = if s.main_dick.used == 0 && s.rehashing_table.used == 0 then ok none else (do
    h ← hash key
    first ← search_table false s.main_dick h key
    if is_some first
        then ok first
        else if is_rehashing s
        then search_table true s.rehashing_table h key
        else ok none)

  unfoldable pub del : SubDick → Bytes → Run (SubDick × Option DickEntry)
  del s key = if s.main_dick.used == 0 && s.rehashing_table.used == 0 then ok (s, none) else (do
    s' ← rehash_if_needed s
    h ← hash key
    first ← remove_entry s'.main_dick h key
    elim first [
      | some (e, t) ↦ ok (record s' { main_dick = t }, some e)
      | none ↦
          if is_rehashing s'
          then (do
            second ← remove_entry s'.rehashing_table h key
            elim second [
              | some (e, t) ↦ ok (record s' { rehashing_table = t }, some e)
              | none ↦ ok (s', none)
            ])
          else ok (s', none)
    ])
