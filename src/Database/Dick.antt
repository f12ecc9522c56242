-- ===== src/Database/Dick.antt =====
-- database/operations.go, `NewXDICK` of database/dick.go, and database/db.go. `Get`, `Set` and `Del`
-- hold the lock of one sub-dictionary from before their first read to their return.
pub mod Valid
pub mod Methods
use nodare_db_dev.Prelude.{
  Bytes, List, Option, Run, at, divide_by_zero, fault, if◌then◌else◌, none, ok, replicate, set,
  some, ℕ, ◌%◌, ◌==◌, ◌>>=◌,
}
use nodare_db_dev.Database.Entry.{DickEntry, Value, nil}
use nodare_db_dev.Database.Sub.{
  EntryRef, Error, SubDick, add, del, entry_not_found, get, new_sub_dick, store_value,
}

pub record XDick : Type 0 where
  pub sub_dicks : List SubDick
  pub sub_count : ℕ

unfoldable pub new_xdick : ℕ → XDick
new_xdick sub_dicks = record { sub_dicks = replicate sub_dicks new_sub_dick; sub_count = sub_dicks }

-- `pcas.String(key) % d.SubCount`; any hasher of the pool gives the same.
unfoldable pub sub_index : (Bytes → ℕ) → XDick → Bytes → Run ℕ
sub_index pcas d key =
    if d.sub_count == 0 then fault divide_by_zero else ok (pcas key % d.sub_count)

abbrev pub put_sub : XDick → ℕ → SubDick → XDick
put_sub d idx s = record d { sub_dicks = set d.sub_dicks idx s }

abbrev pub value_of : Option EntryRef → Value
value_of none = nil
value_of (some r) = r.entry.value

-- `Del` reports that there was no entry.
abbrev pub del_error : Option DickEntry → Option Error
del_error none = some entry_not_found
del_error (some e) = none

module _ (hash : Bytes → Run ℕ) (pcas : Bytes → ℕ) where
  unfoldable pub dick_get : XDick → Bytes → Run Value
  dick_get d key = do
    idx ← sub_index pcas d key
    s ← at d.sub_dicks idx
    r ← get hash s key
    ok (value_of r)

  -- `Set` of one sub-dictionary: the entry that is there is written, or a new one is added.
  unfoldable pub sub_set : SubDick → Bytes → Value → Run (SubDick × Option Error)
  sub_set s key value = do
    r ← get hash s key
    elim r [ some ref ↦ ok (store_value ref value s, none) | none ↦ add hash s key value ]

  unfoldable pub dick_set : XDick → Bytes → Value → Run (XDick × Option Error)
  dick_set d key value = do
    idx ← sub_index pcas d key
    s ← at d.sub_dicks idx
    (s', err) ← sub_set s key value
    ok (put_sub d idx s', err)

  unfoldable pub dick_del : XDick → Bytes → Run (XDick × Option Error)
  dick_del d key = do
    idx ← sub_index pcas d key
    s ← at d.sub_dicks idx
    (s', found) ← del hash s key
    ok (put_sub d idx s', del_error found)

-- `XDatabase`: the dictionary and the time of its start.
pub record XDatabase : Type 0 where
  pub xdick : XDick
  pub boot_t : ℕ

unfoldable pub new_dick : ℕ → ℕ → XDatabase
unfolding new_xdick
new_dick now sub_dicks = record { xdick = new_xdick sub_dicks; boot_t = now }

module _ (hash : Bytes → Run ℕ) (pcas : Bytes → ℕ) where
  unfoldable pub db_get : XDatabase → Bytes → Run Value
  unfolding dick_get
  db_get db key = dick_get hash pcas db.xdick key

  unfoldable pub db_set : XDatabase → Bytes → Value → Run (XDatabase × Option Error)
  unfolding dick_set
  db_set db key value = do
    (d, err) ← dick_set hash pcas db.xdick key value
    ok (record db { xdick = d }, err)

  unfoldable pub db_del : XDatabase → Bytes → Run (XDatabase × Option Error)
  unfolding dick_del
  db_del db key = do (d, err) ← dick_del hash pcas db.xdick key; ok (record db { xdick = d }, err)
