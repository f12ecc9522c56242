-- ===== src/Database/Dick/Methods.antt =====
-- `Get`, `Set` and `Del` of the dictionary implement lookup, update and removal of a map.
use mathlib.Core.Path.{subst}
use nodare_db_dev.Prelude.{
  Bool-cases, Bytes, Option, Returns, arith, at, at-get_or, bytes_eq, bytes_eq_sound, inl, inr,
  none, ok, refl, some, ℕ, ◌+◌, ◌<◌, ◌^◌, ◌∙◌, ◌≡◌,
}
use nodare_db_dev.Database.Dick.{XDick, del_error, dick_del, dick_get, dick_set, sub_set, value_of}
use nodare_db_dev.Database.Dick.Valid.{
  DickWrites, IsDick, IsSub-le, dick_view, home_sub, home_sub-lt, put_sub-Writes, sub_index-home,
  sub_of, sub_of-IsSub,
}
use nodare_db_dev.Database.Entry.{DickEntry, Value, nil}
use nodare_db_dev.Database.Sub.{
  EntryRef, Error, SubDick, add, entry_not_found, new_sub_dick, store_value,
}
use nodare_db_dev.Database.Sub.Add.{add_absent}
use nodare_db_dev.Database.Sub.Delete.{Deleted, del-Deleted, deleted, nothing, store_value-Writes}
use nodare_db_dev.Database.Sub.Edit.{Writes, update}
use nodare_db_dev.Database.Sub.Move.{pure_hash}
use nodare_db_dev.Database.Sub.Search.{Found, get-Found, missing}
use nodare_db_dev.Database.Sub.Valid.{IsSub, view}

abbrev pub or_nil : Option Value → Value
or_nil none = nil
or_nil (some v) = v

-- What `Del` reports, by what the map had.
abbrev pub missing_error : Option Value → Option Error
missing_error none = some entry_not_found
missing_error (some v) = none

module _ (h pcas : Bytes → ℕ) where
  pub at_home :
      {n : ℕ} (d : XDick) (k : Bytes)
      → IsDick h pcas n d
      → at d.sub_dicks (home_sub pcas d k) ≡ ok (sub_of pcas d k)
  at_home d k v = at-get_or d.sub_dicks (home_sub pcas d k) new_sub_dick (home_sub-lt h pcas d k v)

  value_of-Found :
      {n : ℕ} (s : SubDick) (k : Bytes) (r : Option EntryRef)
      → IsSub h n s
      → Found h s k r
      → value_of r ≡ or_nil (view h s k)
  value_of-Found s k none v f = missing_lem f
    where
      missing_lem : Found h s k none → nil ≡ or_nil (view h s k)
      missing_lem (missing e) = rw e
  value_of-Found s k (some r) v f = rw (store_value-Writes h s k nil r v f).0

  -- On a sound dictionary, `Get` returns the value that the map has under the key, or nil where
  -- it has none.
  pub dick_get_lem :
      {n : ℕ} (d : XDick) (k : Bytes)
      → IsDick h pcas n d
      → dick_get (pure_hash h) pcas d k ≡ ok (or_nil (dick_view h pcas d k))
  unfolding dick_get dick_view
  dick_get_lem d k v =
      let s = sub_of pcas d k in
      let (r, run, f) = get-Found h s k (sub_of-IsSub h pcas d k v) in
      rw (
        sub_index-home h pcas d k v,
        at_home d k v,
        run,
        value_of-Found s k r (sub_of-IsSub h pcas d k v) f,
      )

  sub_set-Writes :
      {n : ℕ} (s : SubDick) (k : Bytes) (v : Value)
      → IsSub h n s
      → n + 1 < 2 ^ 63
      → Returns
          (sub_set (pure_hash h) pcas s k v)
          λ p. Writes h (n + 1) s k (some v) p.0 × (p.1 ≡ none)
  unfolding sub_set
  sub_set-Writes {n} s k v valid small =
      let (r, run, f) = get-Found h s k valid in rw run (on_result r f)
    where
      grow : {t : SubDick} → Writes h n s k (some v) t → Writes h (n + 1) s k (some v) t
      grow w = record { valid = IsSub-le h pcas (omega arith) small w.valid; reads = w.reads }

      missing_view : Found h s k none → view h s k ≡ none
      missing_view (missing e) = e

      on_result :
          (r : Option EntryRef)
          → Found h s k r
          → Returns
              (elim r [
                | some ref ↦ ok (store_value ref v s, none)
                | none ↦ add (pure_hash h) s k v
              ])
              (λ p. Writes h (n + 1) s k (some v) p.0 × (p.1 ≡ none))
      on_result none f = add_absent h s k v valid small (missing_view f)
      on_result (some ref) f = (
        (store_value ref v s, none),
        refl,
        (grow (store_value-Writes h s k v ref valid f).1, refl),
      )

  pub dick_set_lem :
      {n : ℕ} (d : XDick) (k : Bytes) (v : Value)
      → IsDick h pcas n d
      → n + 1 < 2 ^ 63
      → Returns
          (dick_set (pure_hash h) pcas d k v)
          λ p. DickWrites h pcas (n + 1) d k (some v) p.0 × (p.1 ≡ none)
  unfolding dick_set
  dick_set_lem d k v valid small =
      let ((s, err), run, (w, e)) =
        sub_set-Writes (sub_of pcas d k) k v (sub_of-IsSub h pcas d k valid) small in
      rw (sub_index-home h pcas d k valid, at_home d k valid, run)
        ((_, err), refl, (put_sub-Writes h pcas d k (some v) s valid (omega arith) small w, e))

  -- A removal of a key that is not there changes no value.
  absent_reads :
      (s t : SubDick) (k q : Bytes)
      → view h s k ≡ none
      → view h t q ≡ view h s q
      → view h t q ≡ update (view h s) k none q
  absent_reads s t k q gone same = elim (Bool-cases (bytes_eq k q)) [
    | inl e ↦ rw e (same ∙ subst (λ p. view h s p ≡ none) (bytes_eq_sound k q e) gone)
    | inr e ↦ rw e same
  ]

  Deleted-Writes :
      {n : ℕ} (s : SubDick) (k : Bytes) (p : SubDick × Option DickEntry)
      → Deleted h n s k p
      → Writes h n s k none p.0 × (del_error p.1 ≡ missing_error (view h s k))
  Deleted-Writes s k _ (nothing {t = t} gone kept) =
      (record { valid = kept.valid; reads = λ q. absent_reads s t k q gone (kept.same q) }, rw gone)
  Deleted-Writes s k _ (deleted e present w) = (w, rw present)

  -- On a sound dictionary with at most `n < 2 ^ 63` entries in a sub-dictionary, `Del` returns an
  -- error exactly for a key that the map has not; the dictionary stays sound, and its map has
  -- nothing under the key and is as before at every other key.
  pub dick_del_lem :
      {n : ℕ} (d : XDick) (k : Bytes)
      → IsDick h pcas n d
      → n < 2 ^ 63
      → Returns
          (dick_del (pure_hash h) pcas d k)
          λ p. DickWrites h pcas n d k none p.0 × (p.1 ≡ missing_error (dick_view h pcas d k))
  unfolding dick_del dick_view
  dick_del_lem d k valid small =
      let ((s, found), run, result) =
        del-Deleted h (sub_of pcas d k) k (sub_of-IsSub h pcas d k valid) in
      let (w, e) = Deleted-Writes (sub_of pcas d k) k (s, found) result in
      rw (sub_index-home h pcas d k valid, at_home d k valid, run)
        ((_, _), refl, (put_sub-Writes h pcas d k none s valid (omega arith) small w, e))
