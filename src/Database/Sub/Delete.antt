-- ===== src/Database/Sub/Delete.antt =====
-- The write through the pointer that `get` returned, and `del`.
use mathlib.Core.Option.{or_else}
use nodare_db_dev.Prelude.{
  Bool-cases, Bytes, Option, Option-cases, Returns, [], arith, at-get_or, false, inl, inr, none, ok,
  refl, set, some, sym, true, ℕ, ◌&&◌, ◌<◌, ◌==◌, ◌>>=◌, ◌∙◌, ◌≡◌, ◌≤◌,
}
use nodare_db_dev.Database.Entry.{
  DickEntry, Value, count, count-find, find, find-eq-none, find-eq-some, lookup, lookup-eq-none,
  unlink,
}
use nodare_db_dev.Database.Sub.{EntryRef, SubDick, del, is_rehashing, remove_entry, store_value}
use nodare_db_dev.Database.Sub.Buckets.{IsTable, bucket, home, home-lt, used-no_buckets}
use nodare_db_dev.Database.Sub.Edit.{
  Edit-main-Writes, Edit-second-Writes, Writes, Writes-after, assign-Edit, unlink-Edit,
}
use nodare_db_dev.Database.Sub.Finish.{target}
use nodare_db_dev.Database.Sub.Move.{pure_hash}
use nodare_db_dev.Database.Sub.Rehash.{rehash_if_needed-Keeps}
use nodare_db_dev.Database.Sub.Search.{
  Found, in_main, in_second, second_idle, size_of_find, view_missing,
}
use nodare_db_dev.Database.Sub.Valid.{
  IsSub, Keeps, Keeps-refl, idle_of, rehashing_busy, view, view-unused,
}
use nodare_db_dev.Database.Table.{DickTable, dec}

module _ (h : Bytes → ℕ) where
  -- An entry of one table is the only one under its key.
  alone_in_main :
      {n : ℕ} (s : SubDick) (k : Bytes) (e : DickEntry)
      → IsSub h n s
      → find k (bucket h s.main_dick k) ≡ some e
      → lookup k (bucket h s.rehashing_table k) ≡ none
  alone_in_main s k e v p =
      let m = bucket h s.main_dick k in
      lookup-eq-none k _ (omega (arith, v.once k, count-find k m e p))

  main_once :
      {n : ℕ} (s : SubDick) → IsSub h n s → (q : Bytes) → count q (bucket h s.main_dick q) ≤ 1
  main_once s v q = omega (arith, v.once q)

  second_once :
      {n : ℕ} (s : SubDick) → IsSub h n s → (q : Bytes) → count q (bucket h s.rehashing_table q) ≤ 1
  second_once s v q = omega (arith, v.once q)

  -- Where `get` finds an entry, the map has its value, and the write through it updates the map.
  pub store_value-Writes :
      {n : ℕ} (s : SubDick) (k : Bytes) (v : Value) (r : EntryRef)
      → IsSub h n s
      → Found h s k (some r)
      → (view h s k ≡ some r.entry.value) × Writes h n s k (some v) (store_value r v s)
  unfolding store_value view or_else
  store_value-Writes s k v _ valid (in_main e p) =
      let (looks, key) = find-eq-some k (bucket h s.main_dick k) e p in
      (
        rw looks,
        rw key (
            Edit-main-Writes h s k (some v) _ valid
              (assign-Edit h k v e.value valid.main (size_of_find h k valid.main p) looks)
              (alone_in_main s k e valid p)),
      )
  store_value-Writes s k v _ valid (in_second e q p) =
      let (looks, key) = find-eq-some k (bucket h s.rehashing_table k) e p in
      let none_in_main = find-eq-none k (bucket h s.main_dick k) q in
      (
        rw (none_in_main, looks),
        rw key (
            Edit-second-Writes h s k (some v) _ valid
              (assign-Edit h k v e.value valid.second (size_of_find h k valid.second p) looks)
              none_in_main),
      )

  module _ {t : DickTable} (k : Bytes) (sound : IsTable h t) (pos : 0 < t.size) where
    remove_entry-none : find k (bucket h t k) ≡ none → remove_entry t (h k) k ≡ ok none
    unfolding remove_entry
    remove_entry-none p = rw (at-get_or t.table (home h t k) [] (home-lt h sound pos k), ◌>>=◌, p)

    remove_entry-some :
        (e : DickEntry)
        → find k (bucket h t k) ≡ some e
        → remove_entry t (h k) k
          ≡ ok (
              some (
                e,
                record t {
                  table = set t.table (home h t k) (unlink k (bucket h t k));
                  used = dec t.used;
                },
              ))
    unfolding remove_entry
    remove_entry-some e p = rw (at-get_or t.table (home h t k) [] (home-lt h sound pos k), ◌>>=◌, p)

  -- The result of `del`: nothing there and the map kept, or the entry unlinked.
  pub data Deleted (n : ℕ) (s : SubDick) (k : Bytes) : SubDick × Option DickEntry → Type 0 where
    nothing : {t : SubDick} → view h s k ≡ none → Keeps h n s t → Deleted n s k (t, none)
    deleted :
        {t : SubDick} (e : DickEntry)
        → view h s k ≡ some e.value
        → Writes h n s k none t
        → Deleted n s k (t, some e)

  -- With an entry somewhere, the main table and the target have buckets.
  target_room :
      {n : ℕ} (s : SubDick)
      → IsSub h n s
      → (s.main_dick.used == 0 && s.rehashing_table.used == 0) ≡ false
      → 0 < (target s).size
  target_room s v e = elim (Bool-cases (is_rehashing s)) [
    | inl busy ↦ rw busy (rehashing_busy h v busy).1
    | inr idle ↦
        let unused = used-no_buckets h v.second (v.idle (idle_of s idle)) in
        rw idle (ground (arith, used-no_buckets h v.main))
  ]

  main_room : {n : ℕ} (s : SubDick) → IsSub h n s → 0 < (target s).size → 0 < s.main_dick.size
  main_room s v pos = elim (Bool-cases (is_rehashing s)) [
    | inl busy ↦ (rehashing_busy h v busy).0
    | inr idle ↦ rw idle at pos
  ]

  del_used :
      {n : ℕ} (s : SubDick) (k : Bytes)
      → IsSub h n s
      → (s.main_dick.used == 0 && s.rehashing_table.used == 0) ≡ false
      → Returns (del (pure_hash h) s k) (Deleted n s k)
  unfolding del
  del_used {n} s k v e =
      let (t, run, (kept, same_size)) = rehash_if_needed-Keeps h n s v in
      let w = kept.valid in
      let room = main_room t w (rw same_size (target_room s v e)) in
      rw (e, run)
        (elim (Option-cases (find k (bucket h t.main_dick k))) [
          | inr (x, p) ↦ rw (remove_entry-some k w.main room x p) (
            _,
            refl,
            deleted x (sym (kept.same k) ∙ view_main t k x p) (
                Writes-after h kept (
                  Edit-main-Writes h t k none _ w
                    (unlink-Edit h k x w.main room (omega (arith, w.few, w.small)) (main_once t w)
                      p)
                    (alone_in_main t k x w p))),
          )
          | inl p ↦ rw (remove_entry-none k w.main room p) (elim (Bool-cases (is_rehashing t)) [
            | inr idle ↦ rw idle (
              _,
              refl,
              nothing
                  (sym (kept.same k)
                    ∙ view_missing h t k p (rw (second_idle h t k w idle) (unfold find in refl)))
                  kept,
            )
            | inl busy ↦
                let room' = (rehashing_busy h w busy).1 in
                rw busy (elim (Option-cases (find k (bucket h t.rehashing_table k))) [
                  | inl q ↦
                      rw (remove_entry-none k w.second room' q)
                        (_, refl, nothing (sym (kept.same k) ∙ view_missing h t k p q) kept)
                  | inr (x, q) ↦ rw (remove_entry-some k w.second room' x q) (
                    _,
                    refl,
                    deleted x (sym (kept.same k) ∙ view_second t k x p q) (
                        Writes-after h kept (
                          Edit-second-Writes h t k none _ w
                            (unlink-Edit h k x w.second room' (omega (arith, w.few, w.small))
                              (second_once t w) q)
                            (find-eq-none k _ p))),
                  )
                ])
          ])
        ])
    where
      view_main :
          (t : SubDick) (k : Bytes) (x : DickEntry)
          → find k (bucket h t.main_dick k) ≡ some x
          → view h t k ≡ some x.value
      view_main t k x p = unfold view or_else in rw (find-eq-some k _ x p).0

      view_second :
          (t : SubDick) (k : Bytes) (x : DickEntry)
          → find k (bucket h t.main_dick k) ≡ none
          → find k (bucket h t.rehashing_table k) ≡ some x
          → view h t k ≡ some x.value
      view_second t k x p q =
          unfold view or_else in rw (find-eq-none k _ p, (find-eq-some k _ x q).0)

  -- On a sound sub-dictionary, `del` returns: either no entry, where the map has none under the
  -- key, and soundness and the map are kept; or the entry whose value the map has there, and the
  -- map has lost that key and no other.
  pub del-Deleted :
      {n : ℕ} (s : SubDick) (k : Bytes)
      → IsSub h n s
      → Returns (del (pure_hash h) s k) (Deleted n s k)
  del-Deleted s k v = elim (Bool-cases (s.main_dick.used == 0 && s.rehashing_table.used == 0)) [
    | inr e ↦ del_used s k v e
    | inl e ↦ (
      (s, none),
      del-unused s k e,
      nothing (view-unused h s k v (ground arith) (ground arith)) (Keeps-refl h v),
    )
  ]
    where
      del-unused :
          (s : SubDick) (k : Bytes)
          → (s.main_dick.used == 0 && s.rehashing_table.used == 0) ≡ true
          → del (pure_hash h) s k ≡ ok (s, none)
      del-unused s k e = unfold del in rw e
