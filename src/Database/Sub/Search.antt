-- ===== src/Database/Sub/Search.antt =====
-- `get` finds the entry that the map has.
use mathlib.Core.Option.{or_else}
use nodare_db_dev.Prelude.{
  ==_iff, Bool, Bool-cases, Bytes, Option, Option-cases, Returns, [], arith, at-get_or, false, inl,
  inr, length, none, ok, refl, some, true, ℕ, ◌&&◌, ◌<◌, ◌==◌, ◌≡◌,
}
use nodare_db_dev.Database.Entry.{DickEntry, find, find-eq-none}
use nodare_db_dev.Database.Sub.{EntryRef, SubDick, get, is_rehashing, probe, ref_of, search_table}
use nodare_db_dev.Database.Sub.Buckets.{
  IsTable, bucket, bucket-unused, home, home-lt, used-no_buckets,
}
use nodare_db_dev.Database.Sub.Move.{pure_hash}
use nodare_db_dev.Database.Sub.Valid.{IsSub, idle_of, view, view-unused}
use nodare_db_dev.Database.Table.{DickTable}

module _ (h : Bytes → ℕ) where
  -- Whether or not the table has buckets, the search of it gives what the key's bucket has.
  search_table_lem :
      {t : DickTable} (b : Bool) (k : Bytes)
      → IsTable h t
      → search_table b t (h k) k ≡ ok (ref_of b (home h t k, find k (bucket h t k)))
  unfolding search_table probe find
  search_table_lem {t} b k v = elim (Bool-cases (length t.table == 0)) [
    | inl z ↦
        let bare : t.size ≡ 0 = ground (arith, v.width) in
        rw (z, bucket-unused h v (used-no_buckets h v bare) k)
    | inr z ↦ rw (z, at-get_or t.table (home h t k) [] (home-lt h v (ground (arith, v.width)) k))
  ]

  pub size_of_find :
      {t : DickTable} (k : Bytes) {e : DickEntry}
      → IsTable h t
      → find k (bucket h t k) ≡ some e
      → 0 < t.size
  unfolding find
  size_of_find {t} k v p = elim (Bool-cases (t.size == 0)) [
    | inl z ↦
        let bare = bucket-unused h v (used-no_buckets h v ((==_iff t.size 0).0 z)) k in
        absurd (cc (p, bare))
    | inr z ↦ ground arith
  ]

  -- The result of `get`: no entry where the map has none, or the entry's place and contents.
  pub data Found (s : SubDick) (k : Bytes) : Option EntryRef → Type 0 where
    missing : view h s k ≡ none → Found s k none
    in_main :
        (e : DickEntry)
        → find k (bucket h s.main_dick k) ≡ some e
        → Found s k (some (record { rehashing = false; index = home h s.main_dick k; entry = e }))
    in_second :
        (e : DickEntry)
        → find k (bucket h s.main_dick k) ≡ none
        → find k (bucket h s.rehashing_table k) ≡ some e
        → Found s k
            (some (record { rehashing = true; index = home h s.rehashing_table k; entry = e }))

  -- A rehashing table that is not in use has no entries.
  pub second_idle :
      {n : ℕ} (s : SubDick) (k : Bytes)
      → IsSub h n s
      → is_rehashing s ≡ false
      → bucket h s.rehashing_table k ≡ []
  second_idle s k v e =
      bucket-unused h v.second (used-no_buckets h v.second (v.idle (idle_of s e))) k

  pub view_missing :
      (s : SubDick) (k : Bytes)
      → find k (bucket h s.main_dick k) ≡ none
      → find k (bucket h s.rehashing_table k) ≡ none
      → view h s k ≡ none
  unfolding view or_else
  view_missing s k a b =
      rw
        (find-eq-none k (bucket h s.main_dick k) a, find-eq-none k (bucket h s.rehashing_table k) b)

  get_used :
      {n : ℕ} (s : SubDick) (k : Bytes)
      → IsSub h n s
      → (s.main_dick.used == 0 && s.rehashing_table.used == 0) ≡ false
      → Returns (get (pure_hash h) s k) (Found s k)
  unfolding get
  get_used s k v e =
      let m = bucket h s.main_dick k in
      let t = bucket h s.rehashing_table k in
      rw (e, search_table_lem false k v.main)
        (elim (Option-cases (find k m)) [
          | inr (x, p) ↦ rw p (_, refl, in_main x p)
          | inl p ↦ rw p (elim (Bool-cases (is_rehashing s)) [
            | inl busy ↦
                rw (busy, search_table_lem true k v.second)
                  (elim (Option-cases (find k t)) [
                    | inr (x, q) ↦ rw q (_, refl, in_second x p q)
                    | inl q ↦ rw q (none, refl, missing (view_missing s k p q))
                  ])
            | inr idle ↦ rw idle (
              none,
              refl,
              missing (view_missing s k p (rw (second_idle s k v idle) (unfold find in refl))),
            )
          ])
        ])

  -- On a sound sub-dictionary, `get` returns: no entry where the map has none under the key; else
  -- the entry that the chain of the key in the main table has, or in the rehashing table where
  -- the main one has none, with its place.
  pub get-Found :
      {n : ℕ} (s : SubDick) (k : Bytes) → IsSub h n s → Returns (get (pure_hash h) s k) (Found s k)
  get-Found s k v = elim (Bool-cases (s.main_dick.used == 0 && s.rehashing_table.used == 0)) [
    | inr e ↦ get_used s k v e
    | inl e ↦ (none, get-unused s k e, missing (view-unused h s k v (ground arith) (ground arith)))
  ]
    where
      get-unused :
          (s : SubDick) (k : Bytes)
          → (s.main_dick.used == 0 && s.rehashing_table.used == 0) ≡ true
          → get (pure_hash h) s k ≡ ok none
      get-unused s k e = unfold get in rw e
