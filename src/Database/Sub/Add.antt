-- ===== src/Database/Sub/Add.antt =====
-- `keyIndex`, `add`, and the write through the pointer that `get` returned.
use mathlib.Core.Option.{or_else}
use nodare_db_dev.Prelude.{
  Bool-cases, Bytes, Option, Option-cases, Returns, [], arith, at-get_or, inl, inr, none, ok, refl,
  some, ℕ, ◌+◌, ◌<◌, ◌>>=◌, ◌^◌, ◌∙◌, ◌≡◌,
}
use nodare_db_dev.Database.Entry.{Value, find, find_missing, new_dick_entry}
use nodare_db_dev.Database.Sub.{
  SubDick, add, add_entry, expand_if_needed, is_rehashing, key_index, probe, unexpected_entry,
}
use nodare_db_dev.Database.Sub.Buckets.{IsTable, bucket, home, home-lt}
use nodare_db_dev.Database.Sub.Change.{push_main-Writes, push_second-Writes}
use nodare_db_dev.Database.Sub.Edit.{Writes, Writes-after}
use nodare_db_dev.Database.Sub.Expand.{expand_if_needed-Keeps}
use nodare_db_dev.Database.Sub.Finish.{target}
use nodare_db_dev.Database.Sub.Move.{pure_hash, push}
use nodare_db_dev.Database.Sub.Rehash.{rehash_if_needed-Keeps}
use nodare_db_dev.Database.Sub.Search.{second_idle, view_missing}
use nodare_db_dev.Database.Sub.Valid.{IsSub, Keeps, Keeps-trans, rehashing_busy, view}
use nodare_db_dev.Database.Table.{DickTable}

module _ (h : Bytes → ℕ) where
  probe_lem :
      {t : DickTable} (k : Bytes)
      → IsTable h t
      → 0 < t.size
      → probe t (h k) k ≡ ok (home h t k, find k (bucket h t k))
  unfolding probe
  probe_lem {t} k v pos = rw (at-get_or t.table (home h t k) [] (home-lt h v pos k))

  view-none_finds :
      (s : SubDick) (k : Bytes)
      → view h s k ≡ none
      → (find k (bucket h s.main_dick k) ≡ none) × (find k (bucket h s.rehashing_table k) ≡ none)
  unfolding view or_else
  view-none_finds s k e =
      let m = bucket h s.main_dick k in
      let t = bucket h s.rehashing_table k in
      (find_missing k m (ground arith), find_missing k t (ground arith))

  -- For a new key `keyIndex` gives the key's bucket in the table that new entries go to.
  record Indexed (n : ℕ) (s : SubDick) (k : Bytes) (p : SubDick × Option ℕ) : Type 0 where
    keeps : Keeps h n s p.0
    room : 0 < (target p.0).size
    index : p.1 ≡ some (home h (target p.0) k)

  key_index-Indexed :
      {n : ℕ} (s : SubDick) (k : Bytes)
      → IsSub h n s
      → view h s k ≡ none
      → Returns (key_index (pure_hash h) s k) (Indexed n s k)
  unfolding key_index
  key_index-Indexed {n} s k v absent =
      let (kept, pos) = expand_if_needed-Keeps h s v in
      let s' = expand_if_needed s in
      let (a, b) = view-none_finds s' k (kept.same k ∙ absent) in
      rw (probe_lem k kept.valid.main pos, a)
        (elim (Bool-cases (is_rehashing s')) [
          | inl busy ↦
              let room = (rehashing_busy h kept.valid busy).1 in
              rw (busy, probe_lem k kept.valid.second room, b)
                (_, refl, record { keeps = kept; room = rw busy room; index = rw busy })
          | inr idle ↦
              rw idle (_, refl, record { keeps = kept; room = rw idle pos; index = rw idle })
        ])

  key_index-present :
      {n : ℕ} (s : SubDick) (k : Bytes) {old : Value}
      → IsSub h n s
      → view h s k ≡ some old
      → Returns (key_index (pure_hash h) s k) λ p. Keeps h n s p.0 × (p.1 ≡ none)
  unfolding key_index
  key_index-present s k v present =
      let (kept, pos) = expand_if_needed-Keeps h s v in
      let s' = expand_if_needed s in
      let here = kept.same k ∙ present in
      rw (probe_lem k kept.valid.main pos) (elim (Option-cases (find k (bucket h s'.main_dick k))) [
        | inr (e, p) ↦ rw p (_, refl, (kept, refl))
        | inl p ↦ rw p (elim (Bool-cases (is_rehashing s')) [
          | inr idle ↦ absurd (
              cc (
                here,
                view_missing h s' k p
                    (rw (second_idle h s' k kept.valid idle) (unfold find in refl)),
              ))
          | inl busy ↦
              rw (busy, probe_lem k kept.valid.second (rehashing_busy h kept.valid busy).1)
                (elim (Option-cases (find k (bucket h s'.rehashing_table k))) [
                  | inr (e, q) ↦ rw q (_, refl, (kept, refl))
                  | inl q ↦ absurd (cc (here, view_missing h s' k p q))
                ])
        ])
      ])

  -- On a sound sub-dictionary whose map has the key, `add` reports an unexpected entry, and keeps
  -- soundness and the map.
  pub add_present :
      {n : ℕ} (s : SubDick) (k : Bytes) (v : Value) {old : Value}
      → IsSub h n s
      → view h s k ≡ some old
      → Returns (add (pure_hash h) s k v) λ p. Keeps h n s p.0 × (p.1 ≡ some unexpected_entry)
  unfolding add
  add_present s k v valid present =
      let (p, run, (kept, e)) = key_index-present s k valid present in
      rw (run, ◌>>=◌, e) ((p.0, some unexpected_entry), refl, (kept, refl))

  target-IsTable : {n : ℕ} (s : SubDick) → IsSub h n s → IsTable h (target s)
  target-IsTable s v = elim (Bool-cases (is_rehashing s)) [
    | inl e ↦ rw e v.second
    | inr e ↦ rw e v.main
  ]

  add_entry_lem :
      {t : DickTable} (k : Bytes) (v : Value) (sound : IsTable h t) (pos : 0 < t.size)
      → find k (bucket h t k) ≡ none
      → add_entry t (home h t k) k v ≡ ok (push h sound pos (record { key = k; value = v }))
  unfolding add_entry new_dick_entry
  add_entry_lem {t} k v sound pos e =
      rw (at-get_or t.table (home h t k) [] (home-lt h sound pos k), e)

  -- On a sound sub-dictionary with at most `n` entries, `n + 1 < 2 ^ 63`, `add` of a key that the
  -- map has not returns no error; the sub-dictionary stays sound, with at most `n + 1` entries,
  -- and its map has the value under the key and is as before at every other key.
  pub add_absent :
      {n : ℕ} (s : SubDick) (k : Bytes) (v : Value)
      → IsSub h n s
      → n + 1 < 2 ^ 63
      → view h s k ≡ none
      → Returns (add (pure_hash h) s k v) λ p. Writes h (n + 1) s k (some v) p.0 × (p.1 ≡ none)
  unfolding add
  add_absent {n} s k v valid small absent =
      let (p, run, ix) = key_index-Indexed s k valid absent in
      let (t, run', (kept, same_size)) = rehash_if_needed-Keeps h n p.0 ix.keeps.valid in
      let gone = kept.same k ∙ ix.keeps.same k ∙ absent in
      let (a, b) = view-none_finds t k gone in
      let all = Keeps-trans h ix.keeps kept in
      let room : 0 < (target t).size = rw same_size ix.room in
      let same_index : home h (target p.0) k ≡ home h (target t) k =
        rw (
          (target-IsTable p.0 ix.keeps.valid).mask,
          (target-IsTable t kept.valid).mask,
          same_size,
        ) in
      rw (run, ◌>>=◌, ix.index, run', same_index)
        (elim (Bool-cases (is_rehashing t)) [
          | inl busy ↦
              let pos = (rehashing_busy h kept.valid busy).1 in
              rw (busy, add_entry_lem k v kept.valid.second pos b)
                (
                  _,
                  refl,
                  (
                    Writes-after h all (
                        push_second-Writes h t (record { key = k; value = v }) kept.valid pos small
                          busy gone),
                    refl,
                  ),
                )
          | inr idle ↦
              let pos : 0 < t.main_dick.size = rw idle at room in
              rw (idle, add_entry_lem k v kept.valid.main pos a)
                (
                  _,
                  refl,
                  (
                    Writes-after h all (
                        push_main-Writes h t (record { key = k; value = v }) kept.valid pos small
                          idle gone),
                    refl,
                  ),
                )
        ])
