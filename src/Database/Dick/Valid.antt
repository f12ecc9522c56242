-- ===== src/Database/Dick/Valid.antt =====
-- The invariant of the dictionary of sub-dictionaries, and the map that it stands for.
use nodare_db_dev.Prelude.{
  ==_iff, Bool-cases, Bytes, Option, ap, arith, bytes_eq, bytes_eq_sound, get_or, get_or-replicate,
  get_or-set, if◌then◌else◌, inl, inr, length, length-replicate, length-set, none, ok, true, ℕ, ◌%◌,
  ◌<◌, ◌==◌, ◌^◌, ◌∙◌, ◌≡◌, ◌≤◌,
}
use nodare_db_dev.Database.Dick.{XDick, new_xdick, put_sub, sub_index}
use nodare_db_dev.Database.Entry.{Value}
use nodare_db_dev.Database.Sub.{SubDick, new_sub_dick}
use nodare_db_dev.Database.Sub.Edit.{Writes, update}
use nodare_db_dev.Database.Sub.Valid.{IsSub, new_sub_dick-IsSub, view, view-new}

abbrev pub home_sub : (Bytes → ℕ) → XDick → Bytes → ℕ
home_sub pcas d q = pcas q % d.sub_count

abbrev pub sub_of : (Bytes → ℕ) → XDick → Bytes → SubDick
sub_of pcas d q = get_or d.sub_dicks (home_sub pcas d q) new_sub_dick

module _ (h pcas : Bytes → ℕ) where
  -- The value under a key: what the key's sub-dictionary has.
  unfoldable pub dick_view : XDick → Bytes → Option Value
  dick_view d q = view h (sub_of pcas d q) q

  -- There are `SubCount` sub-dictionaries, at least one, and each is sound, with at most `n` entries.
  pub record IsDick (n : ℕ) (d : XDick) : Type 0 where
    pub width : length d.sub_dicks ≡ d.sub_count
    pub some_sub : 0 < d.sub_count
    pub subs : (i : ℕ) → i < d.sub_count → IsSub h n (get_or d.sub_dicks i new_sub_dick)

  pub home_sub-lt :
      {n : ℕ} (d : XDick) (q : Bytes) → IsDick n d → home_sub pcas d q < length d.sub_dicks
  home_sub-lt d q v = omega (arith, v.width, v.some_sub)

  pub sub_of-IsSub : {n : ℕ} (d : XDick) (q : Bytes) → IsDick n d → IsSub h n (sub_of pcas d q)
  sub_of-IsSub d q v = v.subs (home_sub pcas d q) (omega (arith, v.some_sub))

  pub sub_index-home :
      {n : ℕ} (d : XDick) (q : Bytes) → IsDick n d → sub_index pcas d q ≡ ok (home_sub pcas d q)
  unfolding sub_index
  sub_index-home d q v = ground (arith, v.some_sub)

  pub new_xdick-IsDick : (c n : ℕ) → 0 < c → n < 2 ^ 63 → IsDick n (new_xdick c)
  unfolding new_xdick
  new_xdick-IsDick c n pos small = record {
    width = length-replicate c new_sub_dick;
    some_sub = pos;
    subs = λ i lt. rw get_or-replicate (new_sub_dick-IsSub h n small);
  }

  pub dick_view-new : (c : ℕ) (q : Bytes) → dick_view (new_xdick c) q ≡ none
  unfolding dick_view new_xdick
  dick_view-new c q = rw get_or-replicate (view-new h q)

  -- The sub-dictionary of `k` is replaced by one whose map is updated at `k`.
  pub record DickWrites (n : ℕ) (d : XDick) (k : Bytes) (v : Option Value) (e : XDick)
      : Type 0 where
    pub valid : IsDick n e
    pub reads : (q : Bytes) → dick_view e q ≡ update (dick_view d) k v q

  pub IsSub-le : {n m : ℕ} {s : SubDick} → n ≤ m → m < 2 ^ 63 → IsSub h n s → IsSub h m s
  IsSub-le le small v = record {
    main = v.main;
    second = v.second;
    once = v.once;
    few = omega (arith, v.few);
    small = small;
    idle = v.idle;
    busy = v.busy;
  }

  pub IsDick-le : {n m : ℕ} {d : XDick} → n ≤ m → m < 2 ^ 63 → IsDick n d → IsDick m d
  IsDick-le le small v = record {
    width = v.width;
    some_sub = v.some_sub;
    subs = λ i lt. IsSub-le le small (v.subs i lt);
  }

  pub put_sub-Writes :
      {n m : ℕ} (d : XDick) (k : Bytes) (v : Option Value) (s : SubDick)
      → IsDick n d
      → n ≤ m
      → m < 2 ^ 63
      → Writes h m (sub_of pcas d k) k v s
      → DickWrites m d k v (put_sub d (home_sub pcas d k) s)
  unfolding dick_view
  put_sub-Writes d k v s valid le small w =
      let lt = home_sub-lt d k valid in
      record {
        valid = record {
          width = rw length-set valid.width;
          some_sub = valid.some_sub;
          subs = λ i below.
              rw (get_or-set d.sub_dicks (home_sub pcas d k) i s new_sub_dick lt)
                (elim (Bool-cases (home_sub pcas d k == i)) [
                  | inl e ↦ rw e w.valid
                  | inr e ↦ rw e (IsSub-le le small (valid.subs i below))
                ]);
        };
        reads = λ q.
            rw (get_or-set d.sub_dicks (home_sub pcas d k) (home_sub pcas d q) s new_sub_dick lt)
              (at_key q);
      }
    where
      same_home : (q : Bytes) → bytes_eq k q ≡ true → home_sub pcas d k ≡ home_sub pcas d q
      same_home q e = ap (home_sub pcas d) (bytes_eq_sound k q e)

      at_key :
          (q : Bytes)
          → view h (if home_sub pcas d k == home_sub pcas d q then s else sub_of pcas d q) q
            ≡ update (λ p. view h (sub_of pcas d p) p) k v q
      at_key q = elim (Bool-cases (home_sub pcas d k == home_sub pcas d q)) [
        | inl e ↦ rw e (
            w.reads q
            ∙ ap (λ i. update (view h (get_or d.sub_dicks i new_sub_dick)) k v q)
                ((==_iff (home_sub pcas d k) (home_sub pcas d q)).0 e))
        | inr e ↦ rw e (ground (arith, same_home q))
      ]
