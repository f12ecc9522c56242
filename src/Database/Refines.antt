-- ===== src/Database/Refines.antt =====
-- The dictionary as a client sees it: a finite map from keys to values, and a sequence of requests.
-- A request is one step here; Database/Locks has goroutines whose steps interleave.
use nodare_db_dev.Prelude.{
  Bytes, List, Option, Returns, Run, [], ap, arith, length, none, ok, refl, some, ℕ, ◌+◌, ◌<◌,
  ◌>>=◌, ◌^◌, ◌∙◌, ◌∷◌, ◌≡◌,
}
use nodare_db_dev.Database.Dick.{XDick, dick_del, dick_get, dick_set, new_xdick}
use nodare_db_dev.Database.Dick.Methods.{
  dick_del_lem, dick_get_lem, dick_set_lem, missing_error, or_nil,
}
use nodare_db_dev.Database.Dick.Valid.{
  DickWrites, IsDick, IsDick-le, dick_view, dick_view-new, new_xdick-IsDick,
}
use nodare_db_dev.Database.Entry.{Value}
use nodare_db_dev.Database.Sub.{Error}
use nodare_db_dev.Database.Sub.Edit.{update}
use nodare_db_dev.Database.Sub.Move.{pure_hash}

pub data Request : Type 0 where
  get_key : Bytes → Request
  set_key : Bytes → Value → Request
  del_key : Bytes → Request

pub data Reply : Type 0 where
  value : Value → Reply
  error : Option Error → Reply

-- The specification: what a request does to a map, and what it answers.
abbrev pub map_step : (Bytes → Option Value) → Request → (Bytes → Option Value) × Reply
map_step f (get_key k) = (f, value (or_nil (f k)))
map_step f (set_key k v) = (update f k (some v), error none)
map_step f (del_key k) = (update f k none, error (missing_error (f k)))

unfoldable pub map_replies : (Bytes → Option Value) → List Request → List Reply
map_replies f [] = []
map_replies f (r ∷ rs) = let (g, reply) = map_step f r in reply ∷ map_replies g rs

module _ (hash : Bytes → Run ℕ) (pcas : Bytes → ℕ) where
  unfoldable pub dick_step : XDick → Request → Run (XDick × Reply)
  dick_step d (get_key k) = do v ← dick_get hash pcas d k; ok (d, value v)
  dick_step d (set_key k v) = do (d', e) ← dick_set hash pcas d k v; ok (d', error e)
  dick_step d (del_key k) = do (d', e) ← dick_del hash pcas d k; ok (d', error e)

  -- The dictionary under a sequence of requests, with the replies in order.
  unfoldable pub dick_replies : XDick → List Request → Run (List Reply)
  dick_replies d [] = ok []
  dick_replies d (r ∷ rs) = do
    (d', reply) ← dick_step d r
    rest ← dick_replies d' rs
    ok (reply ∷ rest)

module _ (h pcas : Bytes → ℕ) where
  -- The dictionary is sound, has at most `n` entries in a sub-dictionary, and reads as `f`.
  pub record Models (n : ℕ) (f : Bytes → Option Value) (d : XDick) : Type 0 where
    pub valid : IsDick h pcas n d
    pub reads : (q : Bytes) → dick_view h pcas d q ≡ f q

  pub Models-after :
      {n m : ℕ} {f : Bytes → Option Value} {d e : XDick} {k : Bytes} {v : Option Value}
      → Models n f d
      → DickWrites h pcas m d k v e
      → Models m (update f k v) e
  Models-after {k = k} m w = record { valid = w.valid; reads = λ q. w.reads q ∙ rw (m.reads q) }

  -- One request answers as the specification does, and leaves a dictionary that models its map.
  pub dick_step-Models :
      {n : ℕ} (f : Bytes → Option Value) (d : XDick) (r : Request)
      → Models n f d
      → n + 1 < 2 ^ 63
      → Returns
          (dick_step (pure_hash h) pcas d r)
          λ p. Models (n + 1) (map_step f r).0 p.0 × (p.1 ≡ (map_step f r).1)
  unfolding dick_step
  dick_step-Models f d (get_key k) m small =
      rw (dick_get_lem h pcas d k m.valid, m.reads k)
        (
          _,
          refl,
          (record { valid = IsDick-le h pcas (omega arith) small m.valid; reads = m.reads }, refl),
        )
  dick_step-Models f d (set_key k v) m small =
      let ((d', e), run, (w, none_e)) = dick_set_lem h pcas d k v m.valid small in
      rw run (_, refl, (Models-after m w, ap error none_e))
  dick_step-Models f d (del_key k) m small =
      let ((d', e), run, (w, reported)) =
        dick_del_lem h pcas d k (IsDick-le h pcas (omega arith) small m.valid) small in
      rw run (_, refl, (Models-after m w, ap error (reported ∙ ap missing_error (m.reads k))))

  -- On a dictionary that models a map `f` with at most `n` entries in a sub-dictionary, a
  -- sequence of requests, with `n` and its length below 2 ^ 63 together, never panics, and each
  -- request is answered as the map answers it. The two hash functions are arbitrary.
  pub dick_replies-map :
      {n : ℕ} (f : Bytes → Option Value) (d : XDick) (rs : List Request)
      → Models n f d
      → n + length rs < 2 ^ 63
      → dick_replies (pure_hash h) pcas d rs ≡ ok (map_replies f rs)
  unfolding dick_replies map_replies
  dick_replies-map f d [] m small = refl
  dick_replies-map {n = n} f d (r ∷ rs) m small =
      let ((d', reply), run, (m', e)) = dick_step-Models f d r m (omega arith) in
      rw (run, dick_replies-map {n = n + 1} (map_step f r).0 d' rs m' (omega arith), e)

  -- A new dictionary with at least one sub-dictionary models the empty map.
  pub new_xdick-Models : (c : ℕ) → 0 < c → Models 0 (λ q. none) (new_xdick c)
  new_xdick-Models c pos = record {
    valid = new_xdick-IsDick h pcas c 0 pos (omega arith);
    reads = dick_view-new h pcas c;
  }
