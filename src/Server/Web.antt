-- ===== src/Server/Web.antt =====
-- server/ndb-server.go, the handlers of the web server, with what the router and the JSON decoder
-- hand to them as arguments. The decoder is the standard library's, the router another package's.
use mathlib.Core.Path.{subst}
use nodare_db_dev.Prelude.{
  Bool, Bool-cases, Bytes, List, Option, Returns, Run, [], arith, bytes_eq, bytes_eq_sound, false,
  fault, if◌then◌else◌, inl, inr, length, none, not, ok, refl, some, true, type_assertion, ℕ, ◌+◌,
  ◌<◌, ◌>>=◌, ◌^◌, ◌∷◌, ◌≡◌, ◌≢◌,
}
use nodare_db_dev.Database.Dick.{XDatabase, db_del, db_get, db_set}
use nodare_db_dev.Database.Dick.Methods.{
  dick_del_lem, dick_get_lem, dick_set_lem, missing_error, or_nil,
}
use nodare_db_dev.Database.Entry.{Value, dynamic, nil, str}
use nodare_db_dev.Database.Refines.{Models, Models-after}
use nodare_db_dev.Database.Sub.{Error, is_some}
use nodare_db_dev.Database.Sub.Edit.{update}
use nodare_db_dev.Database.Sub.Move.{pure_hash}

-- The methods that the handlers tell apart.
pub data Method : Type 0 where
  method_get method_post method_other : Method

pub record Response : Type 0 where
  pub status : ℕ
  pub body : Bytes

abbrev pub status : ℕ → Response
status n = record { status = n; body = [] }

abbrev pub is_get : Method → Bool
is_get method_get = true
is_get _ = false

abbrev pub is_post : Method → Bool
is_post method_post = true
is_post _ = false

-- The response to a value: a value that is not a string makes the assertion panic.
unfoldable pub value_response : Value → Run Response
value_response nil = ok (status 410)
value_response (str s) = ok (record { status = 200; body = s })
value_response (dynamic n) = fault type_assertion

abbrev pub set_status : Option Error → Response
set_status none = status 201
set_status (some err) = status 500

abbrev pub del_status : Option Error → Response
del_status none = status 200
del_status (some err) = status 500

module _ (hash : Bytes → Run ℕ) (pcas : Bytes → ℕ) where
  unfoldable pub handler_get_val_by_key : XDatabase → Method → Bytes → Run Response
  handler_get_val_by_key db m key =
      if not (is_get m)
      then ok (status 405)
      else if bytes_eq key []
      then ok (status 406)
      else db_get hash pcas db key >>= value_response

  -- The pairs of the decoded object, in the order in which the range over the map meets them. The
  -- first error ends the handler.
  unfoldable pub set_pairs : List (Bytes × Value) → XDatabase → Run (XDatabase × Option Error)
  set_pairs [] db = ok (db, none)
  set_pairs ((key, val) ∷ rest) db = do
    (db', err) ← db_set hash pcas db key val
    elim err [ some e ↦ ok (db', some e) | none ↦ set_pairs rest db' ]

  -- `none` is a body that does not decode.
  unfoldable pub handler_set :
      XDatabase → Method → Option (List (Bytes × Value)) → Run (XDatabase × Response)
  handler_set db m none = ok (db, if not (is_post m) then status 405 else status 406)
  handler_set db m (some pairs) =
      if not (is_post m)
      then ok (db, status 405)
      else do (db', err) ← set_pairs pairs db; ok (db', set_status err)

  unfoldable pub handler_del : XDatabase → Method → Bytes → Run (XDatabase × Response)
  handler_del db m key =
      if not (is_get m)
      then ok (db, status 405)
      else if bytes_eq key []
      then ok (db, status 406)
      else do (db', err) ← db_del hash pcas db key; ok (db', del_status err)

module _ (h pcas : Bytes → ℕ) where
  -- The map after the pairs are stored, in order.
  unfoldable pub stored_pairs : (Bytes → Option Value) → List (Bytes × Value) → Bytes → Option Value
  stored_pairs f [] = f
  stored_pairs f ((k, v) ∷ rest) = stored_pairs (update f k (some v)) rest

  pub set_pairs-Models :
      {n : ℕ} (pairs : List (Bytes × Value)) (db : XDatabase) (f : Bytes → Option Value)
      → Models h pcas n f db.xdick
      → n + length pairs < 2 ^ 63
      → (db' : XDatabase) × (set_pairs (pure_hash h) pcas pairs db ≡ ok (db', none))
        × Models h pcas (n + length pairs) (stored_pairs f pairs) db'.xdick
  unfolding set_pairs db_set stored_pairs
  set_pairs-Models {n = n} [] db f m small =
      let zero_more : n ≡ n + length {A = Bytes × Value} [] = omega arith in
      (db, refl, subst (λ (b : ℕ). Models h pcas b f db.xdick) zero_more m)
  set_pairs-Models {n = n} ((k, v) ∷ rest) db f m small =
      let ((d, err), run, (w, none_err)) = dick_set_lem h pcas db.xdick k v m.valid (omega arith) in
      let (db', more, m') =
        set_pairs-Models {n = n + 1} rest (record db { xdick = d }) (update f k (some v))
          (Models-after h pcas m w) (omega arith) in
      let e : n + 1 + length rest ≡ n + length ((k, v) ∷ rest) = omega arith in
      (
        db',
        rw (run, none_err) more,
        subst (λ (b : ℕ). Models h pcas b (stored_pairs f ((k, v) ∷ rest)) db'.xdick) e m',
      )

  -- On a database that models a map with at most `n` entries in a sub-dictionary, `n` and the
  -- number of pairs below 2 ^ 63 together, a POST of an object stores every pair, in the order of
  -- the range, and answers 201.
  pub handler_set-stores :
      {n : ℕ} (pairs : List (Bytes × Value)) (db : XDatabase) (f : Bytes → Option Value)
      → Models h pcas n f db.xdick
      → n + length pairs < 2 ^ 63
      → Returns (handler_set (pure_hash h) pcas db method_post (some pairs)) λ p.
        Models h pcas (n + length pairs) (stored_pairs f pairs) p.0.xdick × (p.1.status ≡ 201)
  unfolding handler_set
  handler_set-stores pairs db f m small =
      let (db', run, m') = set_pairs-Models pairs db f m small in rw run (_, refl, (m', refl))

  -- The response to a GET of a key, by the map.
  abbrev pub page : Option Value → Run Response
  page none = ok (record { status = 410; body = [] })
  page (some nil) = ok (record { status = 410; body = [] })
  page (some (str s)) = ok (record { status = 200; body = s })
  page (some (dynamic n)) = fault type_assertion

  value_response-page : (o : Option Value) → value_response (or_nil o) ≡ page o
  unfolding value_response
  value_response-page none = refl
  value_response-page (some nil) = refl
  value_response-page (some (str s)) = refl
  value_response-page (some (dynamic n)) = refl

  -- On a database that models a map, a GET of a key that is not empty answers 200 with the string
  -- that the map has there, 410 where it has nothing or nil, and panics on any other value.
  pub handler_get-page :
      {n : ℕ} (db : XDatabase) (f : Bytes → Option Value) (k : Bytes)
      → Models h pcas n f db.xdick
      → k ≢ []
      → handler_get_val_by_key (pure_hash h) pcas db method_get k ≡ page (f k)
  unfolding handler_get_val_by_key db_get
  handler_get-page db f k m some_key =
      let named : bytes_eq k [] ≡ false = elim (Bool-cases (bytes_eq k [])) [
        | inl e ↦ absurd (some_key (bytes_eq_sound k [] e))
        | inr e ↦ e
      ] in
      rw (named, dick_get_lem h pcas db.xdick k m.valid, m.reads k) (value_response-page (f k))

  -- On a database that models a map with at most `n < 2 ^ 63` entries in a sub-dictionary, a
  -- request to delete a key that is not empty answers 200 if the map has the key and 500 if it
  -- has not; afterwards the key is gone and no other key has changed.
  pub handler_del-status :
      {n : ℕ} (db : XDatabase) (f : Bytes → Option Value) (k : Bytes)
      → Models h pcas n f db.xdick
      → n < 2 ^ 63
      → k ≢ []
      → Returns (handler_del (pure_hash h) pcas db method_get k) λ p.
        Models h pcas n (update f k none) p.0.xdick
        × (p.1.status ≡ (if is_some (f k) then 200 else 500))
  unfolding handler_del db_del
  handler_del-status db f k m small some_key =
      let named : bytes_eq k [] ≡ false = elim (Bool-cases (bytes_eq k [])) [
        | inl e ↦ absurd (some_key (bytes_eq_sound k [] e))
        | inr e ↦ e
      ] in
      let ((d, err), run, (w, e)) = dick_del_lem h pcas db.xdick k m.valid small in
      rw (named, run, e, m.reads k) (_, refl, (Models-after h pcas m w, by_map (f k)))
    where
      by_map :
          (o : Option Value)
          → (del_status (missing_error o)).status ≡ (if is_some o then 200 else 500)
      by_map none = refl
      by_map (some v) = refl
