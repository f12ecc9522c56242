-- ===== src/Server/Socket/Loops.antt =====
-- The three loops over the keys of a request, on a database that models a map.
use mathlib.Core.Path.{subst}
use nodare_db_dev.Prelude.{
  All, Bool, Bytes, List, Option, [], append-nil, append_assoc, arith, if◌then◌else◌, inl, inr,
  length, none, ok, refl, some, true, ℕ, ◌++◌, ◌+◌, ◌<◌, ◌^◌, ◌∙◌, ◌∷◌, ◌≡◌, ◌⊎◌,
}
use nodare_db_dev.Database.Dick.{XDatabase, db_del, db_get, db_set}
use nodare_db_dev.Database.Dick.Methods.{
  dick_del_lem, dick_get_lem, dick_set_lem, missing_error, or_nil,
}
use nodare_db_dev.Database.Entry.{Value, dynamic, nil, str}
use nodare_db_dev.Database.Refines.{Models, Models-after}
use nodare_db_dev.Database.Sub.Edit.{update}
use nodare_db_dev.Database.Sub.Move.{pure_hash}
use nodare_db_dev.Server.Session.{
  Session, ack, crlf, del_reply, get_reply, nul, stay, val_at, written,
}
use nodare_db_dev.Server.Socket.{del_keys, get_keys, send, set_keys, set_report}

-- The key has no value or a string: what the socket protocol can reply.
abbrev pub IsText : Option Value → Type 0
IsText o = (o ≡ none) ⊎ ((s : Bytes) × (o ≡ some (str s)))

-- The replies of GET by the map.
abbrev pub text_of : Bool → Bytes → Option Value → Bytes
text_of several key (some (str s)) = s ++ crlf
text_of several key _ = (if several then nul ∷ key else nul ∷ []) ++ crlf

unfoldable pub texts : Bool → Bytes → (Bytes → Option Value) → List Bytes → List Bytes
texts several key f [] = []
texts several key f (k ∷ ks) = text_of several key (f k) ∷ texts several key f ks

pub get_reply-text_of :
    (several : Bool) (key : Bytes) (o : Option Value)
    → IsText o
    → get_reply several key (or_nil o) ≡ ok (text_of several key o)
unfolding get_reply
get_reply-text_of several key none c = refl
get_reply-text_of several key (some (str s)) c = refl
get_reply-text_of several key (some nil) (inl e) = absurd (ground (arith, e))
get_reply-text_of several key (some nil) (inr (s, e)) = absurd (ground (arith, e))
get_reply-text_of several key (some (dynamic n)) (inl e) = absurd (ground (arith, e))
get_reply-text_of several key (some (dynamic n)) (inr (s, e)) = absurd (ground (arith, e))

pub send-accepted :
    (accepts : ℕ → Bool) (s : Session) (text : Bytes)
    → ((n : ℕ) → accepts n ≡ true)
    → send accepts s text ≡ some (record s { sent = s.sent ++ text ∷ [] })
unfolding send
send-accepted accepts s text all = rw (all (length s.sent)) refl

-- The map after the values `g` are stored under the keys, and after the keys are removed.
unfoldable pub stored : (Bytes → Bytes) → (Bytes → Option Value) → List Bytes → Bytes → Option Value
stored g f [] = f
stored g f (k ∷ ks) = stored g (update f k (some (str (g k)))) ks

unfoldable pub removed : (Bytes → Option Value) → List Bytes → Bytes → Option Value
removed f [] = f
removed f (k ∷ ks) = removed (update f k none) ks

-- The reply of DEL by the map: ACK for a key that it does not have, and for one that it has NUL,
-- with the key of the session's list before it.
abbrev pub del_answer : Bytes → Option Value → Bytes
del_answer key none = ack ∷ crlf
del_answer key (some v) = nul ∷ key ++ crlf

del_reply-del_answer :
    (key : Bytes) (o : Option Value) → del_reply key (missing_error o) ≡ del_answer key o
unfolding del_reply
del_reply-del_answer key none = refl
del_reply-del_answer key (some v) = refl

-- The replies of DEL, each by the map that its key is removed from.
unfoldable pub del_texts : Bytes → (Bytes → Option Value) → List Bytes → List Bytes
del_texts key f [] = []
del_texts key f (k ∷ ks) = del_answer key (f k) ∷ del_texts key (update f k none) ks

module _ (h pcas : Bytes → ℕ) where
  -- The key loop of GET, on a database that models a map with a string or nothing under each of
  -- the keys, and where every write succeeds: each key is answered, in order, with its value, or
  -- with NUL where it has none; the database and the rest of the session are unchanged.
  pub get_keys-texts :
      {n : ℕ} (accepts : ℕ → Bool) (several : Bool) (keys : List Bytes) (s : Session)
      (db : XDatabase) (f : Bytes → Option Value)
      → ((i : ℕ) → accepts i ≡ true)
      → Models h pcas n f db.xdick
      → All (λ q. IsText (f q)) keys
      → get_keys accepts (pure_hash h) pcas several keys s db
        ≡ ok (stay (record s { sent = s.sent ++ texts several s.key f keys }) db)
  unfolding get_keys texts db_get written
  get_keys-texts accepts several [] s db f all m strings = rw (append-nil s.sent) refl
  get_keys-texts accepts several (k ∷ ks) s db f all m texts_k =
      let t = record s { sent = s.sent ++ text_of several s.key (f k) ∷ [] } in
      let rest = get_keys-texts accepts several ks t db f all m texts_k.1 in
      rw
        (
          dick_get_lem h pcas db.xdick k m.valid,
          m.reads k,
          get_reply-text_of several s.key (f k) texts_k.0,
        )
        (rw (send-accepted accepts s (text_of several s.key (f k)) all)
          (rest ∙ rw append_assoc refl))

  -- The key loop of SET, on a database that models a map with at most `n` entries in a sub-
  -- dictionary, `n` and the number of keys below 2 ^ 63 together, where the session has the value
  -- `g k` for each key `k`: the loop writes nothing, leaves the session as it is, and the
  -- database models the map with each value under its key, in order.
  pub set_keys-Models :
      {n : ℕ} (accepts : ℕ → Bool) (g : Bytes → Bytes) (keys : List Bytes) (s : Session)
      (db : XDatabase) (f : Bytes → Option Value)
      → All (λ k. val_at s.vals k ≡ ok (g k)) keys
      → Models h pcas n f db.xdick
      → n + length keys < 2 ^ 63
      → (db' : XDatabase) × (set_keys accepts (pure_hash h) pcas keys s db ≡ ok (stay s db'))
        × Models h pcas (n + length keys) (stored g f keys) db'.xdick
  unfolding set_keys set_report written db_set stored
  set_keys-Models {n = n} accepts g [] s db f found m small =
      let zero_more : n ≡ n + length {A = Bytes} [] = omega arith in
      (db, refl, subst (λ (b : ℕ). Models h pcas b f db.xdick) zero_more m)
  set_keys-Models {n = n} accepts g (k ∷ ks) s db f found m small =
      let ((d, err), run, (w, none_err)) =
        dick_set_lem h pcas db.xdick k (str (g k)) m.valid (omega arith) in
      let (db', rest, m') =
        set_keys-Models {n = n + 1} accepts g ks s (record db { xdick = d })
          (update f k (some (str (g k)))) found.1 (Models-after h pcas m w) (omega arith) in
      let e : n + 1 + length ks ≡ n + length (k ∷ ks) = omega arith in
      (
        db',
        rw (found.0, run, none_err) rest,
        subst (λ (b : ℕ). Models h pcas b (stored g f (k ∷ ks)) db'.xdick) e m',
      )

  -- The key loop of DEL, on a database that models a map with at most `n < 2 ^ 63` entries in a
  -- sub-dictionary, where every write succeeds: the keys are removed, in order. A key that was
  -- there is answered by the error reply, NUL, and one that was not by ACK.
  pub del_keys-Models :
      {n : ℕ} (accepts : ℕ → Bool) (keys : List Bytes) (s : Session) (db : XDatabase)
      (f : Bytes → Option Value)
      → ((i : ℕ) → accepts i ≡ true)
      → Models h pcas n f db.xdick
      → n < 2 ^ 63
      → (db' : XDatabase) × (del_keys accepts (pure_hash h) pcas keys s db
          ≡ ok (stay (record s { sent = s.sent ++ del_texts s.key f keys }) db'))
        × Models h pcas n (removed f keys) db'.xdick
  unfolding del_keys written db_del del_texts removed
  del_keys-Models accepts [] s db f all m small = (db, rw (append-nil s.sent) refl, m)
  del_keys-Models {n = n} accepts (k ∷ ks) s db f all m small =
      let ((d, err), run, (w, e)) = dick_del_lem h pcas db.xdick k m.valid small in
      let reply = del_answer s.key (f k) in
      let t = record s { sent = s.sent ++ reply ∷ [] } in
      let (db', rest, m') =
        del_keys-Models {n = n} accepts ks t (record db { xdick = d }) (update f k none) all
          (Models-after h pcas m w) small in
      (
        db',
        rw (run, e, m.reads k, del_reply-del_answer s.key (f k))
            (rw (send-accepted accepts s reply all) (rest ∙ rw append_assoc refl)),
        m',
      )
