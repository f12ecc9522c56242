-- ===== src/Server/Socket/Sound.antt =====
-- The loops over keys never panic on a database of strings, whichever writes fail.
use nodare_db_dev.Prelude.{
  All, Bool, Bool-cases, Bytes, List, Option, Returns, Run, [], arith, bytes_eq, bytes_eq_refl,
  fault, inl, inr, length, none, ok, refl, some, ℕ, ◌++◌, ◌+◌, ◌<◌, ◌>>=◌, ◌^◌, ◌∙◌, ◌∷◌, ◌≡◌, ◌≢◌,
}
use nodare_db_dev.Database.Dick.{XDatabase, db_del, db_get}
use nodare_db_dev.Database.Dick.Methods.{dick_del_lem, dick_get_lem}
use nodare_db_dev.Database.Entry.{Value, str}
use nodare_db_dev.Database.Refines.{Models, Models-after}
use nodare_db_dev.Database.Sub.Edit.{update}
use nodare_db_dev.Database.Sub.Move.{pure_hash}
use nodare_db_dev.Server.Session.{
  Next, Session, ack, crlf, del_reply, leave, mode_del, mode_set, stay, val_at, written,
}
use nodare_db_dev.Server.Socket.{del_keys, end_get, end_set, get_keys, send, set_keys}
use nodare_db_dev.Server.Socket.Loops.{IsText, get_reply-text_of, set_keys-Models, stored, text_of}

-- The database models a map with at most `n` entries in a sub-dictionary, all strings.
pub record Serves (h pcas : Bytes → ℕ) (n : ℕ) (db : XDatabase) : Type 0 where
  pub content : Bytes → Option Value
  pub models : Models h pcas n content db.xdick
  pub texts : (q : Bytes) → IsText (content q)

-- The session has a value for the key.
abbrev pub Has : Option (List (Bytes × Bytes)) → Bytes → Type 0
Has vals k = (v : Bytes) × (val_at vals k ≡ ok v)

-- In the mode of SET there is a map, with a value for each key.
pub record IsSession (s : Session) : Type 0 where
  pub with_vals : s.mode ≡ mode_set → (m : List (Bytes × Bytes)) × (s.vals ≡ some m)
  pub stored_all : s.mode ≡ mode_set → All (Has s.vals) s.keys

IsText-update :
    (f : Bytes → Option Value) (k v : Bytes)
    → ((q : Bytes) → IsText (f q))
    → (q : Bytes) → IsText (update f k (some (str v)) q)
IsText-update f k v all q = elim (Bool-cases (bytes_eq k q)) [
  | inl e ↦ rw e (inr (v, refl))
  | inr e ↦ rw e (all q)
]

IsText-remove :
    (f : Bytes → Option Value) (k : Bytes)
    → ((q : Bytes) → IsText (f q))
    → (q : Bytes) → IsText (update f k none q)
IsText-remove f k all q = elim (Bool-cases (bytes_eq k q)) [
  | inl e ↦ rw e (inl refl)
  | inr e ↦ rw e (all q)
]

IsText-stored :
    (g : Bytes → Bytes) (f : Bytes → Option Value) (keys : List Bytes)
    → ((q : Bytes) → IsText (f q))
    → (q : Bytes) → IsText (stored g f keys q)
unfolding stored
IsText-stored g f [] all q = all q
IsText-stored g f (k ∷ ks) all q =
    IsText-stored g (update f k (some (str (g k)))) ks (IsText-update f k (g k) all) q

-- The value that the session has, or an empty one.
abbrev value_or : Run Bytes → Bytes
value_or (ok v) = v
value_or (fault e) = []

Has-value_or :
    (vals : Option (List (Bytes × Bytes))) (keys : List Bytes)
    → All (Has vals) keys
    → All (λ k. val_at vals k ≡ ok (value_or (val_at vals k))) keys
Has-value_or vals [] all = tt
Has-value_or vals (k ∷ ks) ((v, e), all) = (rw e refl, Has-value_or vals ks all)

Has-put :
    (m : List (Bytes × Bytes)) (key line k : Bytes)
    → Has (some m) k
    → Has (some ((key, line) ∷ m)) k
unfolding val_at
Has-put m key line k (v, e) = elim (Bool-cases (bytes_eq key k)) [
  | inl hit ↦ (line, rw hit refl)
  | inr miss ↦ (v, rw miss e)
]

pub Has-put_each :
    (m : List (Bytes × Bytes)) (key line : Bytes) (keys : List Bytes)
    → All (Has (some m)) keys
    → All (Has (some ((key, line) ∷ m))) (keys ++ key ∷ [])
unfolding val_at
Has-put_each m key line [] all = ((line, rw (bytes_eq_refl key) refl), tt)
Has-put_each m key line (k ∷ ks) (has, all) =
    (Has-put m key line k has, Has-put_each m key line ks all)

-- What a line leaves: a database that serves and, where the session goes on, a sound session in
-- which the keys and `rest` more lines stay below the bound.
abbrev pub After : (Bytes → ℕ) → (Bytes → ℕ) → ℕ → Next → Type 0
After h pcas rest (leave s db) = (n : ℕ) × Serves h pcas n db
After h pcas rest (stay s db) =
    (n : ℕ) × Serves h pcas n db × IsSession s × (n + length s.keys + rest < 2 ^ 63)

-- Soundness is about the mode, the keys and the values alone.
pub same_parts :
    {s : Session} {key : Bytes} {state : Option ℕ} {sent : List Bytes}
    → IsSession s
    → IsSession (record s { key = key; state = state; sent = sent })
same_parts sound = record { with_vals = sound.with_vals; stored_all = sound.stored_all }

-- A session that is not in the mode of SET is sound.
pub not_set : (s : Session) → s.mode ≢ mode_set → IsSession s
not_set s ne = record { with_vals = λ e. absurd (ne e); stored_all = λ e. absurd (ne e) }

module _ (h pcas : Bytes → ℕ) (accepts : ℕ → Bool) where
  send-keeps :
      (s t : Session) (text : Bytes)
      → send accepts s text ≡ some t
      → (t.mode ≡ s.mode) × (t.keys ≡ s.keys)
  unfolding send
  send-keeps s t text e = ground arith

  written-After :
      (n rest : ℕ) (o : Option Session) (s : Session) (db : XDatabase) (next : Session → Run Next)
      → Serves h pcas n db
      → ((t : Session) → o ≡ some t → Returns (next t) (After h pcas rest))
      → Returns (written o s db next) (After h pcas rest)
  unfolding written
  written-After n rest none s db next v each = (leave s db, refl, (n, v))
  written-After n rest (some t) s db next v each = each t refl

  -- What follows a loop follows each of its writes.
  written-bind :
      (o : Option Session) (s : Session) (db : XDatabase) (next : Session → Run Next)
      (f : Next → Run Next)
      → f (leave s db) ≡ ok (leave s db)
      → (written o s db next >>= f) ≡ written o s db (λ t. next t >>= f)
  unfolding written
  written-bind none s db next f e = e
  written-bind (some t) s db next f e = refl

  pub get_keys-After :
      (n rest : ℕ) (several : Bool) (keys : List Bytes) (s : Session) (db : XDatabase)
      → Serves h pcas n db
      → n + rest < 2 ^ 63
      → Returns
          (get_keys accepts (pure_hash h) pcas several keys s db
            >>= end_get accepts (pure_hash h) pcas)
          (After h pcas rest)
  unfolding get_keys end_get db_get
  get_keys-After n rest several [] s db v small =
      (_, refl, (n, v, not_set _ (λ e. absurd (cc)), omega arith))
  get_keys-After n rest several (k ∷ ks) s db v small =
      let text = text_of several s.key (v.content k) in
      rw
        (
          dick_get_lem h pcas db.xdick k v.models.valid,
          v.models.reads k,
          get_reply-text_of several s.key (v.content k) (v.texts k),
        )
        (rw (written-bind (send accepts s text) s db _ (end_get accepts (pure_hash h) pcas) refl) (
          written-After n rest (send accepts s text) s db _ v
            (λ t sent. get_keys-After n rest several ks t db v small)))

  pub del_keys-After :
      (n rest : ℕ) (keys : List Bytes) (s : Session) (db : XDatabase)
      → Serves h pcas n db
      → s.mode ≡ mode_del
      → n + length s.keys + rest < 2 ^ 63
      → Returns (del_keys accepts (pure_hash h) pcas keys s db) (After h pcas rest)
  unfolding del_keys db_del
  del_keys-After n rest [] s db v e small = (_, refl, (n, v, not_set s (λ e'. absurd (cc)), small))
  del_keys-After n rest (k ∷ ks) s db v e small =
      let ((d, err), run, (w, reported)) =
        dick_del_lem h pcas db.xdick k v.models.valid (omega arith) in
      let v' : Serves h pcas n (record db { xdick = d }) = record {
        content = update v.content k none;
        models = Models-after h pcas v.models w;
        texts = IsText-remove v.content k v.texts;
      } in
      let reply = del_reply s.key err in
      rw run (
        written-After n rest (send accepts s reply) s (record db { xdick = d }) _ v'
          (λ t sent.
            let (same_mode, same_keys) = send-keeps s t reply sent in
            del_keys-After n rest ks t (record db { xdick = d }) v' (same_mode ∙ e)
              (rw same_keys small)))

  pub set_keys-After :
      (n rest : ℕ) (s : Session) (db : XDatabase)
      → Serves h pcas n db
      → IsSession s
      → s.mode ≡ mode_set
      → n + length s.keys + rest < 2 ^ 63
      → Returns
          (set_keys accepts (pure_hash h) pcas s.keys s db >>= end_set accepts (pure_hash h) pcas)
          (After h pcas rest)
  unfolding end_set
  set_keys-After n rest s db v sound e small =
      let g = λ (k : Bytes). value_or (val_at s.vals k) in
      let (db', run, m) =
        set_keys-Models h pcas {n = n} accepts g s.keys s db v.content
          (Has-value_or s.vals s.keys (sound.stored_all e)) v.models (omega arith) in
      let v' : Serves h pcas (n + length s.keys) db' = record {
        content = stored g v.content s.keys;
        models = m;
        texts = IsText-stored g v.content s.keys v.texts;
      } in
      rw run (
        written-After (n + length s.keys) rest (send accepts s (ack ∷ crlf)) s db' _ v'
          (λ t sent. (_, refl, (_, v', not_set _ (λ e'. absurd (cc)), omega arith))))
