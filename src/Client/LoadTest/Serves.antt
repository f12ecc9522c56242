-- ===== src/Client/LoadTest/Serves.antt =====
-- client/main.go in mode 1 against server/ndb-server.go: the calls of the load test, by `HTTP_Set` and
-- `HTTP_Get` of the client library, through the router and its handlers to the database.
use nodare_db_dev.Prelude.{
  All-map, Bool, Bool-cases, Bytes, List, Option, Run, [], ap, arith, bytes_eq, false, fault,
  if◌then◌else◌, inl, inr, none, ok, refl, some, suc, sym, true, ℕ, ◌++◌, ◌+◌, ◌<◌, ◌^◌, ◌∙◌, ◌∷◌,
  ◌≡◌, ◌≢◌,
}
use nodare_db_dev.Client.Http.{Answer, http_get_val, is_empty, path_set, set_json, slash}
use nodare_db_dev.Client.LoadTest.{Calls}
use nodare_db_dev.Client.LoadTest.Checked.{IsMapServer}
use nodare_db_dev.Client.LoadTest.Words.{IsWord}
use nodare_db_dev.Client.Served.{
  IsDecoder, IsUrlPlain, answer_to, client_get, method_path, web_get-reads, web_set-stores,
  word-json_plain,
}
use nodare_db_dev.Database.Dick.{XDatabase, dick_get}
use nodare_db_dev.Database.Dick.Methods.{dick_get_lem, or_nil}
use nodare_db_dev.Database.Entry.{Value, dynamic, nil, str}
use nodare_db_dev.Database.Refines.{Models}
use nodare_db_dev.Database.Sub.Edit.{update}
use nodare_db_dev.Database.Sub.Move.{pure_hash}
use nodare_db_dev.Server.Router.{IsRouter}
use nodare_db_dev.Server.Web.{Response, method_post}

-- What the handler of a POST leaves.
abbrev pub after_post : Run (XDatabase × Response) → Option XDatabase
after_post (fault why) = none
after_post (ok (db, response)) = some db

abbrev pub with_answer : XDatabase → Option Answer → Option (XDatabase × Bytes × Bool)
with_answer db none = none
with_answer db (some a) = some (db, a.val, a.found)

abbrev pub text_in : Option Value → Option Bytes
text_in (some (str s)) = some s
text_in _ = none

abbrev pub read_text : Run Value → Option Bytes
read_text (ok (str s)) = some s
read_text _ = none

read_text-or_nil : (o : Option Value) → read_text (ok (or_nil o)) ≡ text_in o
read_text-or_nil none = refl
read_text-or_nil (some nil) = refl
read_text-or_nil (some (str s)) = refl
read_text-or_nil (some (dynamic n)) = refl

text_in-str : (o : Option Value) (s : Bytes) → text_in o ≡ some s → o ≡ some (str s)
text_in-str none s e = absurd (cc)
text_in-str (some nil) s e = absurd (cc)
text_in-str (some (str t)) s e = cc
text_in-str (some (dynamic n)) s e = absurd (cc)

text_in-update :
    (f : Bytes → Option Value) (k v q : Bytes)
    → text_in (update f k (some (str v)) q) ≡ (if bytes_eq k q then some v else text_in (f q))
text_in-update f k v q = elim (Bool-cases (bytes_eq k q)) [ inl e ↦ rw e refl | inr e ↦ rw e refl ]

module _ (h pcas : Bytes → ℕ) (match_path : Bytes → Bytes → Option Bytes) (not_found : Response)
    (decode : Bytes → Option (List (Bytes × Value))) (path_of : Bytes → Bytes) (url : Bytes) where
  abbrev pub http_calls : Calls XDatabase
  http_calls = record {
    call_set = λ db k v. after_post (
        answer_to h pcas match_path not_found decode path_of url db
          (method_path method_post (path_of (url ++ path_set)) (set_json k v)));
    call_get = λ db k. with_answer db (
        client_get h pcas match_path not_found decode path_of url db k
          (record { val = []; found = false }));
  }

  -- The texts that the database has.
  abbrev pub db_view : XDatabase → Bytes → Option Bytes
  db_view db q = read_text (dick_get (pure_hash h) pcas db.xdick q)

  -- The database models a map, and no counter of its tables can overflow in so many sets.
  abbrev pub DbRoom : ℕ → XDatabase → Type 0
  DbRoom m db = (n : ℕ) × (f : Bytes → Option Value) × Models h pcas n f db.xdick × (n + m < 2 ^ 63)

  db_view-text_in :
      {n : ℕ} (db : XDatabase) (f : Bytes → Option Value) (q : Bytes)
      → Models h pcas n f db.xdick
      → db_view db q ≡ text_in (f q)
  db_view-text_in db f q m =
      rw (dick_get_lem h pcas db.xdick q m.valid, m.reads q) (read_text-or_nil (f q))

  module _ (router : IsRouter match_path) (decoder : IsDecoder decode)
      (paths : (path : Bytes)
        → IsUrlPlain path
        → path_of (url ++ slash ∷ path) ≡ slash ∷ path) where
    pub http_set-DbRoom :
        (m : ℕ) (db : XDatabase) (k v : Bytes)
        → IsWord k
        → IsWord v
        → DbRoom (suc m) db
        → (db' : XDatabase) × (http_calls.call_set db k v ≡ some db')
          × ((q : Bytes) → db_view db' q ≡ (if bytes_eq k q then some v else db_view db q))
          × DbRoom m db'
    http_set-DbRoom m db k v key_word val_word (n, f, models, small) =
        let (db', run, models') =
          web_set-stores h pcas match_path not_found decode path_of url router decoder paths {n = n}
            db f k v models (omega (arith, small)) (key_word.not_empty, key_word.all_word)
            (All-map v word-json_plain val_word.all_word) in
        (
          db',
          rw run refl,
          λ q.
              db_view-text_in db' (update f k (some (str v))) q models'
              ∙ text_in-update f k v q
              ∙ ap (λ o. if bytes_eq k q then some v else o) (sym (db_view-text_in db f q models)),
          (n + 1, update f k (some (str v)), models', omega (arith, small)),
        )

    pub http_get-DbRoom :
        (m : ℕ) (db : XDatabase) (k v : Bytes)
        → IsWord k
        → IsWord v
        → DbRoom m db
        → db_view db k ≡ some v
        → (db' : XDatabase) × (http_calls.call_get db k ≡ some (db', v, true))
          × ((q : Bytes) → db_view db' q ≡ db_view db q)
          × DbRoom m db'
    unfolding http_get_val
    http_get-DbRoom m db k v key_word val_word (n, f, models, small) has =
        let stored = text_in-str (f k) v (sym (db_view-text_in db f k models) ∙ has) in
        let got =
          web_get-reads h pcas match_path not_found decode path_of url router decoder paths {n = n}
            db f k v models (key_word.not_empty, key_word.all_word) stored in
        (db, rw got (found_word v val_word.not_empty), λ q. refl, (n, f, models, small))
      where
        found_word :
            (t : Bytes)
            → t ≢ []
            → with_answer db (some (record { val = t; found = if is_empty t then false else true }))
              ≡ some (db, t, true)
        found_word [] ne = absurd (ne refl)
        found_word (c ∷ t) ne = refl

    -- With a router, a JSON decoder and addresses as documented, the calls of the load test by HTTP
    -- keep a map of words.
    abbrev pub http_calls-IsMapServer : IsMapServer http_calls
    http_calls-IsMapServer = record {
      view_of = db_view;
      HasRoom = DbRoom;
      less_room = λ m db (n, f, models, small). (n, f, models, omega (arith, small));
      sets = http_set-DbRoom;
      gets = http_get-DbRoom;
    }
