-- ===== src/Client/Served.antt =====
-- client/clilib/client.go against server/ndb-server.go: the calls of the web server, answered by its
-- router and handlers. What `net/http` makes of an address is a parameter: `path_of` is the path that
-- a client asks for. A handler that panics ends the connection without a response.
use nodare_db_dev.Prelude.{
  All, All-map, Bool, Bytes, List, Option, Run, [], ap, append_assoc, arith, bytes_eq_refl, fault,
  if◌then◌else◌, leb, none, not, ok, refl, some, true, ℕ, ◌&&◌, ◌++◌, ◌+◌, ◌<◌, ◌==◌, ◌^◌, ◌||◌,
  ◌∙◌, ◌∷◌, ◌≡◌,
}
use nodare_db_dev.Client.Http.{
  Answer, http_get_val, http_set, is_empty, path_get, path_set, set_json, slash,
}
use nodare_db_dev.Database.Dick.{XDatabase}
use nodare_db_dev.Database.Entry.{Value, str}
use nodare_db_dev.Database.Refines.{Models}
use nodare_db_dev.Database.Sub.Edit.{update}
use nodare_db_dev.Database.Sub.Move.{pure_hash}
use nodare_db_dev.Server.Router.{
  IsRouter, IsSegment, WebRequest, find_route-get, find_route-set, get_prefix, run_handler, serve,
  set_template,
}
use nodare_db_dev.Server.Web.{
  Method, Response, handler_get-page, handler_set, method_get, method_post, set_pairs-Models,
  stored_pairs,
}
use nodare_db_dev.Utils.{is_word}

abbrev pub method_path : Method → Bytes → Bytes → WebRequest
method_path verb path content = record { verb = verb; path = path; content = content }

abbrev pub body_of : Run (XDatabase × Response) → Option Bytes
body_of (fault why) = none
body_of (ok (db, response)) = some response.body

-- A byte of a path that `net/http` passes on as it is.
abbrev pub is_plain : ℕ → Bool
is_plain c = is_word c || c == 47

abbrev pub IsUrlPlain : Bytes → Type 0
IsUrlPlain path = All (λ c. is_plain c ≡ true) path

-- A byte that stands for itself in a JSON string: printable ASCII, but no quote and no backslash.
abbrev pub is_json_plain : ℕ → Bool
is_json_plain c = leb 32 c && (leb c 126 && not (c == 34 || c == 92))

abbrev pub IsJsonPlain : Bytes → Type 0
IsJsonPlain s = All (λ c. is_json_plain c ≡ true) s

-- The JSON text of a string of such bytes, and of an object with one member.
abbrev pub json_string : Bytes → Bytes
json_string s = (34 ∷ s) ++ 34 ∷ []

abbrev pub json_object : Bytes → Bytes → Bytes
json_object name member = (123 ∷ json_string name) ++ ((58 ∷ json_string member) ++ 125 ∷ [])

-- What the JSON decoder is documented to do with such an object.
pub record IsDecoder (decode : Bytes → Option (List (Bytes × Value))) : Type 0 where
  pub decodes_object :
      (name member : Bytes)
      → IsJsonPlain name
      → IsJsonPlain member
      → decode (json_object name member) ≡ some ((name, str member) ∷ [])

pub word-json_plain : (c : ℕ) → is_word c ≡ true → is_json_plain c ≡ true
word-json_plain c e = ground (arith, e)

-- The client writes its pair as such an object.
set_json-json_object : (key val : Bytes) → set_json key val ≡ json_object key val
set_json-json_object key val =
    rw (append_assoc key (34 ∷ []) _, append_assoc val (34 ∷ []) (125 ∷ [])) refl

word-plain : (c : ℕ) → is_word c ≡ true → is_plain c ≡ true
word-plain c e = rw e refl

module _ (h pcas : Bytes → ℕ) (match_path : Bytes → Bytes → Option Bytes) (not_found : Response)
    (decode : Bytes → Option (List (Bytes × Value))) (path_of : Bytes → Bytes) (url : Bytes) where
  abbrev pub answer_to : XDatabase → WebRequest → Run (XDatabase × Response)
  answer_to = serve (pure_hash h) pcas match_path not_found decode

  -- `http.Get` and `http.Post`.
  abbrev pub web_get : XDatabase → Bytes → Option Bytes
  web_get db address = body_of (answer_to db (method_path method_get (path_of address) []))

  abbrev pub web_post : XDatabase → Bytes → Bytes → Option Bytes
  web_post db address content =
      body_of (answer_to db (method_path method_post (path_of address) content))

  -- `HTTP_Set` and `HTTP_Get` with the database `db`.
  abbrev pub client_set : XDatabase → Bytes → Bytes → Option Bytes
  client_set db = http_set (web_get db) (web_post db) url

  abbrev pub client_get : XDatabase → Bytes → Answer → Option Answer
  client_get db = http_get_val (web_get db) (web_post db) url

  module _ (router : IsRouter match_path) (decoder : IsDecoder decode)
      (paths : (path : Bytes)
        → IsUrlPlain path
        → path_of (url ++ slash ∷ path) ≡ slash ∷ path) where
    get-path :
        (key : Bytes) → IsSegment key → path_of (url ++ (path_get ++ key)) ≡ get_prefix ++ key
    get-path key (some_key, all) =
        paths (103 ∷ 101 ∷ 116 ∷ slash ∷ key)
          (refl, (refl, (refl, (refl, All-map key word-plain all))))

    set-path : path_of (url ++ path_set) ≡ set_template
    set-path = paths (115 ∷ 101 ∷ 116 ∷ []) (refl, (refl, (refl, tt)))

    pub web_set-stores :
        {n : ℕ} (db : XDatabase) (f : Bytes → Option Value) (key val : Bytes)
        → Models h pcas n f db.xdick
        → n + 1 < 2 ^ 63
        → IsSegment key
        → IsJsonPlain val
        → (db' : XDatabase) × (answer_to db
              (method_path method_post (path_of (url ++ path_set)) (set_json key val))
            ≡ ok (db', record { status = 201; body = [] }))
          × Models h pcas (n + 1) (update f key (some (str val))) db'.xdick
    unfolding serve run_handler handler_set stored_pairs
    web_set-stores {n = n} db f key val m small is_key plain =
        let decodes : decode (set_json key val) ≡ some ((key, str val) ∷ []) =
          ap decode (set_json-json_object key val)
          ∙ decoder.decodes_object key val (All-map key word-json_plain is_key.1) plain in
        let (db', run, m') =
          set_pairs-Models h pcas ((key, str val) ∷ []) db f m (omega (arith, small)) in
        (
          db',
          rw
              (
                set-path,
                find_route-set (pure_hash h) pcas match_path not_found decode router,
                decodes,
                run,
              )
              refl,
          m',
        )

    pub web_get-reads :
        {n : ℕ} (db : XDatabase) (f : Bytes → Option Value) (key val : Bytes)
        → Models h pcas n f db.xdick
        → IsSegment key
        → f key ≡ some (str val)
        → web_get db (url ++ (path_get ++ key)) ≡ some val
    unfolding serve run_handler
    web_get-reads db f key val m is_key has =
        rw
          (
            get-path key is_key,
            find_route-get (pure_hash h) pcas match_path not_found decode router key is_key,
            handler_get-page h pcas db f key m is_key.0,
            has,
          )
          refl

    -- On a database that models a map with at most `n` entries in a sub-dictionary, `n + 1` below
    -- 2 ^ 63, with a router that matches the three templates as documented, a JSON decoder that
    -- reads an object of one plain string member as that pair, addresses whose plain paths after
    -- a slash arrive as they are, a key of letters, digits, `_` and `-` that is not empty, and a
    -- value of printable ASCII without quotes and backslashes: `HTTP_Set` has no error, the
    -- server answers 201 and stores the value under the key alone, and a `HTTP_Get` of the key
    -- then gives the value, and reports it as found unless it is empty.
    pub http_set-http_get :
        {n : ℕ} (db : XDatabase) (f : Bytes → Option Value) (key val : Bytes) (out : Answer)
        → Models h pcas n f db.xdick
        → n + 1 < 2 ^ 63
        → IsSegment key
        → IsJsonPlain val
        → (db' : XDatabase) × (client_set db key val ≡ some [])
          × (answer_to db (method_path method_post (path_of (url ++ path_set)) (set_json key val))
              ≡ ok (db', record { status = 201; body = [] }))
          × Models h pcas (n + 1) (update f key (some (str val))) db'.xdick
          × (client_get db' key out
              ≡ some (record { val = val; found = if is_empty val then out.found else true }))
    unfolding serve run_handler http_set http_get_val
    http_set-http_get {n = n} db f key val out m small is_key plain =
        let (db', run, m') = web_set-stores db f key val m small is_key plain in
        let has : update f key (some (str val)) key ≡ some (str val) =
          rw (bytes_eq_refl key) refl in
        let got = web_get-reads db' (update f key (some (str val))) key val m' is_key has in
        (db', rw run refl, run, m', rw got refl)
