-- ===== src/Server/Router.antt =====
-- server/ndb-server.go: the routes of the web server. The router is another package's: `match_path`
-- gives the variable of a path that a template matches, or the empty text where the template has
-- none. The JSON decoder is the standard library's.
use nodare_db_dev.Prelude.{
  All, Bytes, List, Option, Run, [], fault, none, ok, refl, some, true, ℕ, ◌++◌, ◌∷◌, ◌≡◌, ◌≢◌,
}
use nodare_db_dev.Database.Dick.{XDatabase}
use nodare_db_dev.Database.Entry.{Value}
use nodare_db_dev.Server.Web.{Method, Response, handler_del, handler_get_val_by_key, handler_set}
use nodare_db_dev.Utils.{is_word}

-- "/get/", "/del/", "/set", and "{key}".
abbrev pub get_prefix : Bytes
get_prefix = 47 ∷ 103 ∷ 101 ∷ 116 ∷ 47 ∷ []

abbrev pub del_prefix : Bytes
del_prefix = 47 ∷ 100 ∷ 101 ∷ 108 ∷ 47 ∷ []

abbrev pub key_param : Bytes
key_param = 123 ∷ 107 ∷ 101 ∷ 121 ∷ 125 ∷ []

abbrev pub get_template : Bytes
get_template = get_prefix ++ key_param

abbrev pub del_template : Bytes
del_template = del_prefix ++ key_param

abbrev pub set_template : Bytes
set_template = 47 ∷ 115 ∷ 101 ∷ 116 ∷ []

pub data Handler : Type 0 where
  on_get on_del on_set : Handler

-- `CreateMux`: the routes, in the order in which they are tried.
abbrev pub create_mux : List (Bytes × Handler)
create_mux = (get_template, on_get) ∷ (del_template, on_del) ∷ (set_template, on_set) ∷ []

pub record WebRequest : Type 0 where
  pub verb : Method
  pub path : Bytes
  pub content : Bytes

-- A path segment of letters, digits, `_` and `-`, not empty: the router cleans a path of dots first.
abbrev pub IsSegment : Bytes → Type 0
IsSegment key = (key ≢ []) × All (λ c. is_word c ≡ true) key

-- The router's documented matches of the three templates.
pub record IsRouter (match_path : Bytes → Bytes → Option Bytes) : Type 0 where
  pub gets : (key : Bytes) → IsSegment key → match_path get_template (get_prefix ++ key) ≡ some key
  pub dels : (key : Bytes) → IsSegment key → match_path del_template (del_prefix ++ key) ≡ some key
  pub sets : match_path set_template set_template ≡ some []
  pub not_get : (key : Bytes) → match_path get_template (del_prefix ++ key) ≡ none
  pub set_not_get : match_path get_template set_template ≡ none
  pub set_not_del : match_path del_template set_template ≡ none

-- The router's own response where no route matches is `not_found`, and `decode` reads an object.
module _ (hash : Bytes → Run ℕ) (pcas : Bytes → ℕ) (match_path : Bytes → Bytes → Option Bytes)
    (not_found : Response) (decode : Bytes → Option (List (Bytes × Value))) where
  unfoldable pub find_route : List (Bytes × Handler) → Bytes → Option (Handler × Bytes)
  find_route [] path = none
  find_route ((template, handler) ∷ routes) path = elim (match_path template path) [
    | some key ↦ some (handler, key)
    | none ↦ find_route routes path
  ]

  abbrev pub with_page : XDatabase → Run Response → Run (XDatabase × Response)
  with_page db (fault why) = fault why
  with_page db (ok response) = ok (db, response)

  unfoldable pub run_handler :
      XDatabase → WebRequest → Option (Handler × Bytes) → Run (XDatabase × Response)
  run_handler db r none = ok (db, not_found)
  run_handler db r (some (on_get, key)) =
      with_page db (handler_get_val_by_key hash pcas db r.verb key)
  run_handler db r (some (on_del, key)) = handler_del hash pcas db r.verb key
  run_handler db r (some (on_set, key)) = handler_set hash pcas db r.verb (decode r.content)

  -- A request to the router.
  unfoldable pub serve : XDatabase → WebRequest → Run (XDatabase × Response)
  serve db r = run_handler db r (find_route create_mux r.path)

  module _ (router : IsRouter match_path) where
    pub find_route-get :
        (key : Bytes)
        → IsSegment key
        → find_route create_mux (get_prefix ++ key) ≡ some (on_get, key)
    unfolding find_route
    find_route-get key segment = rw (router.gets key segment) refl

    pub find_route-del :
        (key : Bytes)
        → IsSegment key
        → find_route create_mux (del_prefix ++ key) ≡ some (on_del, key)
    unfolding find_route
    find_route-del key segment = rw (router.not_get key, router.dels key segment) refl

    pub find_route-set : find_route create_mux set_template ≡ some (on_set, [])
    unfolding find_route
    find_route-set = rw (router.set_not_get, router.set_not_del, router.sets) refl
