-- ===== src/Client/Http.antt =====
-- client/clilib/client.go, the calls of the web server. `http_get url` and `http_post url body` are
-- the body of the response, or `none` where the call or the read of the body fails.
use nodare_db_dev.Prelude.{
  Bool, Bytes, Option, [], false, if◌then◌else◌, none, some, true, ℕ, ◌++◌, ◌∷◌,
}

abbrev pub slash : ℕ
slash = 47

-- "/get/", "/del/" and "/set".
abbrev pub path_get : Bytes
path_get = slash ∷ 103 ∷ 101 ∷ 116 ∷ slash ∷ []

abbrev pub path_del : Bytes
path_del = slash ∷ 100 ∷ 101 ∷ 108 ∷ slash ∷ []

abbrev pub path_set : Bytes
path_set = slash ∷ 115 ∷ 101 ∷ 116 ∷ []

-- What the caller's pointers hold: `val` and `found`.
pub record Answer : Type 0 where
  pub val : Bytes
  pub found : Bool

abbrev pub is_empty : Bytes → Bool
is_empty [] = true
is_empty (c ∷ s) = false

abbrev take_answer : Option Bytes → Answer → Option Answer
take_answer none out = none
take_answer (some body) out =
    some (record { val = body; found = if is_empty body then out.found else true })

-- The JSON text is put together without escapes.
abbrev pub set_json : Bytes → Bytes → Bytes
set_json key val = (123 ∷ 34 ∷ key) ++ ((34 ∷ 58 ∷ 34 ∷ val) ++ (34 ∷ 125 ∷ []))

module _ (http_get : Bytes → Option Bytes) (http_post : Bytes → Bytes → Option Bytes)
    (url : Bytes) where
  unfoldable pub http_get_val : Bytes → Answer → Option Answer
  http_get_val key out = take_answer (http_get (url ++ (path_get ++ key))) out

  unfoldable pub http_set : Bytes → Bytes → Option Bytes
  http_set key val = http_post (url ++ path_set) (set_json key val)

  unfoldable pub http_del : Bytes → Option Bytes
  http_del key = http_get (url ++ (path_del ++ key))
