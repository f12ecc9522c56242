-- ===== src/Logger.antt =====
-- logger/logger.go: the level, and which messages it lets through. A level is a number, or -1
-- (`none`).
pub mod Files
use nodare_db_dev.Prelude.{
  Bool, Bool-cases, Bytes, Option, [], bytes_eq, bytes_eq_sound, false, if◌then◌else◌, inl, inr,
  leb, none, not, refl, some, true, ℕ, ◌==◌, ◌||◌, ◌∷◌, ◌≡◌,
}
use nodare_db_dev.Database.Sub.{get}

abbrev pub info : ℕ
info = 0x1

abbrev pub warn : ℕ
warn = 0x2

abbrev pub debug : ℕ
debug = 0x3

abbrev pub info_name : Bytes
info_name = 73 ∷ 78 ∷ 70 ∷ 79 ∷ []

abbrev pub warn_name : Bytes
warn_name = 87 ∷ 65 ∷ 82 ∷ 78 ∷ []

abbrev pub debug_name : Bytes
debug_name = 68 ∷ 69 ∷ 66 ∷ 85 ∷ 71 ∷ []

unfoldable pub get_loglevel : Bytes → Option ℕ
get_loglevel loglvl =
    if bytes_eq loglvl info_name
    then some info
    else if bytes_eq loglvl warn_name
    then some warn
    else if bytes_eq loglvl debug_name
    then some debug
    else none

-- The variable LOGLEVEL of the environment, if it is set.
unfoldable pub get_env_loglevel : Option Bytes → Option ℕ
get_env_loglevel none = some info
get_env_loglevel (some logstr) = get_loglevel logstr

unfoldable pub if_debug : Option ℕ → Bool
if_debug none = false
if_debug (some lvl) = lvl == debug

-- The guards of `Info` and `Debug`. `Warn` and `Error` have none.
unfoldable pub shows_info : Option ℕ → Bool
shows_info none = false
shows_info (some lvl) = leb info lvl || lvl == debug

unfoldable pub shows_debug : Option ℕ → Bool
shows_debug none = false
shows_debug (some lvl) = lvl == debug

-- `SetLogLvl` of server/ndb-server.go, with the test of the method, on the logger's level.
unfoldable pub set_log_lvl : Option ℕ → Bool → Bytes → Option ℕ × ℕ
set_log_lvl level get key =
    if not get
    then (level, 405)
    else if bytes_eq key []
    then (level, 406)
    else (get_loglevel key, 200)

-- After a GET of `SetLogLvl` with a name that is not empty, the messages of `Info` are shown
-- exactly if the name is INFO, WARN or DEBUG, and those of `Debug` exactly if it is DEBUG.
pub set_log_lvl-shows :
    (level : Option ℕ) (key : Bytes)
    → bytes_eq key [] ≡ false
    → (shows_info (set_log_lvl level true key).0
        ≡ (bytes_eq key info_name || (bytes_eq key warn_name || bytes_eq key debug_name)))
      × (shows_debug (set_log_lvl level true key).0 ≡ bytes_eq key debug_name)
unfolding set_log_lvl get_loglevel shows_info shows_debug
set_log_lvl-shows level key named = rw named (elim (Bool-cases (bytes_eq key info_name)) [
  | inl e ↦ rw (e, bytes_eq_sound key info_name e) (refl, unfold bytes_eq in refl)
  | inr e ↦ rw e (elim (Bool-cases (bytes_eq key warn_name)) [
    | inl w ↦ rw (w, bytes_eq_sound key warn_name w) (refl, unfold bytes_eq in refl)
    | inr w ↦ rw w (elim (Bool-cases (bytes_eq key debug_name)) [
      | inl d ↦ rw d (refl, refl)
      | inr d ↦ rw d (refl, refl)
    ])
  ])
])
