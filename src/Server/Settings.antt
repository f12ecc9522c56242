-- ===== src/Server/Settings.antt =====
-- server/configuration.go, `initDB`: the number of sub-dictionaries and the timeouts of the web
-- server. The directories that it makes are I/O; the settings are arguments, by their types.
use nodare_db_dev.Prelude.{
  All, Bool, Bool-cases, Bytes, List, [], arith, false, if◌then◌else◌, inl, inr, none, true, ℕ, ◌<◌,
  ◌==◌, ◌||◌, ◌∷◌, ◌≡◌,
}
use nodare_db_dev.Database.Dick.{new_dick}
use nodare_db_dev.Database.Refines.{Models, new_xdick-Models}

-- The package variables `RTO`, `WTO` and `ITO`.
pub record Timeouts : Type 0 where
  pub rto : ℕ
  pub wto : ℕ
  pub ito : ℕ

abbrev pub avail_subdicks : List ℕ
avail_subdicks =
    10 ∷ 100 ∷ 1000 ∷ 10000 ∷ 100000 ∷ 1000000 ∷ 10000000 ∷ 100000000 ∷ 1000000000 ∷ 2000000000
    ∷ 4000000000 ∷ []

unfoldable pub is_avail : ℕ → List ℕ → Bool
is_avail n [] = false
is_avail n (v ∷ vs) = n == v || is_avail n vs

-- As in the source, the timeouts are read after the return for a number that is available.
unfoldable pub init_db : ℕ → Timeouts → Timeouts → ℕ × Timeouts
init_db set_subdicks configured current =
    if is_avail set_subdicks avail_subdicks then (set_subdicks, current) else (1000, configured)

pub is_avail-pos : (n : ℕ) (vs : List ℕ) → All (λ v. 0 < v) vs → is_avail n vs ≡ true → 0 < n
unfolding is_avail
is_avail-pos n [] all e = absurd (ground arith)
is_avail-pos n (v ∷ vs) all e = ground (arith, all.0, is_avail-pos n vs all.1)

init_db-pos : (n : ℕ) (configured current : Timeouts) → 0 < (init_db n configured current).0
unfolding init_db
init_db-pos n configured current = elim (Bool-cases (is_avail n avail_subdicks)) [
  | inl e ↦ rw e (is_avail-pos n avail_subdicks (omega arith) e)
  | inr e ↦ rw e (omega arith)
]

-- Whatever number the settings have, the database that starts with the number of sub-dictionaries
-- that `initDB` returns models the empty map.
pub new_dick-init_db :
    (h pcas : Bytes → ℕ) (now n : ℕ) (configured current : Timeouts)
    → Models h pcas 0 (λ q. none) (new_dick now (init_db n configured current).0).xdick
unfolding new_dick
new_dick-init_db h pcas now n configured current =
    new_xdick-Models h pcas (init_db n configured current).0 (init_db-pos n configured current)
