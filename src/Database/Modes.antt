-- ===== src/Database/Modes.antt =====
-- The dictionary with the hash function that the program runs it with, from its start.
use nodare_db_dev.Prelude.{Bytes, List, arith, length, none, ok, ℕ, ◌<◌, ◌^◌, ◌≡◌, ◌≤◌}
use nodare_db_dev.Database.Dick.{new_xdick}
use nodare_db_dev.Database.Hashing.{HashLib, HashMode, digest, hasher, hasher-digest}
use nodare_db_dev.Database.Refines.{
  Request, dick_replies, dick_replies-map, map_replies, new_xdick-Models,
}

-- A new dictionary of at least one sub-dictionary, with `hasher` in one of its three modes,
-- answers fewer than 2 ^ 63 requests as a map that is empty at first, and never panics. The
-- functions of the hash packages and `pcas` are arbitrary.
pub new_xdick-replies :
    (lib : HashLib) (m : HashMode) (pcas : Bytes → ℕ) (c : ℕ) (rs : List Request)
    → 1 ≤ m.hasher_mode
    → m.hasher_mode ≤ 3
    → 0 < c
    → length rs < 2 ^ 63
    → dick_replies (hasher lib m) pcas (new_xdick c) rs ≡ ok (map_replies (λ q. none) rs)
new_xdick-replies lib m pcas c rs lo hi pos small = rw (hasher-digest lib m lo hi) (
    dick_replies-map (digest lib m) pcas {n = 0} (λ q. none) (new_xdick c) rs
      (new_xdick-Models (digest lib m) pcas c pos) (omega arith))
