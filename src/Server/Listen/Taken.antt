-- ===== src/Server/Listen/Taken.antt =====
-- server/socket.go, `Start`: two listeners at one address.
use nodare_db_dev.Prelude.{Bool, Bytes, List, [], ◌∷◌, ◌≡◌, ◌⊎◌}
use nodare_db_dev.Server.Listen.Opens.{Place}

module _ (listens : List Place → Place → Bool) (loads : Bytes → Bytes → Bool) where
  -- A place is among those that are taken.
  abbrev pub IsIn : Place → List Place → Type 0
  IsIn place [] = ⊥
  IsIn place (other ∷ open_now) = (other ≡ place) ⊎ IsIn place open_now
