-- ===== src/Client/Workers/OverHttp.antt =====
-- client/main.go in mode 1 with keys that count up, against server/ndb-server.go and its database.
use nodare_db_dev.Prelude.{Bytes, List, Option, ℕ, ◌++◌, ◌∷◌, ◌≡◌}
use nodare_db_dev.Client.Http.{slash}
use nodare_db_dev.Client.LoadTest.Serves.{http_calls}
use nodare_db_dev.Client.Served.{IsDecoder, IsUrlPlain}
use nodare_db_dev.Client.Workers.{Flags, Outside, Pairs}
use nodare_db_dev.Client.Workers.Runs.{Runs}
use nodare_db_dev.Database.Dick.{XDatabase}
use nodare_db_dev.Database.Entry.{Value}
use nodare_db_dev.Server.Router.{IsRouter}
use nodare_db_dev.Server.Web.{Response}

module _ (h pcas : Bytes → ℕ) (match_path : Bytes → Bytes → Option Bytes) (not_found : Response)
    (decode : Bytes → Option (List (Bytes × Value))) (path_of : Bytes → Bytes) (url : Bytes)
    (router : IsRouter match_path) (decoder : IsDecoder decode)
    (paths : (path : Bytes) → IsUrlPlain path → path_of (url ++ slash ∷ path) ≡ slash ∷ path)
    (key_bytes val_bytes : ℕ → ℕ → ℕ → ℕ) (range_of : Pairs → Pairs) (flags : Flags) where
  open flags use {items, rounds, startint, randomize}

  abbrev pub http_test : Outside XDatabase
  http_test = record {
    calls = http_calls h pcas match_path not_found decode path_of url;
    key_bytes = key_bytes;
    val_bytes = val_bytes;
    range_of = range_of;
  }
