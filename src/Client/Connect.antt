-- ===== src/Client/Connect.antt =====
-- client/clilib/client.go, `NewCliHandler`, `NewCli`, `CliConnect` and `Transport`. The calls of the
-- `net` and `tls` packages, and the read of the server's welcome, are parameters. A mode is a
-- natural number: every number but 1 and 2 is handled alike. The mutex of the handler makes
-- `NewCli` one step, and `worker` does nothing.
use nodare_db_dev.Prelude.{
  Bool, Bytes, List, Option, Run, [], false, fault, if◌then◌else◌, index_out_of_range, length, ltb,
  nil_dereference, none, ok, set, some, true, ℕ, ◌++◌, ◌+◌, ◌==◌, ◌>>=◌, ◌||◌, ◌∷◌,
}
use nodare_db_dev.Client.{CliHandler, expand_slice}
use nodare_db_dev.Client.Http.{is_empty, slash}
use nodare_db_dev.Database.Sub.{is_some}

abbrev localhost : Bytes
localhost = 108 ∷ 111 ∷ 99 ∷ 97 ∷ 108 ∷ 104 ∷ 111 ∷ 115 ∷ 116 ∷ 58 ∷ []

-- "localhost:2420", the same for HTTPS, "localhost:3420" and "localhost:4420".
abbrev pub default_addr : Bytes
default_addr = localhost ++ (50 ∷ 52 ∷ 50 ∷ 48 ∷ [])

abbrev pub default_addr_ssl : Bytes
default_addr_ssl = localhost ++ (50 ∷ 52 ∷ 50 ∷ 48 ∷ [])

abbrev pub default_addr_tcp_socket : Bytes
default_addr_tcp_socket = localhost ++ (51 ∷ 52 ∷ 50 ∷ 48 ∷ [])

abbrev pub default_addr_tls_socket : Bytes
default_addr_tls_socket = localhost ++ (52 ∷ 52 ∷ 50 ∷ 48 ∷ [])

-- "http://" and "https://".
abbrev pub http_scheme : Bytes
http_scheme = 104 ∷ 116 ∷ 116 ∷ 112 ∷ 58 ∷ slash ∷ slash ∷ []

abbrev pub https_scheme : Bytes
https_scheme = 104 ∷ 116 ∷ 116 ∷ 112 ∷ 115 ∷ 58 ∷ slash ∷ slash ∷ []

-- `Options` without the channels, the log and the wait group that a client takes over.
pub record Options : Type 0 where
  pub addr : Bytes
  pub mode : ℕ
  pub ssl : Bool
  pub ssl_insecure : Bool
  pub auth : Bytes
  pub daemon : Bool
  pub run_test : Bool

-- `Client`: `http` says whether there is an HTTP client, `sock` and `tp` are nil or a connection.
pub record Client (C : Type 0) : Type 0 where
  pub mode : ℕ
  pub id : ℕ
  pub addr : Bytes
  pub url : Bytes
  pub ssl : Bool
  pub insecure : Bool
  pub auth : Bytes
  pub daemon : Bool
  pub runtest : Bool
  pub http : Bool
  pub sock : Option C
  pub tp : Option C

-- What `CliConnect` returns: an error, nil and no error, or the client.
pub data Outcome : Type 0 where
  failed detached linked : Outcome

-- The address that `NewCli` writes into the caller's options where they have none.
unfoldable pub fill_addr : Options → Options
fill_addr opts =
    if is_empty opts.addr
    then (if opts.mode == 1
        then record opts { addr = if opts.ssl then default_addr_ssl else default_addr }
        else if opts.mode == 2
        then record opts {
          addr = if opts.ssl then default_addr_tls_socket else default_addr_tcp_socket;
        }
        else opts)
    else opts

unfoldable pub new_client : {C : Type 0} → Options → Client C
new_client opts = record {
  mode = opts.mode;
  id = 0;
  addr = opts.addr;
  url = [];
  ssl = opts.ssl;
  insecure = opts.ssl_insecure;
  auth = opts.auth;
  daemon = opts.daemon;
  runtest = opts.run_test;
  http = false;
  sock = none;
  tp = none;
}

unfoldable pub transport : {C : Type 0} → Client C → Client C
transport c = record c {
  url =
      if is_empty c.url
      then (if c.ssl then https_scheme ++ c.addr else http_scheme ++ c.addr)
      else c.url;
  http = true;
}

unfoldable pub new_cli_handler : {C : Type 0} → CliHandler (Client C)
new_cli_handler = record { clients = none ∷ none ∷ []; slots = 1; id = 0 }

-- `clients[i] = c`, with Go's bounds check.
unfoldable pub put_at {ℓ} : {A : Type ℓ} → List A → ℕ → A → Run (List A)
put_at cs i c = if ltb i (length cs) then ok (set cs i c) else fault index_out_of_range

-- What `NewCli` does with what `CliConnect` returns: the new client's number goes into it, through
-- a pointer that may be nil, and the client into the slice.
unfoldable pub take_client :
    {C : Type 0}
    → CliHandler (Client C)
    → Options
    → Client C
    → Outcome
    → Run (CliHandler (Client C) × Options × Option (Client C))
take_client h opts c failed = ok (h, opts, none)
take_client h opts c detached = fault nil_dereference
take_client h opts c linked = do
  g ← expand_slice (record h { id = h.id + 1 })
  let numbered = record c { id = h.id + 1 }
  cs ← put_at g.clients g.id (some numbered)
  ok (record g { clients = cs }, opts, some numbered)

abbrev pub take_sock : {C : Type 0} → Client C → Option C → Client C × Bool
take_sock c none = (c, false)
take_sock c (some conn) = (record c { sock = some conn; tp = some conn }, true)

abbrev pub with_addr : {C : Type 0} → Client C → Bytes → Client C
with_addr c a = if is_empty c.addr then record c { addr = a } else c

module _ {C : Type 0} (tcp_dial : Bytes → Option C) (tls_dial : Bool → Bytes → Option C)
    (welcomes : C → Bool) where
  unfoldable pub dial_sock : Client C → Client C × Bool
  dial_sock c =
      if c.ssl
      then (let d = with_addr c default_addr_tls_socket in take_sock d (tls_dial d.insecure d.addr))
      else (let d = with_addr c default_addr_tcp_socket in take_sock d (tcp_dial d.addr))

  -- The switch on the mode: the client after it, and whether `CliConnect` goes on. A mode that is
  -- neither 1 nor 2 is logged, and it goes on.
  unfoldable pub dial : Client C → Client C × Bool
  dial c =
      if c.mode == 1 then (transport c, true) else if c.mode == 2 then dial_sock c else (c, true)

  abbrev is_welcome : Option C → Bool
  is_welcome none = true
  is_welcome (some conn) = welcomes conn

  unfoldable pub greet : Client C × Bool → Client C × Outcome
  greet (c, false) = (c, failed)
  greet (c, true) =
      if is_welcome c.tp then (c, (if c.daemon then detached else linked)) else (c, failed)

  unfoldable pub cli_connect : Client C → Client C × Outcome
  cli_connect c = if is_some c.sock || c.http then (c, linked) else greet (dial c)

  unfoldable pub new_cli :
      CliHandler (Client C) → Options → Run (CliHandler (Client C) × Options × Option (Client C))
  new_cli h opts =
      let made = cli_connect (new_client (fill_addr opts)) in
      take_client h (fill_addr opts) made.0 made.1
