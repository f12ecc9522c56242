-- ===== src/Server/Listen.antt =====
-- server/socket.go, `NewSocketHandler` and `Start`: the access list from the settings, and the three
-- listeners, whose goroutines interleave. What `Accept` returns is given with each step; a listener
-- starts where it first waits. Its child Opens has what comes before, `net.Listen` and the certificate.
pub mod Admits
pub mod Listed
pub mod Races
pub mod Opens
pub mod Taken
use nodare_db_dev.Prelude.{
  Bool, Bytes, List, Option, Run, [], false, fault, if◌then◌else◌, nil_dereference, none, ok, true,
  ℕ, ◌%◌, ◌++◌, ◌+◌, ◌==◌, ◌>>=◌, ◌^◌, ◌∷◌,
}
use nodare_db_dev.Server.Access.{Acl, is_allowed, set_acl, setup_acl}

abbrev pub comma : ℕ
comma = 44

-- `strings.Split(s, ",")`, after the start `acc` of the first part.
unfoldable pub split_comma : Bytes → Bytes → List Bytes
split_comma acc [] = acc ∷ []
split_comma acc (c ∷ s) =
    if c == comma then acc ∷ split_comma [] s else split_comma (acc ++ c ∷ []) s

unfoldable pub allow_all : Acl → List Bytes → Acl
allow_all m [] = m
allow_all m (ip ∷ ips) = allow_all (set_acl m ip true) ips

-- The list that `NewSocketHandler` sets up from `DefaultACL` and the setting.
unfoldable pub socket_acl : Option Acl → Bytes → Acl
socket_acl default_acl [] = setup_acl none default_acl
socket_acl default_acl (c ∷ iplist) =
    allow_all (setup_acl none default_acl) (split_comma [] (c ∷ iplist))

-- `conn.RemoteAddr()`: a TCP address with its IP as text, or another.
pub data RemoteAddr : Type 0 where
  tcp_addr : Bytes → RemoteAddr
  other_addr : RemoteAddr

-- "x" for an address that is not TCP.
unfoldable pub get_remote_ip : RemoteAddr → Bytes
get_remote_ip (tcp_addr ip) = ip
get_remote_ip other_addr = 120 ∷ []

-- What `Accept` returns: a connection; or no connection, and an error that is `net.ErrClosed` or
-- another one.
pub data Accepted : Type 0 where
  incoming : RemoteAddr → Accepted
  listener_closed accept_error : Accepted

pub data Listener : Type 0 where
  unix_listener tcp_listener tls_listener : Listener

-- `CLI` as `handleSocketConn` is started with it, and its arguments `raddr` and `socket`.
pub record Cli : Type 0 where
  pub id : ℕ
  pub conn : RemoteAddr
  pub raddr : Bytes
  pub socket : Bool

-- Where the loop of a listener stands: before `Accept`; with a connection, before the counter is
-- raised under the mutex; after it, before the counter is read; at its return.
pub data Phase : Type 0 where
  waiting : Phase
  counting : RemoteAddr → Phase
  starting : RemoteAddr → Phase
  returned : Phase

-- The parts of `SOCKET` that the listeners share, and what they did: the sessions that were started
-- and the connections that were closed, the latest first.
pub record Sockets : Type 0 where
  pub id : ℕ
  pub acl : Acl
  pub started : List Cli
  pub refused : List RemoteAddr

-- `getRemoteIP` is called before the error is looked at, on a connection that is nil then.
unfoldable pub take_tcp : Accepted → Sockets → Run (Phase × Sockets)
take_tcp (incoming a) s = ok (
    if is_allowed s.acl (get_remote_ip a)
    then (counting a, s)
    else (waiting, record s { refused = a ∷ s.refused }))
take_tcp listener_closed s = fault nil_dereference
take_tcp accept_error s = fault nil_dereference

unfoldable pub take_unix : Accepted → Sockets → Run (Phase × Sockets)
take_unix (incoming a) s = ok (counting a, s)
take_unix listener_closed s = ok (returned, s)
take_unix accept_error s = ok (waiting, s)

-- The TLS listener has the same tests in the same order.
abbrev pub take_tls : Accepted → Sockets → Run (Phase × Sockets)
take_tls got s = take_tcp got s

abbrev pub take_conn : Listener → Accepted → Sockets → Run (Phase × Sockets)
take_conn unix_listener got s = take_unix got s
take_conn tcp_listener got s = take_tcp got s
take_conn tls_listener got s = take_tls got s

abbrev pub new_cli_of : Listener → RemoteAddr → ℕ → Cli
new_cli_of unix_listener a n = record { id = n; conn = a; raddr = []; socket = true }
new_cli_of tcp_listener a n = record { id = n; conn = a; raddr = get_remote_ip a; socket = false }
new_cli_of tls_listener a n = record { id = n; conn = a; raddr = get_remote_ip a; socket = false }

-- One step of a listener. The counter has 64 bits.
unfoldable pub step : Listener → Accepted → Phase → Sockets → Run (Phase × Sockets)
step l got waiting s = take_conn l got s
step l got (counting a) s = ok (starting a, record s { id = (s.id + 1) % 2 ^ 64 })
step l got (starting a) s = ok (waiting, record s { started = new_cli_of l a s.id ∷ s.started })
step l got returned s = ok (returned, s)

-- The three goroutines.
pub record Threads : Type 0 where
  pub unix_phase : Phase
  pub tcp_phase : Phase
  pub tls_phase : Phase
  pub sockets : Sockets

abbrev pub phase_of : Listener → Threads → Phase
phase_of unix_listener t = t.unix_phase
phase_of tcp_listener t = t.tcp_phase
phase_of tls_listener t = t.tls_phase

abbrev pub with_phase : Listener → Threads → Phase × Sockets → Threads
with_phase unix_listener t (p, s) = record t { unix_phase = p; sockets = s }
with_phase tcp_listener t (p, s) = record t { tcp_phase = p; sockets = s }
with_phase tls_listener t (p, s) = record t { tls_phase = p; sockets = s }

unfoldable pub step_thread : Listener → Accepted → Threads → Run Threads
step_thread l got t = do next ← step l got (phase_of l t) t.sockets; ok (with_phase l t next)

-- The goroutines in the order of a schedule.
unfoldable pub run_schedule : List (Listener × Accepted) → Threads → Run Threads
run_schedule [] t = ok t
run_schedule ((l, got) ∷ steps) t = do next ← step_thread l got t; run_schedule steps next

-- `Start` on a new handler.
unfoldable pub start_threads : Acl → Threads
start_threads m = record {
  unix_phase = waiting;
  tcp_phase = waiting;
  tls_phase = waiting;
  sockets = record { id = 0; acl = m; started = []; refused = [] };
}
