-- ===== src/Tests/Web.antt =====
-- The HTTP client of client/clilib/client.go on the router of server/ndb-server.go, with a router for
-- the three templates; with them the log file, the start of the listeners and the start of the program.
use nodare_db_dev.Prelude.{
  Bool, Bytes, List, Option, Returns, [], ap, arith, bytes_eq, exit, false, fault, if◌then◌else◌,
  inl, inr, none, not, ok, refl, some, true, ℕ, ◌&&◌, ◌++◌, ◌==◌, ◌∷◌, ◌≡◌, ◌⊎◌,
}
use nodare_db_dev.Client.Http.{is_empty, path_set, set_json}
use nodare_db_dev.Client.Served.{
  IsDecoder, IsJsonPlain, answer_to, client_get, client_set, http_set-http_get, is_json_plain,
  json_string, method_path,
}
use nodare_db_dev.Database.Dick.{XDatabase}
use nodare_db_dev.Database.Entry.{Value, str}
use nodare_db_dev.Database.Hashing.{hasher}
use nodare_db_dev.Database.Refines.{Models, dick_replies, map_replies}
use nodare_db_dev.Database.Sub.Edit.{update}
use nodare_db_dev.Logger.{debug}
use nodare_db_dev.Logger.Files.{Log, log_close, log_start, to_stderr}
use nodare_db_dev.Logger.Files.Lines.{
  debug_call, log_messages, log_start-log_close, shown, warn_call,
}
use nodare_db_dev.Server.Config.{Setting}
use nodare_db_dev.Server.Config.Envs.{env_setting, overlay}
use nodare_db_dev.Server.Keys.{Key, all_keys, env_of, socket_path}
use nodare_db_dev.Server.Listen.{Listener, tcp_listener, tls_listener, unix_listener}
use nodare_db_dev.Server.Listen.Opens.{
  IsDue, Place, SocketSettings, can_all, open_listeners, open_listeners-outcome, wanted,
}
use nodare_db_dev.Server.Router.{IsRouter, del_prefix, del_template, get_prefix, get_template}
use nodare_db_dev.Server.Serving.{
  ConfigFile, Machine, MainFlags, Served, boot, boot-serves, socket_settings,
}
use nodare_db_dev.Server.Web.{Response, method_post}
use nodare_db_dev.Tests.{
  busy_dick-Models, busy_map, code, fnv_mode, key_a, key_b, requests, short_hashes, text_x,
}
use nodare_db_dev.Tests.Serve.{busy_db}
use nodare_db_dev.Tests.Start.{debug_env, has_all, no_settings, stores, stores_laws, zero_timeouts}

unfoldable after_prefix : Bytes → Bytes → Option Bytes
after_prefix [] path = some path
after_prefix (c ∷ prefix) [] = none
after_prefix (c ∷ prefix) (d ∷ path) = if c == d then after_prefix prefix path else none

unfoldable pub match_three : Bytes → Bytes → Option Bytes
unfolding after_prefix
match_three template path =
    if bytes_eq template get_template
    then after_prefix get_prefix path
    else if bytes_eq template del_template
    then after_prefix del_prefix path
    else if bytes_eq template path
    then some []
    else none

pub match_three-IsRouter : IsRouter match_three
unfolding match_three after_prefix bytes_eq
match_three-IsRouter = record {
  gets = λ key segment. refl;
  dels = λ key segment. refl;
  sets = refl;
  not_get = λ key. refl;
  set_not_get = refl;
  set_not_del = refl;
}

-- An address is the letter `h` and the path.
abbrev pub after_h : Bytes → Bytes
after_h [] = []
after_h (c ∷ path) = path

-- A decoder of an object with one plain string member.
unfoldable until_quote : Bytes → Bytes
until_quote [] = []
until_quote (c ∷ s) = if c == 34 then [] else c ∷ until_quote s

unfoldable after_quote : Bytes → Bytes
after_quote [] = []
after_quote (c ∷ s) = if c == 34 then s else after_quote s

unfoldable pub decode_one : Bytes → Option (List (Bytes × Value))
unfolding until_quote after_quote
decode_one (c ∷ d ∷ s) =
    some ((until_quote s, str (until_quote (after_quote (after_quote s)))) ∷ [])
decode_one _ = none

plain-quote : (c : ℕ) → is_json_plain c ≡ true → (c == 34) ≡ false
plain-quote c e = ground (arith, e)

until_quote-append : (s t : Bytes) → IsJsonPlain s → until_quote ((s ++ 34 ∷ []) ++ t) ≡ s
unfolding until_quote
until_quote-append [] t plain = refl
until_quote-append (c ∷ s) t (first, plain) =
    rw (plain-quote c first) (ap (λ x. c ∷ x) (until_quote-append s t plain))

after_quote-append : (s t : Bytes) → IsJsonPlain s → after_quote ((s ++ 34 ∷ []) ++ t) ≡ t
unfolding after_quote
after_quote-append [] t plain = refl
after_quote-append (c ∷ s) t (first, plain) =
    rw (plain-quote c first) (after_quote-append s t plain)

pub decode_one-IsDecoder : IsDecoder decode_one
unfolding decode_one
decode_one-IsDecoder = record {
  decodes_object = λ name member plain plain'.
      rw
        (
          until_quote-append name ((58 ∷ json_string member) ++ 125 ∷ []) plain,
          after_quote-append name ((58 ∷ json_string member) ++ 125 ∷ []) plain,
        )
        (unfold after_quote in rw (until_quote-append member (125 ∷ []) plain') refl);
}

abbrev pub lost : Response
lost = record { status = 404; body = [] }

http_set-http_get_example :
    (db' : XDatabase) × (client_set code code match_three lost decode_one after_h
        (104 ∷ [])
        busy_db
        key_b
        text_x
      ≡ some [])
    × (answer_to code code match_three lost decode_one after_h
          (104 ∷ [])
          busy_db
          (method_path method_post (after_h ((104 ∷ []) ++ path_set)) (set_json key_b text_x))
        ≡ ok (db', record { status = 201; body = [] }))
    × Models code code 2 (update busy_map key_b (some (str text_x))) db'.xdick
    × (client_get code code match_three lost decode_one after_h
          (104 ∷ [])
          db'
          key_b
          (record { val = []; found = false })
        ≡ some (record { val = text_x; found = if is_empty text_x then false else true }))
http_set-http_get_example =
    http_set-http_get code code match_three lost decode_one after_h (104 ∷ []) match_three-IsRouter
      decode_one-IsDecoder (λ path plain. refl) {n = 1} busy_db busy_map key_b text_x
      (record { val = []; found = false }) busy_dick-Models (omega arith)
      ((λ e. absurd (cc)), (refl, tt)) (refl, tt)

-- A logger of the level DEBUG, and a disk on which only the file "a" can be opened, as number 0.
abbrev quiet : Log
quiet = record {
  level = some debug;
  log_file = none;
  writer = to_stderr;
  console = [];
  contents = λ h. [];
  opened = λ h. false;
}

abbrev open_a : Bytes → Option ℕ
open_a name = if bytes_eq name key_a then some 0 else none

log_start-log_close_example :
    (log_start open_a key_b (log_start open_a key_a quiet) ≡ log_start open_a key_a quiet)
    × ((log_messages (warn_call key_b ∷ []) (
            log_close
              (log_messages (debug_call key_a ∷ []) (log_start open_a key_a quiet)))).contents
          0
        ≡ [] ++ shown (some debug) (debug_call key_a ∷ []))
    × ((log_messages
          (warn_call key_b ∷ [])
          (log_close (log_messages (debug_call key_a ∷ []) (log_start open_a key_a quiet)))).console
        ≡ []
          ++ (shown (some debug) (debug_call key_a ∷ [])
              ++ shown (some debug) (warn_call key_b ∷ [])))
unfolding bytes_eq
log_start-log_close_example =
    log_start-log_close open_a key_a key_b 0 quiet (debug_call key_a ∷ []) (warn_call key_b ∷ [])
      refl refl

-- Settings with a socket and without TLS, on a machine where an address can be listened on once.
abbrev plain_settings : SocketSettings
plain_settings = record {
  host = [];
  tcpport = 51 ∷ 50 ∷ [];
  tlsport = 51 ∷ 51 ∷ [];
  socket_file = key_a;
  tlscrt = [];
  tlskey = [];
  tlsenabled = false;
}

abbrev any_order : List Listener
any_order = tls_listener ∷ unix_listener ∷ tcp_listener ∷ []

any_order-IsDue : (l : Listener) → IsDue l any_order
any_order-IsDue unix_listener = inr (inl refl)
any_order-IsDue tcp_listener = inr (inr (inl refl))
any_order-IsDue tls_listener = inl refl

-- An address that is taken cannot be listened on again.
unfoldable is_free : List Place → Place → Bool
is_free [] place = true
is_free ((u, a) ∷ open_now) place = not (bytes_eq a place.1) && is_free open_now place

open_listeners-outcome_example :
    ((can_all is_free (λ c k. false) plain_settings any_order [] ≡ true)
      × Returns
          (open_listeners is_free (λ c k. false) plain_settings any_order [] (λ l. none))
          λ up. (l : Listener) → up l ≡ wanted is_free (λ c k. false) plain_settings l)
    ⊎ ((can_all is_free (λ c k. false) plain_settings any_order [] ≡ false)
        × (open_listeners is_free (λ c k. false) plain_settings any_order [] (λ l. none)
            ≡ fault exit))
open_listeners-outcome_example =
    open_listeners-outcome is_free (λ c k. false) plain_settings any_order any_order-IsDue

-- TLS on the port of the TCP listener.
abbrev one_port : SocketSettings
one_port = record plain_settings { tlsport = 51 ∷ 50 ∷ []; tlsenabled = true }

-- A machine on which every address can be listened on once and every certificate be read.
abbrev machine : Machine (Key → Option Setting)
machine = record {
  viper = stores;
  get_bool = λ v k. false;
  open_file = open_a;
  listens = is_free;
  loads = λ c k. true;
  env = debug_env;
  pick = λ i. 0;
}

abbrev siphash_flags : MainFlags
siphash_flags = record { flag_mode = 1; flag_hashmode = 1; flag_logfile = key_a }

abbrev empty_file : ConfigFile (Key → Option Setting)
empty_file = record {
  file_exists = true;
  pass = [];
  read_in = λ v. some v;
  order = all_keys;
  fresh = no_settings;
  current = zero_timeouts;
}

-- With LOGLEVEL alone in the environment and nothing in the file, no path of a socket is set.
can_listen :
    (c : Key → Option Setting)
    → ((k : Key) → c k ≡ overlay (env_setting stores.upper_other k (debug_env (env_of k))) none)
    → can_all is_free (λ c k. true) (socket_settings machine c) any_order [] ≡ true
unfolding can_all is_free env_of bytes_eq
can_listen c values = rw (values socket_path) refl

boot-serves_example :
    (served : Served (Key → Option Setting)) × (boot machine siphash_flags fnv_mode 0 any_order
        quiet empty_file
      ≡ ok (some served))
    × (dick_replies (hasher short_hashes served.mode) code served.database.xdick requests
        ≡ ok (map_replies (λ q. none) requests))
    × ((k : Listener)
        → served.up k ≡ wanted is_free (λ c k. true) (socket_settings machine served.settings) k)
    × ((k : Key)
        → stores.get_value served.settings k
          ≡ overlay (env_setting stores.upper_other k (debug_env (env_of k))) none)
boot-serves_example =
    boot-serves machine stores_laws short_hashes code siphash_flags fnv_mode 0 any_order quiet
      empty_file no_settings requests refl (omega arith) (omega arith) (λ i. omega arith) refl
      has_all any_order-IsDue can_listen (omega arith)
