-- ===== src/Tests/Start.antt =====
-- The theorems on sessions, the start, the listeners, the shutdown, new clients and the load test.
use nodare_db_dev.Prelude.{
  All, Bool, Bytes, List, Option, Returns, [], ap, arith, bytes_eq, false, fault, if◌then◌else◌,
  inl, nil_dereference, none, refl, some, true, ℕ, ◌^◌, ◌||◌, ◌∷◌, ◌≡◌, ◌≢◌, ◌≤◌, ◌⊎◌,
}
use nodare_db_dev.Client.Connect.{Options, fill_addr, new_cli, new_cli_handler}
use nodare_db_dev.Client.Numbers.{new_cli_handler-IsHandler}
use nodare_db_dev.Client.Reach.{Handed, new_cli-Handed, outcome}
use nodare_db_dev.Database.Dick.{XDatabase, new_xdick}
use nodare_db_dev.Database.Power.{next_power-least}
use nodare_db_dev.Database.Refines.{new_xdick-Models}
use nodare_db_dev.Database.Sub.Move.{pure_hash}
use nodare_db_dev.Database.Table.{initial_size, next_power}
use nodare_db_dev.Server.Access.{Acl, is_allowed}
use nodare_db_dev.Server.Config.{
  Setting, Viper, ViperLaws, bool_value, int_value, new_viper_conf, read_configs_from_envs,
  text_value,
}
use nodare_db_dev.Server.Config.Boot.{new_viper_conf-boots}
use nodare_db_dev.Server.Config.Envs.{
  env_setting, has_key, level_of, overlay, read_configs_from_envs-order,
}
use nodare_db_dev.Server.Keys.{
  Key, all_keys, base_dir, data_dir, env_loglevel, env_of, idle_timeout, key_eq, key_place,
  log_logfile, log_loglevel, port_tcp, port_udp, read_timeout, server_host, settings_dir,
  settings_sub_dicks, socket_acl_list, socket_path, socket_port_tcp, socket_port_tls,
  superadmin_pass, superadmin_user, tls_enabled, tls_priv_key, tls_pub_cert, write_timeout,
}
use nodare_db_dev.Server.Listen.{
  Accepted, Listener, accept_error, incoming, other_addr, run_schedule, socket_acl, start_threads,
  tcp_addr, tcp_listener, tls_listener, unix_listener,
}
use nodare_db_dev.Server.Listen.Admits.{IsAdmitted, IsRefused, run_schedule-admits}
use nodare_db_dev.Server.Listen.Listed.{default_allows, join_comma, listed, socket_acl-listed}
use nodare_db_dev.Server.Profile.{Profiles, magic_2, unix_lines}
use nodare_db_dev.Server.Profile.Total.{any_asks, unix_lines-returns}
use nodare_db_dev.Server.Session.{bar, etb, magic_s, new_session, stay}
use nodare_db_dev.Server.Settings.{Timeouts, avail_subdicks, is_avail}
use nodare_db_dev.Server.Shutdown.{
  Reaches, World, at_wait, finished, here, https_start, listening, main_actor, main_step, new_world,
  next_step, step_world, web_actor, web_start,
}
use nodare_db_dev.Server.Shutdown.Ends.{shutdown_complete}
use nodare_db_dev.Server.Shutdown.Passing.{web_up}
use nodare_db_dev.Server.Socket.{handle_lines}
use nodare_db_dev.Server.Socket.Sound.{Serves}
use nodare_db_dev.Server.Socket.Total.{database_of, handle_lines-returns}
use nodare_db_dev.Tests.{code, key_a, key_b, text_x}

-- The fewest buckets above 300.
next_power-least_example :
    (k : ℕ) × (next_power 300 ≡ 2 ^ k)
    × (300 ≤ 2 ^ k)
    × (initial_size ≤ 2 ^ k)
    × ((j : ℕ) → 300 ≤ 2 ^ j → initial_size ≤ 2 ^ j → k ≤ j)
next_power-least_example = next_power-least 300 (omega arith)

abbrev new_db : XDatabase
new_db = record { xdick = new_xdick 100; boot_t = 0 }

new_db-Serves : Serves code code 0 new_db
new_db-Serves = record {
  content = λ q. none;
  models = new_xdick-Models code code 100 (omega arith);
  texts = λ q. inl refl;
}

abbrev one_set : List Bytes
one_set = (magic_s ∷ bar ∷ 49 ∷ []) ∷ key_a ∷ text_x ∷ (etb ∷ []) ∷ []

abbrev none_sent : ℕ → Bool
none_sent n = false

handle_lines-returns_example :
    Returns
      (handle_lines none_sent (pure_hash code) code one_set (stay new_session new_db))
      λ next. (m : ℕ) × Serves code code m (database_of next)
handle_lines-returns_example =
    handle_lines-returns code code none_sent {n = 0} one_set new_db new_db-Serves (omega arith)

abbrev no_profiles : Profiles
no_profiles = record { has_prof = true; cpu_open = false; cpu_tries = 0; mem_runs = [] }

unix_lines-returns_example :
    (Returns
      (unix_lines none_sent none_sent
        (pure_hash code)
        code
        ((magic_2 ∷ bar ∷ 49 ∷ []) ∷ one_set)
        (stay new_session new_db, no_profiles))
      λ q. (m : ℕ) × Serves code code m (database_of q.0))
    ⊎ ((unix_lines none_sent none_sent
            (pure_hash code)
            code
            ((magic_2 ∷ bar ∷ 49 ∷ []) ∷ one_set)
            (stay new_session new_db, no_profiles)
          ≡ fault nil_dereference)
        × ((true ≡ false) × (any_asks ((magic_2 ∷ bar ∷ 49 ∷ []) ∷ one_set) ≡ true)))
unix_lines-returns_example =
    unix_lines-returns code code none_sent none_sent {n = 0} ((magic_2 ∷ bar ∷ 49 ∷ []) ∷ one_set)
      new_db no_profiles new_db-Serves (omega arith)

abbrev dial_seven : Bytes → Option ℕ
dial_seven a = some 7

abbrev no_tls : Bool → Bytes → Option ℕ
no_tls insecure a = none

abbrev greets : ℕ → Bool
greets conn = true

abbrev socket_options : Options
socket_options = record {
  addr = [];
  mode = 2;
  ssl = false;
  ssl_insecure = false;
  auth = [];
  daemon = false;
  run_test = false;
}

new_cli-Handed_example :
    Handed new_cli_handler
      (fill_addr socket_options)
      (outcome dial_seven no_tls greets socket_options)
      (new_cli dial_seven no_tls greets new_cli_handler socket_options)
new_cli-Handed_example =
    new_cli-Handed dial_seven no_tls greets new_cli_handler socket_options new_cli_handler-IsHandler

not_nil : {A : Type 0} (x : A) (xs : List A) → x ∷ xs ≢ []
not_nil x xs e = absurd (cc)

abbrev banned_a : Acl
banned_a = (key_a, false) ∷ []

socket_acl-listed_example :
    is_allowed (socket_acl (some banned_a) (join_comma (key_a ∷ key_b ∷ []))) key_b
    ≡ (listed key_b (key_a ∷ key_b ∷ []) || default_allows (some banned_a) key_b)
socket_acl-listed_example =
    socket_acl-listed (some banned_a) key_a (key_b ∷ []) key_b ((refl, tt), ((refl, tt), tt))
      (unfold join_comma in not_nil 97 _)

abbrev only_a : Acl
only_a = (key_a, true) ∷ []

abbrev visits : List (Listener × Accepted)
visits =
    (tcp_listener, incoming (tcp_addr key_a))
    ∷ (unix_listener, accept_error)
    ∷ (tls_listener, incoming (tcp_addr key_b))
    ∷ (tcp_listener, incoming other_addr)
    ∷ (tcp_listener, incoming other_addr)
    ∷ []

run_schedule-admits_example : Returns (run_schedule visits (start_threads only_a)) λ t.
    (t.sockets.acl ≡ only_a)
    × All (IsAdmitted only_a) t.sockets.started
    × All (IsRefused only_a) t.sockets.refused
run_schedule-admits_example = run_schedule-admits only_a visits (tt, (tt, (tt, (tt, (tt, tt)))))

-- Settings as a function of the key.
abbrev Store : Type 0
Store = Key → Option Setting

abbrev put_setting : Store → Key → Setting → Store
put_setting v k x j = if key_eq k j then some x else v j

abbrev read_string : Option Setting → Bytes
read_string (some (text_value s)) = s
read_string (some (bool_value b)) = []
read_string (some (int_value n)) = []
read_string none = []

abbrev pub stores : Viper Store
stores = record {
  set_default = put_setting;
  set_value = put_setting;
  get_value = λ v k. v k;
  get_string = λ v k. read_string (v k);
  get_uint32 = λ v k. 0;
  get_int = λ v k. 0;
  upper_other = λ s. s;
}

abbrev pub stores_laws : ViperLaws stores
stores_laws = record {
  IsNew = λ v. Unit;
  set_default-IsNew = λ v k x new. tt;
  value-set_default = λ v k j x new. refl;
  value-set_value = λ v k j x. refl;
  string-text = λ v k s e. ap read_string e;
}

-- LOGLEVEL is "debug", and nothing else is set.
abbrev pub debug_env : Bytes → Option Bytes
debug_env name = if bytes_eq name env_loglevel then some (100 ∷ 101 ∷ 98 ∷ 117 ∷ 103 ∷ []) else none

abbrev pub no_settings : Store
no_settings k = none

pub has_all : (k : Key) → has_key k all_keys ≡ true
unfolding has_key key_eq key_place
has_all superadmin_user = refl
has_all superadmin_pass = refl
has_all log_loglevel = refl
has_all log_logfile = refl
has_all base_dir = refl
has_all data_dir = refl
has_all settings_dir = refl
has_all settings_sub_dicks = refl
has_all tls_enabled = refl
has_all tls_priv_key = refl
has_all tls_pub_cert = refl
has_all read_timeout = refl
has_all write_timeout = refl
has_all idle_timeout = refl
has_all server_host = refl
has_all port_tcp = refl
has_all port_udp = refl
has_all socket_path = refl
has_all socket_port_tcp = refl
has_all socket_port_tls = refl
has_all socket_acl_list = refl

abbrev other_order : List Key
other_order = socket_acl_list ∷ all_keys

has_other : (k : Key) → has_key k other_order ≡ true
unfolding has_key
has_other k = ground (arith, has_all k)

read_configs_from_envs-order_example :
    ((k : Key)
      → (read_configs_from_envs stores debug_env all_keys (no_settings, none)).0 k
        ≡ (read_configs_from_envs stores debug_env other_order (no_settings, none)).0 k)
    × ((read_configs_from_envs stores debug_env all_keys (no_settings, none)).1
        ≡ (read_configs_from_envs stores debug_env other_order (no_settings, none)).1)
read_configs_from_envs-order_example =
    read_configs_from_envs-order stores stores_laws debug_env all_keys other_order
      (no_settings, none) has_all has_other

abbrev pub zero_timeouts : Timeouts
zero_timeouts = record { rto = 0; wto = 0; ito = 0 }

new_viper_conf-boots_example :
    Returns
      (new_viper_conf stores true key_a
        (λ v. some v)
        debug_env
        all_keys
        (no_settings, none)
        zero_timeouts)
      λ b.
        ((k : Key)
          → b.conf k ≡ overlay (env_setting stores.upper_other k (debug_env (env_of k))) none)
        × (b.level ≡ level_of stores.upper_other (debug_env env_loglevel) none)
        × (is_avail b.sub_dicks avail_subdicks ≡ true)
new_viper_conf-boots_example =
    new_viper_conf-boots stores stores_laws true key_a (λ v. some v) debug_env all_keys
      (no_settings, none) zero_timeouts no_settings has_all refl

abbrev after_signal : World
after_signal = record {
  tls = true;
  web = listening;
  unix = none;
  main = at_wait;
  process = record {
    token = true;
    http_up = false;
    https_up = true;
    unix_up = false;
    path_there = false;
    main_count = 0;
  };
}

signalled : Reaches (new_world true false) after_signal
unfolding new_world step_world main_step
signalled = next_step _ _ _ main_actor (here _) refl

abbrev all_closed : World
all_closed = record after_signal {
  web = finished;
  process = record after_signal.process { https_up = false };
}

closed_run : Reaches (new_world true false) all_closed
unfolding step_world web_start https_start
closed_run =
    next_step _ _ _ web_actor
      (next_step _ _ _ web_actor (next_step _ _ _ web_actor signalled refl) refl) refl

shutdown_complete_example :
    (web_up true all_closed.process ≡ false)
    × (all_closed.process.unix_up ≡ false)
    × (all_closed.process.path_there ≡ false)
shutdown_complete_example =
    shutdown_complete true false all_closed closed_run refl
      (unfold step_world web_start https_start in refl) (unfold step_world in refl)
