-- ===== src/Server/Config.antt =====
-- server/configuration.go: `createDefaultConfigFile`, `ReadConfigsFromEnvs` and `NewViperConf`. The
-- package `viper` is a parameter, so are the environment, the random password, the existence and the
-- read of the file. What is written to the file and to the console is I/O.
pub mod Envs
pub mod Boot
use nodare_db_dev.Prelude.{
  Bool, Bytes, List, Option, Run, [], bytes_eq, exit, false, fault, if◌then◌else◌, leb, ltb, none,
  ok, some, true, ℕ, ◌&&◌, ◌++◌, ◌-◌, ◌∷◌, ◌≡◌,
}
use nodare_db_dev.Logger.{get_loglevel}
use nodare_db_dev.Server.Keys.{
  Key, base_dir, data_dir, env_loglevel, env_of, idle_timeout, key_eq, log_logfile, log_loglevel,
  port_tcp, port_udp, read_timeout, server_host, settings_dir, settings_sub_dicks, socket_acl_list,
  socket_path, socket_port_tcp, socket_port_tls, superadmin_pass, superadmin_user, tls_enabled,
  tls_priv_key, tls_pub_cert, write_timeout,
}
use nodare_db_dev.Server.Session.{made}
use nodare_db_dev.Server.Settings.{Timeouts, init_db}

pub data Setting : Type 0 where
  text_value : Bytes → Setting
  bool_value : Bool → Setting
  int_value : ℕ → Setting

-- The calls of a `viper.Viper`: `SetDefault`, `Set`, `Get`, `GetString`, `GetUint32` and `GetInt`;
-- and what `strings.ToUpper` makes of a text that is not ASCII.
pub record Viper (V : Type 0) : Type 0 where
  pub set_default : V → Key → Setting → V
  pub set_value : V → Key → Setting → V
  pub get_value : V → Key → Option Setting
  pub get_string : V → Key → Bytes
  pub get_uint32 : V → Key → ℕ
  pub get_int : V → Key → ℕ
  pub upper_other : Bytes → Bytes

-- `viper`'s documentation: `Set` overrides what a key had, a default counts for a key that has
-- nothing else, both leave the other keys, and a text is read as it is. `IsNew` says that nothing
-- but defaults was set.
pub record ViperLaws {V : Type 0} (lib : Viper V) : Type 1 where
  pub IsNew : V → Type 0
  pub set_default-IsNew : (v : V) (k : Key) (x : Setting) → IsNew v → IsNew (lib.set_default v k x)
  pub value-set_default :
      (v : V) (k j : Key) (x : Setting)
      → IsNew v
      → lib.get_value (lib.set_default v k x) j ≡ (if key_eq k j then some x else lib.get_value v j)
  pub value-set_value :
      (v : V) (k j : Key) (x : Setting)
      → lib.get_value (lib.set_value v k x) j ≡ (if key_eq k j then some x else lib.get_value v j)
  pub string-text :
      (v : V) (k : Key) (s : Bytes)
      → lib.get_value v k ≡ some (text_value s)
      → lib.get_string v k ≡ s

-- CONFIG_DIR, "cfg"; DEFAULT_TLS_PRIVKEY, "privkey.pem"; DEFAULT_TLS_PUBCERT, "fullchain.pem".
abbrev pub config_dir : Bytes
config_dir = 99 ∷ 102 ∷ 103 ∷ []

abbrev pub default_tls_privkey : Bytes
default_tls_privkey = 112 ∷ 114 ∷ 105 ∷ 118 ∷ 107 ∷ 101 ∷ 121 ∷ 46 ∷ 112 ∷ 101 ∷ 109 ∷ []

abbrev pub default_tls_pubcert : Bytes
default_tls_pubcert = 102 ∷ 117 ∷ 108 ∷ 108 ∷ 99 ∷ 104 ∷ 97 ∷ 105 ∷ 110 ∷ 46 ∷ 112 ∷ 101 ∷ 109 ∷ []

-- `filepath.Join` of two clean names.
abbrev pub path_join : Bytes → Bytes → Bytes
path_join dir file = dir ++ 47 ∷ file

-- The defaults before the log level is set from them, and those after it.
abbrev pub first_defaults : Bytes → List (Key × Setting)
first_defaults pass =
    (superadmin_user, text_value (115 ∷ 117 ∷ 112 ∷ 101 ∷ 114 ∷ 97 ∷ 100 ∷ 109 ∷ 105 ∷ 110 ∷ []))
    ∷ (superadmin_pass, text_value pass)
    ∷ (log_loglevel, text_value (73 ∷ 78 ∷ 70 ∷ 79 ∷ []))
    ∷ (log_logfile, text_value (110 ∷ 100 ∷ 98 ∷ 46 ∷ 108 ∷ 111 ∷ 103 ∷ []))
    ∷ []

-- As in the source, the key file's default is the name of the certificate, and the other way round.
abbrev pub more_defaults : List (Key × Setting)
more_defaults =
    (base_dir, text_value (46 ∷ []))
    ∷ (data_dir, text_value (100 ∷ 97 ∷ 116 ∷ []))
    ∷ (settings_dir, text_value (99 ∷ 102 ∷ 103 ∷ []))
    ∷ (settings_sub_dicks, text_value (49 ∷ 48 ∷ 48 ∷ []))
    ∷ (tls_enabled, bool_value false)
    ∷ (tls_priv_key, text_value (path_join config_dir default_tls_pubcert))
    ∷ (tls_pub_cert, text_value (path_join config_dir default_tls_privkey))
    ∷ (read_timeout, int_value 5)
    ∷ (write_timeout, int_value 10)
    ∷ (idle_timeout, int_value 120)
    ∷ (server_host, text_value (91 ∷ 58 ∷ 58 ∷ 49 ∷ 93 ∷ []))
    ∷ (port_tcp, text_value (50 ∷ 52 ∷ 50 ∷ 48 ∷ []))
    ∷ (port_udp, text_value (50 ∷ 50 ∷ 52 ∷ 48 ∷ []))
    ∷ (
      socket_path,
      text_value
          (47 ∷ 116 ∷ 109 ∷ 112 ∷ 47 ∷ 110 ∷ 100 ∷ 98 ∷ 46 ∷ 115 ∷ 111 ∷ 99 ∷ 107 ∷ 101 ∷ 116 ∷ []),
    )
    ∷ (socket_port_tcp, text_value (51 ∷ 52 ∷ 50 ∷ 48 ∷ []))
    ∷ (socket_port_tls, text_value (52 ∷ 52 ∷ 50 ∷ 48 ∷ []))
    ∷ (
      socket_acl_list,
      text_value (49 ∷ 50 ∷ 55 ∷ 46 ∷ 48 ∷ 46 ∷ 48 ∷ 46 ∷ 49 ∷ 44 ∷ 58 ∷ 58 ∷ 49 ∷ []),
    )
    ∷ []

unfoldable pub upper_ascii : Bytes → Bytes
upper_ascii [] = []
upper_ascii (c ∷ s) = (if leb 97 c && leb c 122 then c - 32 else c) ∷ upper_ascii s

abbrev is_ascii : Bytes → Bool
is_ascii [] = true
is_ascii (c ∷ s) = ltb c 128 && is_ascii s

-- `strings.ToUpper`, with the text that it gives for one that is not ASCII.
unfoldable pub to_upper : (Bytes → Bytes) → Bytes → Bytes
to_upper upper_other s = if is_ascii s then upper_ascii s else upper_other s

-- What the program has after the start of the settings.
pub record Booted (V : Type 0) : Type 0 where
  pub conf : V
  pub level : Option ℕ
  pub sub_dicks : ℕ
  pub timeouts : Timeouts

module _ {V : Type 0} (lib : Viper V) where
  unfoldable pub set_defaults : List (Key × Setting) → V → V
  set_defaults [] v = v
  set_defaults ((k, x) ∷ xs) v = set_defaults xs (lib.set_default v k x)

  -- The settings and the log level.
  unfoldable pub create_default_config_file : Bytes → V → V × Option ℕ
  create_default_config_file pass v =
      let first = set_defaults (first_defaults pass) v in
      (set_defaults more_defaults first, get_loglevel (lib.get_string first log_loglevel))

  -- One key of the range over the map, with its variable's value.
  abbrev pub take_env : Key → Option Bytes → V × Option ℕ → V × Option ℕ
  take_env k none (v, level) = (v, level)
  take_env k (some s) (v, level) =
      if bytes_eq (env_of k) env_loglevel
      then (
        lib.set_value v k (text_value (to_upper lib.upper_other s)),
        get_loglevel (to_upper lib.upper_other s),
      )
      else (lib.set_value v k (text_value s), level)

  -- `order` is the order of the range over the map, which Go leaves open.
  unfoldable pub read_configs_from_envs :
      (Bytes → Option Bytes) → List Key → V × Option ℕ → V × Option ℕ
  read_configs_from_envs env [] c = c
  read_configs_from_envs env (k ∷ order) c =
      read_configs_from_envs env order (take_env k (env (env_of k)) c)

  unfoldable pub settle : V × Option ℕ → Timeouts → Booted V
  settle (v, level) current =
      let read =
        init_db (lib.get_uint32 v settings_sub_dicks)
          (record {
            rto = lib.get_int v read_timeout;
            wto = lib.get_int v write_timeout;
            ito = lib.get_int v idle_timeout;
          })
          current in
      record { conf = v; level = level; sub_dicks = read.0; timeouts = read.1 }

  -- `read_in` is `ReadInConfig`; without its file the program ends.
  abbrev after_read :
      (Bytes → Option Bytes) → List Key → Option V → Option ℕ → Timeouts → Run (Booted V)
  after_read env order none level current = fault exit
  after_read env order (some v) level current =
      ok (settle (read_configs_from_envs env order (v, level)) current)

  unfoldable pub new_viper_conf :
      Bool
      → Bytes
      → (V → Option V)
      → (Bytes → Option Bytes)
      → List Key
      → V × Option ℕ
      → Timeouts
      → Run (Booted V)
  new_viper_conf file_exists pass read_in env order start current =
      let made = if file_exists then start else create_default_config_file pass start.0 in
      after_read env order (read_in made.0) made.1 current
