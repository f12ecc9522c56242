-- ===== src/Server/Config/Boot.antt =====
-- server/configuration.go: the settings of a start.
use nodare_db_dev.Prelude.{
  Bool, Bool-cases, Bytes, List, Option, Returns, [], ap, bytes_eq, false, if◌then◌else◌, inl, inr,
  refl, some, true, ℕ, ◌∙◌, ◌∷◌, ◌≡◌,
}
use nodare_db_dev.Logger.{get_loglevel, info, info_name}
use nodare_db_dev.Server.Config.{
  Setting, Viper, ViperLaws, bool_value, create_default_config_file, first_defaults, int_value,
  more_defaults, new_viper_conf, set_defaults, settle, text_value,
}
use nodare_db_dev.Server.Config.Envs.{
  env_setting, has_key, level_of, overlay, read_configs_from_envs-level,
  read_configs_from_envs-value,
}
use nodare_db_dev.Server.Keys.{
  Key, base_dir, data_dir, env_loglevel, env_of, idle_timeout, key_eq, key_place, log_logfile,
  log_loglevel, port_tcp, port_udp, read_timeout, server_host, settings_dir, settings_sub_dicks,
  socket_acl_list, socket_path, socket_port_tcp, socket_port_tls, superadmin_pass, superadmin_user,
  tls_enabled, tls_priv_key, tls_pub_cert, write_timeout,
}
use nodare_db_dev.Server.Settings.{Timeouts, avail_subdicks, init_db, is_avail}

-- What each key reads as on a first start: the private key's file is "cfg/fullchain.pem", and the
-- certificate's "cfg/privkey.pem".
unfoldable pub first_setting : Bytes → Key → Setting
first_setting pass superadmin_user =
    text_value (115 ∷ 117 ∷ 112 ∷ 101 ∷ 114 ∷ 97 ∷ 100 ∷ 109 ∷ 105 ∷ 110 ∷ [])
first_setting pass superadmin_pass = text_value pass
first_setting pass log_loglevel = text_value (73 ∷ 78 ∷ 70 ∷ 79 ∷ [])
first_setting pass log_logfile = text_value (110 ∷ 100 ∷ 98 ∷ 46 ∷ 108 ∷ 111 ∷ 103 ∷ [])
first_setting pass base_dir = text_value (46 ∷ [])
first_setting pass data_dir = text_value (100 ∷ 97 ∷ 116 ∷ [])
first_setting pass settings_dir = text_value (99 ∷ 102 ∷ 103 ∷ [])
first_setting pass settings_sub_dicks = text_value (49 ∷ 48 ∷ 48 ∷ [])
first_setting pass tls_enabled = bool_value false
first_setting pass tls_priv_key = text_value (
    99 ∷ 102 ∷ 103 ∷ 47 ∷ 102 ∷ 117 ∷ 108 ∷ 108 ∷ 99 ∷ 104 ∷ 97 ∷ 105 ∷ 110 ∷ 46 ∷ 112 ∷ 101 ∷ 109
    ∷ [])
first_setting pass tls_pub_cert =
    text_value
      (99 ∷ 102 ∷ 103 ∷ 47 ∷ 112 ∷ 114 ∷ 105 ∷ 118 ∷ 107 ∷ 101 ∷ 121 ∷ 46 ∷ 112 ∷ 101 ∷ 109 ∷ [])
first_setting pass read_timeout = int_value 5
first_setting pass write_timeout = int_value 10
first_setting pass idle_timeout = int_value 120
first_setting pass server_host = text_value (91 ∷ 58 ∷ 58 ∷ 49 ∷ 93 ∷ [])
first_setting pass port_tcp = text_value (50 ∷ 52 ∷ 50 ∷ 48 ∷ [])
first_setting pass port_udp = text_value (50 ∷ 50 ∷ 52 ∷ 48 ∷ [])
first_setting pass socket_path =
    text_value
      (47 ∷ 116 ∷ 109 ∷ 112 ∷ 47 ∷ 110 ∷ 100 ∷ 98 ∷ 46 ∷ 115 ∷ 111 ∷ 99 ∷ 107 ∷ 101 ∷ 116 ∷ [])
first_setting pass socket_port_tcp = text_value (51 ∷ 52 ∷ 50 ∷ 48 ∷ [])
first_setting pass socket_port_tls = text_value (52 ∷ 52 ∷ 50 ∷ 48 ∷ [])
first_setting pass socket_acl_list =
    text_value (49 ∷ 50 ∷ 55 ∷ 46 ∷ 48 ∷ 46 ∷ 48 ∷ 46 ∷ 49 ∷ 44 ∷ 58 ∷ 58 ∷ 49 ∷ [])

-- The last value that a list has for a key.
unfoldable pub default_in : Key → List (Key × Setting) → Option Setting → Option Setting
default_in j [] old = old
default_in j ((k, x) ∷ xs) old = default_in j xs (if key_eq k j then some x else old)

default_in-first_setting :
    (pass : Bytes) (k : Key) (old : Option Setting)
    → default_in k more_defaults (default_in k (first_defaults pass) old)
      ≡ some (first_setting pass k)
unfolding default_in first_setting key_eq key_place
default_in-first_setting pass superadmin_user old = refl
default_in-first_setting pass superadmin_pass old = refl
default_in-first_setting pass log_loglevel old = refl
default_in-first_setting pass log_logfile old = refl
default_in-first_setting pass base_dir old = refl
default_in-first_setting pass data_dir old = refl
default_in-first_setting pass settings_dir old = refl
default_in-first_setting pass settings_sub_dicks old = refl
default_in-first_setting pass tls_enabled old = refl
default_in-first_setting pass tls_priv_key old = refl
default_in-first_setting pass tls_pub_cert old = refl
default_in-first_setting pass read_timeout old = refl
default_in-first_setting pass write_timeout old = refl
default_in-first_setting pass idle_timeout old = refl
default_in-first_setting pass server_host old = refl
default_in-first_setting pass port_tcp old = refl
default_in-first_setting pass port_udp old = refl
default_in-first_setting pass socket_path old = refl
default_in-first_setting pass socket_port_tcp old = refl
default_in-first_setting pass socket_port_tls old = refl
default_in-first_setting pass socket_acl_list old = refl

init_db-is_avail :
    (n : ℕ) (configured current : Timeouts)
    → is_avail (init_db n configured current).0 avail_subdicks ≡ true
unfolding init_db
init_db-is_avail n configured current = elim (Bool-cases (is_avail n avail_subdicks)) [
  | inl e ↦ rw e e
  | inr e ↦ rw e (unfold is_avail in refl)
]

module _ {V : Type 0} (lib : Viper V) (laws : ViperLaws lib) where
  set_defaults-value :
      (xs : List (Key × Setting)) (v : V)
      → laws.IsNew v
      → laws.IsNew (set_defaults lib xs v)
        × ((j : Key)
            → lib.get_value (set_defaults lib xs v) j ≡ default_in j xs (lib.get_value v j))
  unfolding set_defaults default_in
  set_defaults-value [] v new = (new, λ j. refl)
  set_defaults-value ((k, x) ∷ xs) v new =
      let (new', same) =
        set_defaults-value xs (lib.set_default v k x) (laws.set_default-IsNew v k x new) in
      (new', λ j. same j ∙ ap (λ o. default_in j xs o) (laws.value-set_default v k j x new))

  -- From new settings, `createDefaultConfigFile` gives every key the value of the table, and sets
  -- the log level INFO.
  pub create_default_config_file-settings :
      (pass : Bytes) (v : V)
      → laws.IsNew v
      → ((k : Key)
          → lib.get_value (create_default_config_file lib pass v).0 k ≡ some (first_setting pass k))
        × ((create_default_config_file lib pass v).1 ≡ some info)
  unfolding create_default_config_file
  create_default_config_file-settings pass v new =
      let (first_new, first_same) = set_defaults-value (first_defaults pass) v new in
      let (all_new, all_same) =
        set_defaults-value more_defaults (set_defaults lib (first_defaults pass) v) first_new in
      (
        λ k.
            all_same k
            ∙ ap (λ o. default_in k more_defaults o) (first_same k)
            ∙ default_in-first_setting pass k (lib.get_value v k),
        ap get_loglevel (
              laws.string-text _ log_loglevel info_name
                (first_same log_loglevel ∙ unfold default_in key_eq key_place in refl))
            ∙ unfold get_loglevel bytes_eq in refl,
      )

  -- Where the file can be read, whether it was there or was made, and the range over the
  -- variables visits every key, `NewViperConf` returns: each key reads as its environment
  -- variable where that is set, else as in the file; the log level is LOGLEVEL's where that is
  -- set, else as before the read; and the number of sub-dictionaries is an available one.
  pub new_viper_conf-boots :
      (file_exists : Bool) (pass : Bytes) (read_in : V → Option V) (env : Bytes → Option Bytes)
      (order : List Key) (start : V × Option ℕ) (current : Timeouts) (v : V)
      → ((k : Key) → has_key k order ≡ true)
      → read_in (if file_exists then start else create_default_config_file lib pass start.0).0
        ≡ some v
      → Returns (new_viper_conf lib file_exists pass read_in env order start current) λ b.
        ((k : Key)
          → lib.get_value b.conf k
            ≡ overlay (env_setting lib.upper_other k (env (env_of k))) (lib.get_value v k))
        × (b.level
            ≡ level_of lib.upper_other
                (env env_loglevel)
                (if file_exists then start else create_default_config_file lib pass start.0).1)
        × (is_avail b.sub_dicks avail_subdicks ≡ true)
  unfolding new_viper_conf settle
  new_viper_conf-boots file_exists pass read_in env order start current v all read = rw read (
    _,
    refl,
    (
      λ k. read_configs_from_envs-value lib laws env order v _ k (all k),
      read_configs_from_envs-level lib laws env order v _ (all log_loglevel),
      init_db-is_avail _ _ current,
    ),
  )
