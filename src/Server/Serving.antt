-- ===== src/Server/Serving.antt =====
-- main.go and `NewNDBServer` of server/factory.go: the start of the program, up to the start of its web
-- server. Flags, files, the network and the packages are parameters; `current` are the time limits
-- before the settings are read. The profiler's web server and the messages are left out.
use nodare_db_dev.Prelude.{
  Bool, Bool-cases, Bytes, List, Option, Returns, Run, [], ap, arith, exit, false, fault,
  if◌then◌else◌, inl, inr, length, none, ok, refl, some, sym, true, ℕ, ◌<◌, ◌==◌, ◌>>=◌, ◌^◌, ◌∙◌,
  ◌≡◌, ◌≤◌,
}
use nodare_db_dev.Database.Dick.{XDatabase, new_dick}
use nodare_db_dev.Database.Hashing.{HashLib, HashMode, hash_siphash, hasher}
use nodare_db_dev.Database.Modes.{new_xdick-replies}
use nodare_db_dev.Database.Refines.{Request, dick_replies, map_replies}
use nodare_db_dev.Database.Salt.{generate_salt, generate_salt-keys}
use nodare_db_dev.Logger.{get_env_loglevel}
use nodare_db_dev.Logger.Files.{Log, log_start, new_logger}
use nodare_db_dev.Server.Config.{
  Booted, Viper, ViperLaws, create_default_config_file, new_viper_conf,
}
use nodare_db_dev.Server.Config.Boot.{new_viper_conf-boots}
use nodare_db_dev.Server.Config.Envs.{env_setting, has_key, overlay}
use nodare_db_dev.Server.Keys.{
  Key, env_loglevel, env_of, log_logfile, server_host, socket_path, socket_port_tcp,
  socket_port_tls, tls_enabled, tls_priv_key, tls_pub_cert,
}
use nodare_db_dev.Server.Listen.{Listener}
use nodare_db_dev.Server.Listen.Opens.{
  IsDue, Place, SocketSettings, can_all, open_listeners, open_listeners-outcome, wanted,
}
use nodare_db_dev.Server.Session.{can, made}
use nodare_db_dev.Server.Settings.{Timeouts, avail_subdicks, is_avail-pos}

-- What the parts of the program rest on: the settings' package with `GetBool`, `os.OpenFile`,
-- `net.Listen`, the load of a certificate, the environment, and the random source.
pub record Machine (V : Type 0) : Type 0 where
  pub viper : Viper V
  pub get_bool : V → Key → Bool
  pub open_file : Bytes → Option ℕ
  pub listens : List Place → Place → Bool
  pub loads : Bytes → Bytes → Bool
  pub env : Bytes → Option Bytes
  pub pick : ℕ → ℕ

-- The flags of the main program.
pub record MainFlags : Type 0 where
  pub flag_mode : ℕ
  pub flag_hashmode : ℕ
  pub flag_logfile : Bytes

-- The configuration file: whether it exists, the password that is made for a new one, its read, the
-- order of the range over the variables, and the settings before the read.
pub record ConfigFile (V : Type 0) : Type 0 where
  pub file_exists : Bool
  pub pass : Bytes
  pub read_in : V → Option V
  pub order : List Key
  pub fresh : V
  pub current : Timeouts

pub record Served (V : Type 0) : Type 0 where
  pub settings : V
  pub logger : Log
  pub mode : HashMode
  pub database : XDatabase
  pub up : Listener → Option Place
  pub secure : Bool

module _ {V : Type 0} (on : Machine V) where
  -- `database.HASHER = flag_hashmode`, and `GenerateSALT` where that is SipHash.
  unfoldable pub choose_hash : ℕ → HashMode → Run HashMode
  choose_hash n m =
      let chosen : HashMode = record m { hasher_mode = n } in
      if n == hash_siphash
      then (do (done, salted) ← generate_salt on.pick (false, chosen); ok salted)
      else ok chosen

  abbrev pub socket_settings : V → SocketSettings
  socket_settings v = record {
    host = on.viper.get_string v server_host;
    tcpport = on.viper.get_string v socket_port_tcp;
    tlsport = on.viper.get_string v socket_port_tls;
    socket_file = on.viper.get_string v socket_path;
    tlscrt = on.viper.get_string v tls_pub_cert;
    tlskey = on.viper.get_string v tls_priv_key;
    tlsenabled = on.get_bool v tls_enabled;
  }

  -- `NewNDBServer`.
  unfoldable pub new_ndb_server : V → Log → HashMode → XDatabase → List Listener → Run (Served V)
  new_ndb_server v l m db openings = do
    up ← open_listeners on.listens on.loads (socket_settings v) openings [] (λ k. none)
    ok (record {
      settings = v;
      logger = log_start on.open_file (on.viper.get_string v log_logfile) l;
      mode = m;
      database = db;
      up = up;
      secure = on.get_bool v tls_enabled;
    })

  -- The switch of `main`; in mode 0 nothing is started.
  unfoldable pub serve_mode :
      MainFlags → HashMode → ℕ → List Listener → Booted V → Log → Run (Option (Served V))
  serve_mode f m now openings b l =
      if f.flag_mode == 0
      then ok none
      else if f.flag_mode == 1
      then (do
        m' ← choose_hash f.flag_hashmode m
        served ← new_ndb_server b.conf l m' (new_dick now b.sub_dicks) openings
        ok (some served))
      else fault exit

  -- `main` up to the wait for a signal.
  unfoldable pub boot :
      MainFlags → HashMode → ℕ → List Listener → Log → ConfigFile V → Run (Option (Served V))
  boot f m now openings l file =
      let started =
        new_logger on.open_file (get_env_loglevel (on.env env_loglevel)) f.flag_logfile l in
      (do
        b ←
            new_viper_conf on.viper file.file_exists file.pass file.read_in on.env file.order
              (file.fresh, started.level) file.current
        serve_mode f m now openings b (record started { level = b.level }))

  choose_hash-mode :
      (n : ℕ) (m : HashMode)
      → ((i : ℕ) → on.pick i < 62)
      → Returns (choose_hash n m) λ m'. m'.hasher_mode ≡ n
  unfolding choose_hash
  choose_hash-mode n m small = elim (Bool-cases (n == hash_siphash)) [
    | inl e ↦
        let (p, run, keys) =
          generate_salt-keys on.pick on.pick (record m { hasher_mode = n }) small in
        rw (e, run) (p.1, refl, keys.0)
    | inr e ↦ rw e (_, refl, refl)
  ]

  new_ndb_server-serves :
      (v : V) (l : Log) (m : HashMode) (db : XDatabase) (openings : List Listener)
      → ((k : Listener) → IsDue k openings)
      → can_all on.listens on.loads (socket_settings v) openings [] ≡ true
      → Returns (new_ndb_server v l m db openings) λ served.
        (served.mode ≡ m)
        × (served.database ≡ db)
        × (served.settings ≡ v)
        × ((k : Listener) → served.up k ≡ wanted on.listens on.loads (socket_settings v) k)
        × (served.secure ≡ on.get_bool v tls_enabled)
        × (served.logger ≡ log_start on.open_file (on.viper.get_string v log_logfile) l)
  unfolding new_ndb_server
  new_ndb_server-serves v l m db openings due can =
      elim (open_listeners-outcome on.listens on.loads (socket_settings v) openings due) [
        | inl (all, (up, run, stands)) ↦ rw run (_, refl, (refl, refl, refl, stands, refl, refl))
        | inr (cannot, run) ↦ let clash : true ≡ false = sym can ∙ cannot in absurd (cc)
      ]

  -- In mode 1, with a known hash mode and numbers from `rand.Intn` of the length of the set,
  -- where the file of the settings can be read, whether it was there or was made, the range over
  -- the variables visits every key, and, with each key as in its environment variable or else in
  -- the file, each listener can be opened at its turn, in whatever order: the start of the
  -- program returns; its database answers every sequence of fewer than 2 ^ 63 requests as a map
  -- that starts empty; each listener listens where the settings ask for it; and each key reads as
  -- its environment variable where that is set, else as in the file.
  pub boot-serves :
      (laws : ViperLaws on.viper) (hashes : HashLib) (pcas : Bytes → ℕ) (f : MainFlags)
      (m : HashMode) (now : ℕ) (openings : List Listener) (l : Log) (file : ConfigFile V) (v : V)
      (rs : List Request)
      → f.flag_mode ≡ 1
      → 1 ≤ f.flag_hashmode
      → f.flag_hashmode ≤ 3
      → ((i : ℕ) → on.pick i < 62)
      → file.read_in (
          if file.file_exists
          then file.fresh
          else (create_default_config_file on.viper file.pass file.fresh).0)
        ≡ some v
      → ((k : Key) → has_key k file.order ≡ true)
      → ((k : Listener) → IsDue k openings)
      → ((c : V)
          → ((k : Key)
              → on.viper.get_value c k
                ≡ overlay
                    (env_setting on.viper.upper_other k (on.env (env_of k)))
                    (on.viper.get_value v k))
          → can_all on.listens on.loads (socket_settings c) openings [] ≡ true)
      → length rs < 2 ^ 63
      → (served : Served V) × (boot f m now openings l file ≡ ok (some served))
        × (dick_replies (hasher hashes served.mode) pcas served.database.xdick rs
            ≡ ok (map_replies (λ q. none) rs))
        × ((k : Listener)
            → served.up k
              ≡ wanted on.listens on.loads
                  (record {
                    host = on.viper.get_string served.settings server_host;
                    tcpport = on.viper.get_string served.settings socket_port_tcp;
                    tlsport = on.viper.get_string served.settings socket_port_tls;
                    socket_file = on.viper.get_string served.settings socket_path;
                    tlscrt = on.viper.get_string served.settings tls_pub_cert;
                    tlskey = on.viper.get_string served.settings tls_priv_key;
                    tlsenabled = on.get_bool served.settings tls_enabled;
                  })
                  k)
        × ((k : Key)
            → on.viper.get_value served.settings k
              ≡ overlay
                  (env_setting on.viper.upper_other k (on.env (env_of k)))
                  (on.viper.get_value v k))
  unfolding boot serve_mode new_dick
  boot-serves laws hashes pcas f m now openings l file v rs one lo hi small read all due can few =
      let started =
        new_logger on.open_file (get_env_loglevel (on.env env_loglevel)) f.flag_logfile l in
      let (b, conf, (values, level, avail)) =
        new_viper_conf-boots on.viper laws file.file_exists file.pass file.read_in on.env file.order
          (file.fresh, started.level) file.current v all
          (ap file.read_in (first_of file.file_exists started.level file.fresh _) ∙ read) in
      let (m', chosen, mode) = choose_hash-mode f.flag_hashmode m small in
      let (served, run, (same_mode, same_db, same_conf, up, secure, logged)) =
        new_ndb_server-serves b.conf (record started { level = b.level }) m'
          (new_dick now b.sub_dicks) openings due (can b.conf values) in
      (
        served,
        rw (conf, one, chosen, run) refl,
        rw (same_mode, same_db)
            (new_xdick-replies hashes m' pcas b.sub_dicks rs (omega (arith, mode, lo))
              (omega (arith, mode, hi))
              (is_avail-pos b.sub_dicks avail_subdicks (omega arith) avail) few),
        rw same_conf up,
        rw same_conf values,
      )
    where
      first_of :
          (e : Bool) (level : Option ℕ) (x : V) (made : V × Option ℕ)
          → (if◌then◌else◌ {A = V × Option ℕ} e (x, level) made).0 ≡ (if e then x else made.0)
      first_of true level x made = refl
      first_of false level x made = refl
