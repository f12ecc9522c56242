-- ===== src/Server/Keys.antt =====
-- server/constants.go and server/configuration.go: the keys of the settings, their environment
-- variables, and the values of a new file. `viper` identifies a key by its name, and the names differ.
use nodare_db_dev.Prelude.{
  ==_iff, Bool, Bytes, List, [], ap, bytes_eq, get_or, refl, sym, true, ℕ, ◌==◌, ◌∙◌, ◌∷◌, ◌≡◌,
}

-- The constants `VK_...`.
pub data Key : Type 0 where
  superadmin_user superadmin_pass log_loglevel log_logfile : Key
  base_dir data_dir settings_dir settings_sub_dicks : Key
  tls_enabled tls_priv_key tls_pub_cert read_timeout write_timeout idle_timeout : Key
  server_host port_tcp port_udp socket_path socket_port_tcp socket_port_tls socket_acl_list : Key

-- A key's place in `mapEnvsToConf`.
unfoldable pub key_place : Key → ℕ
key_place superadmin_user = 0
key_place superadmin_pass = 1
key_place log_loglevel = 2
key_place log_logfile = 3
key_place base_dir = 4
key_place data_dir = 5
key_place settings_dir = 6
key_place settings_sub_dicks = 7
key_place tls_enabled = 8
key_place tls_priv_key = 9
key_place tls_pub_cert = 10
key_place read_timeout = 11
key_place write_timeout = 12
key_place idle_timeout = 13
key_place server_host = 14
key_place port_tcp = 15
key_place port_udp = 16
key_place socket_path = 17
key_place socket_port_tcp = 18
key_place socket_port_tls = 19
key_place socket_acl_list = 20

abbrev pub all_keys : List Key
all_keys =
    superadmin_user ∷ superadmin_pass ∷ log_loglevel ∷ log_logfile ∷ base_dir ∷ data_dir
    ∷ settings_dir ∷ settings_sub_dicks ∷ tls_enabled ∷ tls_priv_key ∷ tls_pub_cert ∷ read_timeout
    ∷ write_timeout ∷ idle_timeout ∷ server_host ∷ port_tcp ∷ port_udp ∷ socket_path
    ∷ socket_port_tcp ∷ socket_port_tls ∷ socket_acl_list ∷ []

unfoldable pub key_eq : Key → Key → Bool
key_eq k j = key_place k == key_place j

pub all_keys-key_place : (k : Key) → get_or all_keys (key_place k) superadmin_user ≡ k
unfolding key_place get_or
all_keys-key_place superadmin_user = refl
all_keys-key_place superadmin_pass = refl
all_keys-key_place log_loglevel = refl
all_keys-key_place log_logfile = refl
all_keys-key_place base_dir = refl
all_keys-key_place data_dir = refl
all_keys-key_place settings_dir = refl
all_keys-key_place settings_sub_dicks = refl
all_keys-key_place tls_enabled = refl
all_keys-key_place tls_priv_key = refl
all_keys-key_place tls_pub_cert = refl
all_keys-key_place read_timeout = refl
all_keys-key_place write_timeout = refl
all_keys-key_place idle_timeout = refl
all_keys-key_place server_host = refl
all_keys-key_place port_tcp = refl
all_keys-key_place port_udp = refl
all_keys-key_place socket_path = refl
all_keys-key_place socket_port_tcp = refl
all_keys-key_place socket_port_tls = refl
all_keys-key_place socket_acl_list = refl

pub key_eq_sound : (k j : Key) → key_eq k j ≡ true → k ≡ j
unfolding key_eq
key_eq_sound k j e =
    sym (all_keys-key_place k)
    ∙ ap (λ i. get_or all_keys i superadmin_user) ((==_iff (key_place k) (key_place j)).0 e)
    ∙ all_keys-key_place j

-- The variable LOGLEVEL.
abbrev pub env_loglevel : Bytes
env_loglevel = 76 ∷ 79 ∷ 71 ∷ 76 ∷ 69 ∷ 86 ∷ 69 ∷ 76 ∷ []

-- `mapEnvsToConf`: the environment variable of each key.
unfoldable pub env_of : Key → Bytes
-- NDB_SUPERADMIN
env_of superadmin_user = 78 ∷ 68 ∷ 66 ∷ 95 ∷ 83 ∷ 85 ∷ 80 ∷ 69 ∷ 82 ∷ 65 ∷ 68 ∷ 77 ∷ 73 ∷ 78 ∷ []
-- NDB_SADMINPASS
env_of superadmin_pass = 78 ∷ 68 ∷ 66 ∷ 95 ∷ 83 ∷ 65 ∷ 68 ∷ 77 ∷ 73 ∷ 78 ∷ 80 ∷ 65 ∷ 83 ∷ 83 ∷ []
env_of log_loglevel = env_loglevel
-- LOGS_FILE
env_of log_logfile = 76 ∷ 79 ∷ 71 ∷ 83 ∷ 95 ∷ 70 ∷ 73 ∷ 76 ∷ 69 ∷ []
-- NDB_BASE_DIR
env_of base_dir = 78 ∷ 68 ∷ 66 ∷ 95 ∷ 66 ∷ 65 ∷ 83 ∷ 69 ∷ 95 ∷ 68 ∷ 73 ∷ 82 ∷ []
-- NDB_DATA_DIR
env_of data_dir = 78 ∷ 68 ∷ 66 ∷ 95 ∷ 68 ∷ 65 ∷ 84 ∷ 65 ∷ 95 ∷ 68 ∷ 73 ∷ 82 ∷ []
-- NDB_CONFIG_DIR
env_of settings_dir = 78 ∷ 68 ∷ 66 ∷ 95 ∷ 67 ∷ 79 ∷ 78 ∷ 70 ∷ 73 ∷ 71 ∷ 95 ∷ 68 ∷ 73 ∷ 82 ∷ []
-- NDB_SUB_DICKS
env_of settings_sub_dicks = 78 ∷ 68 ∷ 66 ∷ 95 ∷ 83 ∷ 85 ∷ 66 ∷ 95 ∷ 68 ∷ 73 ∷ 67 ∷ 75 ∷ 83 ∷ []
-- NDB_TLS_ENABLED
env_of tls_enabled = 78 ∷ 68 ∷ 66 ∷ 95 ∷ 84 ∷ 76 ∷ 83 ∷ 95 ∷ 69 ∷ 78 ∷ 65 ∷ 66 ∷ 76 ∷ 69 ∷ 68 ∷ []
-- NDB_TLS_KEY
env_of tls_priv_key = 78 ∷ 68 ∷ 66 ∷ 95 ∷ 84 ∷ 76 ∷ 83 ∷ 95 ∷ 75 ∷ 69 ∷ 89 ∷ []
-- NDB_TLS_CRT
env_of tls_pub_cert = 78 ∷ 68 ∷ 66 ∷ 95 ∷ 84 ∷ 76 ∷ 83 ∷ 95 ∷ 67 ∷ 82 ∷ 84 ∷ []
-- NDB_WEBSRV_READ_TIMEOUT
env_of read_timeout =
    78 ∷ 68 ∷ 66 ∷ 95 ∷ 87 ∷ 69 ∷ 66 ∷ 83 ∷ 82 ∷ 86 ∷ 95 ∷ 82 ∷ 69 ∷ 65 ∷ 68 ∷ 95 ∷ 84 ∷ 73 ∷ 77
    ∷ 69 ∷ 79 ∷ 85 ∷ 84 ∷ []
-- NDB_WEBSRV_WRITE_TIMEOUT
env_of write_timeout =
    78 ∷ 68 ∷ 66 ∷ 95 ∷ 87 ∷ 69 ∷ 66 ∷ 83 ∷ 82 ∷ 86 ∷ 95 ∷ 87 ∷ 82 ∷ 73 ∷ 84 ∷ 69 ∷ 95 ∷ 84 ∷ 73
    ∷ 77 ∷ 69 ∷ 79 ∷ 85 ∷ 84 ∷ []
-- NDB_WEBSRV_IDLE_TIMEOUT
env_of idle_timeout =
    78 ∷ 68 ∷ 66 ∷ 95 ∷ 87 ∷ 69 ∷ 66 ∷ 83 ∷ 82 ∷ 86 ∷ 95 ∷ 73 ∷ 68 ∷ 76 ∷ 69 ∷ 95 ∷ 84 ∷ 73 ∷ 77
    ∷ 69 ∷ 79 ∷ 85 ∷ 84 ∷ []
-- NDB_HOST
env_of server_host = 78 ∷ 68 ∷ 66 ∷ 95 ∷ 72 ∷ 79 ∷ 83 ∷ 84 ∷ []
-- NDB_PORT
env_of port_tcp = 78 ∷ 68 ∷ 66 ∷ 95 ∷ 80 ∷ 79 ∷ 82 ∷ 84 ∷ []
-- SERVER_UDP_PORT
env_of port_udp = 83 ∷ 69 ∷ 82 ∷ 86 ∷ 69 ∷ 82 ∷ 95 ∷ 85 ∷ 68 ∷ 80 ∷ 95 ∷ 80 ∷ 79 ∷ 82 ∷ 84 ∷ []
-- SERVER_SOCKET_PATH
env_of socket_path =
    83 ∷ 69 ∷ 82 ∷ 86 ∷ 69 ∷ 82 ∷ 95 ∷ 83 ∷ 79 ∷ 67 ∷ 75 ∷ 69 ∷ 84 ∷ 95 ∷ 80 ∷ 65 ∷ 84 ∷ 72 ∷ []
-- SERVER_SOCKET_TCP_PORT
env_of socket_port_tcp =
    83 ∷ 69 ∷ 82 ∷ 86 ∷ 69 ∷ 82 ∷ 95 ∷ 83 ∷ 79 ∷ 67 ∷ 75 ∷ 69 ∷ 84 ∷ 95 ∷ 84 ∷ 67 ∷ 80 ∷ 95 ∷ 80
    ∷ 79 ∷ 82 ∷ 84 ∷ []
-- SERVER_SOCKET_TLS_PORT
env_of socket_port_tls =
    83 ∷ 69 ∷ 82 ∷ 86 ∷ 69 ∷ 82 ∷ 95 ∷ 83 ∷ 79 ∷ 67 ∷ 75 ∷ 69 ∷ 84 ∷ 95 ∷ 84 ∷ 76 ∷ 83 ∷ 95 ∷ 80
    ∷ 79 ∷ 82 ∷ 84 ∷ []
-- SERVER_SOCKET_ACL
env_of socket_acl_list =
    83 ∷ 69 ∷ 82 ∷ 86 ∷ 69 ∷ 82 ∷ 95 ∷ 83 ∷ 79 ∷ 67 ∷ 75 ∷ 69 ∷ 84 ∷ 95 ∷ 65 ∷ 67 ∷ 76 ∷ []

-- LOGLEVEL is the variable of the log level alone.
pub env_of-loglevel : (k : Key) → bytes_eq (env_of k) env_loglevel ≡ key_eq k log_loglevel
unfolding bytes_eq env_of key_eq key_place
env_of-loglevel superadmin_user = refl
env_of-loglevel superadmin_pass = refl
env_of-loglevel log_loglevel = refl
env_of-loglevel log_logfile = refl
env_of-loglevel base_dir = refl
env_of-loglevel data_dir = refl
env_of-loglevel settings_dir = refl
env_of-loglevel settings_sub_dicks = refl
env_of-loglevel tls_enabled = refl
env_of-loglevel tls_priv_key = refl
env_of-loglevel tls_pub_cert = refl
env_of-loglevel read_timeout = refl
env_of-loglevel write_timeout = refl
env_of-loglevel idle_timeout = refl
env_of-loglevel server_host = refl
env_of-loglevel port_tcp = refl
env_of-loglevel port_udp = refl
env_of-loglevel socket_path = refl
env_of-loglevel socket_port_tcp = refl
env_of-loglevel socket_port_tls = refl
env_of-loglevel socket_acl_list = refl
