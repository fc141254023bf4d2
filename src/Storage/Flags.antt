-- ===== src/Storage/Flags.antt =====
-- The settings of the program (`parseArgs` of main.go): flags, behind them the environment, behind it the
-- defaults.
use alertsnitch.Base.{Bool, false, Option, String, Result, ℤ, pos}
use alertsnitch.Config.Args.{Args}
use alertsnitch.Sql.Health.{Config as SqlConfig}
use alertsnitch.Storage.{ProgramArgs, get_env, get_env_as}

-- The environment, strconv, and the flag package after its Parse: the value of a flag from its name and
-- its default.
pub record Settings : Type 0 where
  pub look : String → Option String
  pub parse_bool : String → Result Bool
  pub parse_int : String → Result ℤ
  pub string_flag : String → String → String
  pub bool_flag : String → Bool → Bool
  pub int_flag : String → ℤ → ℤ

abbrev pub string_var : Settings → (name key default : String) → String
string_var s name key default = s.string_flag name (get_env s.look key default)

abbrev pub bool_var : Settings → (name key : String) → Bool → Bool
bool_var s name key default = s.bool_flag name (get_env_as s.parse_bool s.look key default)

abbrev pub int_var : Settings → (name key : String) → ℤ → ℤ
int_var s name key default = s.int_flag name (get_env_as s.parse_int s.look key default)

abbrev pub sql_args : Settings → String → SqlConfig
sql_args s dsn = record {
  dsn = dsn;
  max_idle_conns = int_var s "max-idle-connections" "ALERTSNITCH_MAX_IDLE_CONNS" (pos 1);
  max_open_conns = int_var s "max-open-connections" "ALERTSNITCH_MAX_OPEN_CONNS" (pos 2);
  max_conn_lifetime_seconds =
      int_var s "max-connection-lifetime-seconds" "ALERTSNITCH_MAX_CONN_LIFETIME" (pos 600);
  max_conn_idle_time_seconds =
      int_var s "max-connection-idle-time-seconds" "ALERTSNITCH_MAX_CONN_IDLE_TIME" (pos 120);
}

abbrev pub loki_args : Settings → String → Args
loki_args s dsn = record {
  dsn = dsn;
  loki_tenant_id = string_var s "tenant-id" "ALERTSNITCH_LOKI_TENANT_ID" "";
  loki_basic_auth_user = string_var s "basic-auth-user" "ALERTSNITCH_LOKI_BASIC_AUTH_USER" "";
  loki_basic_auth_password =
      string_var s "basic-auth-password" "ALERTSNITCH_LOKI_BASIC_AUTH_PASSWORD" "";
  loki_tls_insecure_skip_verify =
      bool_var s "tls-insecure-skip-verify" "ALERTSNITCH_LOKI_TLS_INSECURE_SKIP_VERIFY" false;
  loki_tls_ca_cert_path = string_var s "tls-ca-cert-path" "ALERTSNITCH_LOKI_TLS_CA_CERT_PATH" "";
  loki_tls_client_cert_path =
      string_var s "tls-client-cert-path" "ALERTSNITCH_LOKI_TLS_CLIENT_CERT_PATH" "";
  loki_tls_client_key_path =
      string_var s "tls-client-key-path" "ALERTSNITCH_LOKI_TLS_CLIENT_KEY_PATH" "";
  loki_batch_enabled = bool_var s "loki-batch-enabled" "ALERTSNITCH_LOKI_BATCH_ENABLED" false;
  loki_batch_size = int_var s "loki-batch-size" "ALERTSNITCH_LOKI_BATCH_SIZE" (pos 100);
  loki_batch_flush_timeout =
      string_var s "loki-batch-flush-timeout" "ALERTSNITCH_LOKI_BATCH_FLUSH_TIMEOUT" "5s";
  loki_batch_max_retries =
      int_var s "loki-batch-max-retries" "ALERTSNITCH_LOKI_BATCH_MAX_RETRIES" (pos 3);
  loki_wal_enabled = bool_var s "loki-wal-enabled" "ALERTSNITCH_LOKI_WAL_ENABLED" false;
  loki_wal_dir = string_var s "loki-wal-dir" "ALERTSNITCH_LOKI_WAL_DIR" "";
  loki_allowed_labels = string_var s "loki-allowed-labels" "ALERTSNITCH_LOKI_ALLOWED_LABELS" "";
  loki_structured_metadata =
      bool_var s "loki-structured-metadata" "ALERTSNITCH_LOKI_STRUCTURED_METADATA" false;
}

-- `parseArgs`
unfoldable pub parse_args : Settings → ProgramArgs
unfolding get_env get_env_as
parse_args s =
    let dsn = string_var s "dsn" "ALERTSNITCH_BACKEND_ENDPOINT" "" in
    record {
      address = string_var s "listen.address" "ALERTSNITCH_ADDR" ":9567";
      db_backend = string_var s "database-backend" "ALERTSNITCH_BACKEND" "mysql";
      sql = sql_args s dsn;
      loki = loki_args s dsn;
      debug = bool_var s "debug" "ALERTSNITCH_DEBUG" false;
      version = s.bool_flag "version" false;
    }
