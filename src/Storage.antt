-- ===== src/Storage.antt =====
-- The registry of backends (internal/storage/storage.go) and how the program configures one
-- (`buildConfig` of main.go), with the readers of the environment (pkg/env/env.go).
pub mod Registry
pub mod Flags
use text.Mathlib.Text.{◌==◌ as str_eq}
use alertsnitch.Base.{
  ℕ, Bool, Option, none, some, List, [], ◌∷◌, ◌++◌, String, Result, ok, err, Error, message, pos,
  false, if◌then◌else◌, map, ◌>>=◌,
}
use alertsnitch.Base.Maps.{lookup, insert}
use alertsnitch.Base.Order.{str_leb}
use alertsnitch.Config.Args.{Args, Parsers, build_loki_config}
use alertsnitch.Config.{Config as LokiConfig}
use alertsnitch.Sql.Health.{Config as SqlConfig, Pool}
use alertsnitch.Client.{Client}

-- `Config`
pub record Config : Type 0 where
  pub backend : String
  pub sql : SqlConfig
  pub loki : LokiConfig

-- The backends that the program knows.
pub data Storer : Type 0 where
  mysql_store postgres_store : Pool → Storer
  loki_store : Client → Storer
  null_store : Storer

abbrev pub Factory : Type 0
Factory = Config → Result Storer

abbrev pub Registry : Type 0
Registry = List (String × Factory)

-- What connects each backend.
pub record Connectors : Type 0 where
  pub connect_mysql : SqlConfig → Result Pool
  pub connect_postgres : SqlConfig → Result Pool
  pub new_loki : LokiConfig → Result Client

-- `wrap`
abbrev pub wrapped : {A : Type 0} → (A → Storer) → Result A → Result Storer
wrapped store (ok s) = ok (store s)
wrapped store (err e) = err e

-- The variable `registry` before any `Register`.
unfoldable pub built_in : Connectors → Registry
built_in c =
    ("mysql", λ cfg. wrapped mysql_store (c.connect_mysql cfg.sql))
    ∷ ("postgres", λ cfg. wrapped postgres_store (c.connect_postgres cfg.sql))
    ∷ ("loki", λ cfg. wrapped loki_store (c.new_loki cfg.loki))
    ∷ ("null", λ cfg. ok null_store)
    ∷ []

-- `Register`
unfoldable pub register : String → Factory → Registry → Registry
unfolding insert
register name f registry = insert name f registry

unfoldable pub insert_name : String → List String → List String
insert_name n [] = n ∷ []
insert_name n (m ∷ names) =
    let later = insert_name n names in if str_leb n m then n ∷ m ∷ names else m ∷ later

-- `SupportedBackends`; sort.Strings of names of which none stands twice.
unfoldable pub supported_backends : Registry → List String
unfolding insert_name
supported_backends [] = []
supported_backends ((name, f) ∷ registry) = insert_name name (supported_backends registry)

-- `Connect`; `invalid` is the text of its error, from the name and the names that are supported.
unfoldable pub connect : (String → List String → String) → Registry → Config → Result Storer
unfolding lookup supported_backends
connect invalid registry cfg = elim (lookup cfg.backend registry) [
  | none ↦ err (message (invalid cfg.backend (supported_backends registry)))
  | some f ↦ f cfg
]

-- `GetEnv`, `GetEnvAsBool` and `GetEnvAsInt`: `look` is os.LookupEnv, `parse` is strconv.ParseBool or
-- strconv.Atoi.
unfoldable pub get_env : (String → Option String) → String → String → String
get_env look key default = elim (look key) [ none ↦ default | some value ↦ value ]

unfoldable pub get_env_as :
    {A : Type 0} → (String → Result A) → (String → Option String) → String → A → A
unfolding get_env
get_env_as parse look key default = elim (parse (get_env look key "")) [
  | err e ↦ default
  | ok value ↦ value
]

-- `Args`: the fields of the SQL backends and those of Loki in a record each.
pub record ProgramArgs : Type 0 where
  pub address : String
  pub db_backend : String
  pub sql : SqlConfig
  pub loki : Args
  pub debug : Bool
  pub version : Bool

abbrev pub zero_loki_config : LokiConfig
zero_loki_config = record {
  url = none;
  auth = record { tenant_id = ""; basic_auth_user = ""; basic_auth_password = "" };
  tls = record {
    insecure_skip_verify = false;
    ca_cert_path = "";
    client_cert_path = "";
    client_key_path = "";
  };
  batch = record {
    enabled = false;
    size = pos 0;
    flush_timeout = pos 0;
    max_retries = pos 0;
    retry_delay = pos 0;
  };
  wal = record { enabled = false; dir = "" };
  request_timeout = pos 0;
  allowed_labels = [];
  structured_metadata = false;
}

-- `buildConfig`
unfoldable pub build_config : Parsers → ProgramArgs → Result Config
build_config p args =
    if str_eq args.db_backend "loki"
    then elim (build_loki_config p args.loki) [
      | err e ↦ err e
      | ok loki ↦ ok (record { backend = args.db_backend; sql = args.sql; loki = loki })
    ]
    else ok (record { backend = args.db_backend; sql = args.sql; loki = zero_loki_config })

-- What `main` makes of its arguments: the configuration, then the backend.
unfoldable pub connect_program :
    (String → List String → String) → Connectors → Parsers → ProgramArgs → Result Storer
unfolding build_config connect built_in
connect_program invalid c p args = elim (build_config p args) [
  | err e ↦ err e
  | ok cfg ↦ connect invalid (built_in c) cfg
]
