-- ===== src/Sql/Health.antt =====
-- Connecting to a database and checking it (`open`, `verifyOnConnect`, `CheckLiveness`, `CheckReadiness`,
-- `checkModel` and `Close` of internal/storage/sqlstore/sqlstore.go; `ConnectMySQL`, `ConnectPostgres`).
pub mod Checked
use text.Mathlib.Text.{◌==◌ as str_eq}
use text.Mathlib.TextEquality.{eq_iff}
use alertsnitch.Base.{
  ◌≡◌, ◌↔◌, refl, inl, inr, Bool, true, false, not, Option, none, some, String, Result, ok, err,
  Error, message, wrap, ℤ, pos, if◌then◌else◌, arith, Bool-cases, Result-cases, Option-cases, List,
  [], ◌∷◌, ltb, negsuc,
}
use alertsnitch.Alert.{Health}
use alertsnitch.Server.{World, status_ok, ready_probe, healthy_probe}
use alertsnitch.Server.Probes.{probes_iff}

abbrev pub supported_model : String
supported_model = "0.3.0"

-- `Config`
pub record Config : Type 0 where
  pub dsn : String
  pub max_idle_conns : ℤ
  pub max_open_conns : ℤ
  pub max_conn_lifetime_seconds : ℤ
  pub max_conn_idle_time_seconds : ℤ

-- What is set on the pool of connections, durations in seconds; an idle time that is not positive is
-- not set.
pub record Pool : Type 0 where
  pub idle : ℤ
  pub open_conns : ℤ
  pub idle_time : Option ℤ
  pub lifetime : ℤ

-- `QueryRowContext(ctx, "SELECT version FROM Model").Scan(&model)`
pub data ModelRead : Type 0 where
  no_rows : ModelRead
  failed : Error → ModelRead
  version : String → ModelRead

-- What database/sql answers.
pub record Database : Type 0 where
  pub opens : Option Error
  pub ping : Option Error
  pub model : ModelRead
  pub closes : Option Error

-- The texts of fmt: `err.Error()`, and `fmt.Sprintf` of strings.
pub record Format : Type 0 where
  pub text : Error → String
  pub sprintf : String → List String → String

abbrev is_positive : ℤ → Bool
is_positive (pos n) = ltb 0 n
is_positive (negsuc n) = false

abbrev pub pool_settings : Config → Pool
pool_settings cfg = record {
  idle = cfg.max_idle_conns;
  open_conns = cfg.max_open_conns;
  idle_time =
      if is_positive cfg.max_conn_idle_time_seconds
      then some cfg.max_conn_idle_time_seconds
      else none;
  lifetime = cfg.max_conn_lifetime_seconds;
}

module _ (fmt : Format) where
  -- `open`
  unfoldable pub open_pool : String → Config → Database → Result Pool
  open_pool driver cfg db =
      if str_eq cfg.dsn ""
      then err
          (message (fmt.sprintf "empty DSN provided, can't connect to %s database" (driver ∷ [])))
      else elim db.opens [
        | some e ↦ err (wrap (fmt.sprintf "failed to open %s connection" (driver ∷ [])) e)
        | none ↦ ok (pool_settings cfg)
      ]

  -- `checkModel`
  unfoldable pub check_model : ModelRead → Option Error
  check_model no_rows =
      some (message "failed to read model version from the database: empty resultset")
  check_model (failed e) = some (wrap "failed to fetch model version from the database" e)
  check_model (version model) =
      if not (str_eq model supported_model)
      then some (
          message (
            fmt.sprintf "database model %q is not supported by this application (%s)"
              (model ∷ supported_model ∷ [])))
      else none

  -- `CheckLiveness`
  unfoldable pub check_liveness : Database → Health
  check_liveness db = elim db.ping [
    | some e ↦ record { ready = false; healthy = false; detail = fmt.text e }
    | none ↦ record { ready = true; healthy = true; detail = "" }
  ]

  -- `CheckReadiness`
  unfoldable pub check_readiness : Database → Health
  unfolding check_model
  check_readiness db = elim db.ping [
    | some e ↦ record { ready = false; healthy = false; detail = fmt.text e }
    | none ↦ elim (check_model db.model) [
      | some e ↦ record { ready = true; healthy = false; detail = fmt.text e }
      | none ↦ record { ready = true; healthy = true; detail = "" }
    ]
  ]

  -- `verifyOnConnect`
  unfoldable pub verify_on_connect : String → Database → Option Error
  unfolding check_readiness
  verify_on_connect name db =
      let h = check_readiness db in
      if not h.ready
      then some (message (fmt.sprintf "%s database is not reachable: %s" (name ∷ h.detail ∷ [])))
      else if not h.healthy
      then some (message (fmt.sprintf "%s database model check failed: %s" (name ∷ h.detail ∷ [])))
      else none

  unfoldable pub connect : String → Config → Database → Result Pool
  unfolding open_pool verify_on_connect
  connect driver cfg db = elim (open_pool driver cfg db) [
    | err e ↦ err e
    | ok pool ↦ elim (verify_on_connect driver db) [ some e ↦ err e | none ↦ ok pool ]
  ]

  -- `ConnectMySQL`
  unfoldable pub connect_mysql : Config → Database → Result Pool
  unfolding connect
  connect_mysql cfg db = connect "mysql" cfg db

  -- `ConnectPostgres`
  unfoldable pub connect_postgres : Config → Database → Result Pool
  unfolding connect
  connect_postgres cfg db = connect "postgres" cfg db

-- `Close`; `none` stands for a backend without a pool.
unfoldable pub close_pool : Option Database → Option Error
close_pool none = none
close_pool (some db) = db.closes
