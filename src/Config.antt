-- ===== src/Config.antt =====
-- The configuration of the Loki backend and its validation (internal/storage/loki/config.go).
-- Durations are nanoseconds. What `os.Stat` says of a path is an argument.
pub mod Valid
pub mod Args
use text.Mathlib.Text.{◌==◌ as str_eq}
use alertsnitch.Base.{
  ℕ, zero, suc, ◌*◌, ◌^◌, Bool, true, false, not, ◌&&◌, ◌||◌, Option, none, some, List, String,
  Result, ok, err, Error, message, wrap, ℤ, pos, negsuc, ltb, if◌then◌else◌,
}

abbrev pub second : ℕ
second = 10 ^ 9

abbrev pub default_timeout : ℕ
default_timeout = 5 * second

abbrev pub min_timeout : ℕ
min_timeout = 1 * second

abbrev pub max_timeout : ℕ
max_timeout = 30 * second

-- What the code uses of `url.URL`.
pub record Url : Type 0 where
  pub scheme : String

pub record AuthConfig : Type 0 where
  pub tenant_id : String
  pub basic_auth_user : String
  pub basic_auth_password : String

pub record TlsConfig : Type 0 where
  pub insecure_skip_verify : Bool
  pub ca_cert_path : String
  pub client_cert_path : String
  pub client_key_path : String

pub record BatchConfig : Type 0 where
  pub enabled : Bool
  pub size : ℤ
  pub flush_timeout : ℤ
  pub max_retries : ℤ
  pub retry_delay : ℤ

pub record WalConfig : Type 0 where
  pub enabled : Bool
  pub dir : String

pub record Config : Type 0 where
  pub url : Option Url
  pub auth : AuthConfig
  pub tls : TlsConfig
  pub batch : BatchConfig
  pub wal : WalConfig
  pub request_timeout : ℤ
  pub allowed_labels : List String
  pub structured_metadata : Bool

-- `DefaultBatchConfig`
abbrev pub default_batch_config : BatchConfig
default_batch_config = record {
  enabled = false;
  size = pos 100;
  flush_timeout = pos (5 * second);
  max_retries = pos 3;
  retry_delay = pos (1 * second);
}

-- `AuthConfig.validate`
unfoldable pub validate_auth : AuthConfig → Option Error
validate_auth a =
    if not (str_eq a.basic_auth_user "") && str_eq a.basic_auth_password ""
    then some (message "basic auth password is required when basic auth user is set")
    else if not (str_eq a.basic_auth_password "") && str_eq a.basic_auth_user ""
    then some (message "basic auth user is required when basic auth password is set")
    else none

-- `WALConfig.validate`
unfoldable pub validate_wal : Bool → WalConfig → Option Error
validate_wal batch_enabled w =
    if not w.enabled
    then none
    else if not batch_enabled
    then some (message "WAL requires batch mode to be enabled")
    else if str_eq w.dir ""
    then some (message "WAL directory is required when the WAL is enabled")
    else none

-- One round of the loop over the three paths, and the rounds behind it.
abbrev pub require_file : (String → Bool) → String → String → Option Error → Option Error
require_file not_exist path what rest =
    if str_eq path ""
    then rest
    else if not_exist path
    then some (wrap what (message "file not found"))
    else rest

-- `TLSConfig.validate`; a `!=` of Booleans is written out.
unfoldable pub validate_tls : (String → Bool) → TlsConfig → Option Error
validate_tls not_exist t =
    if (not (str_eq t.client_cert_path "") && str_eq t.client_key_path "")
      || (str_eq t.client_cert_path "" && not (str_eq t.client_key_path ""))
    then some (message "both client certificate path and key path must be provided together")
    else require_file not_exist t.ca_cert_path "CA certificate" (
        require_file not_exist t.client_cert_path "client certificate"
          (require_file not_exist t.client_key_path "client key" none))

-- The `switch` on the request timeout: the timeout from then on, or the error.
unfoldable pub settle_timeout : ℤ → Result ℤ
settle_timeout (negsuc n) = err (message "request timeout too short")
settle_timeout (pos zero) = ok (pos default_timeout)
settle_timeout (pos (suc n)) =
    if ltb (suc n) min_timeout
    then err (message "request timeout too short")
    else if ltb max_timeout (suc n)
    then err (message "request timeout too long")
    else ok (pos (suc n))

-- The part of `Validate` behind the `switch`.
unfoldable pub validate_parts : (String → Bool) → Config → Option Error
unfolding validate_auth validate_tls validate_wal
validate_parts not_exist c = elim (validate_auth c.auth) [
  | some e ↦ some (wrap "auth config" e)
  | none ↦ elim (validate_tls not_exist c.tls) [
    | some e ↦ some (wrap "tls config" e)
    | none ↦ elim (validate_wal c.batch.enabled c.wal) [
      | some e ↦ some (wrap "wal config" e)
      | none ↦ none
    ]
  ]
]

-- `Validate`: the error, and the configuration that it leaves.
unfoldable pub validate : (String → Bool) → Config → Option Error × Config
unfolding settle_timeout validate_parts
validate not_exist c = elim c.url [
  | none ↦ (some (message "url is required"), c)
  | some u ↦
      if not (str_eq u.scheme "http") && not (str_eq u.scheme "https")
      then (some (message "unsupported url scheme"), c)
      else elim (settle_timeout c.request_timeout) [
        | err e ↦ (some e, c)
        | ok t ↦ (
          validate_parts not_exist (record c { request_timeout = t }),
          record c { request_timeout = t },
        )
      ]
]
