-- ===== src/Config/Args.antt =====
-- The Loki configuration that the command line gives (`Args` and `buildLokiConfig` of main.go).
-- url.Parse, time.ParseDuration, the split at commas and strings.TrimSpace are arguments.
use text.Mathlib.Text.{◌==◌ as str_eq}
use mathlib.Core.Path.{subst}
use alertsnitch.Base.{
  ℕ, suc, zero, ◌≡◌, refl, inl, inr, Bool, true, some, List, [], ◌∷◌, String, Result, ok, err,
  message, wrap, ℤ, pos, negsuc, if◌then◌else◌, Bool-cases, Result-cases,
}
use alertsnitch.Config.{Url, BatchConfig, Config, default_batch_config}

-- The fields of `Args` that `buildLokiConfig` reads.
pub record Args : Type 0 where
  pub dsn : String
  pub loki_tenant_id : String
  pub loki_basic_auth_user : String
  pub loki_basic_auth_password : String
  pub loki_tls_insecure_skip_verify : Bool
  pub loki_tls_ca_cert_path : String
  pub loki_tls_client_cert_path : String
  pub loki_tls_client_key_path : String
  pub loki_batch_enabled : Bool
  pub loki_batch_size : ℤ
  pub loki_batch_flush_timeout : String
  pub loki_batch_max_retries : ℤ
  pub loki_wal_enabled : Bool
  pub loki_wal_dir : String
  pub loki_allowed_labels : String
  pub loki_structured_metadata : Bool

pub record Parsers : Type 0 where
  pub parse_url : String → Result Url
  pub parse_duration : String → Result ℤ
  pub split : String → List String
  pub trim : String → String

-- `if args.LokiBatchSize > 0 { batch.Size = args.LokiBatchSize }`
unfoldable pub pick_size : ℤ → ℤ → ℤ
pick_size (pos (suc n)) otherwise = pos (suc n)
pick_size _ otherwise = otherwise

-- `if args.LokiBatchMaxRetries >= 0 { batch.MaxRetries = args.LokiBatchMaxRetries }`
unfoldable pub pick_retries : ℤ → ℤ → ℤ
pick_retries (pos n) otherwise = pos n
pick_retries (negsuc n) otherwise = otherwise

-- The batch settings when batch mode is on.
unfoldable pub enabled_batch : Parsers → Args → Result BatchConfig
unfolding pick_size pick_retries
enabled_batch p args =
    let batch : BatchConfig = record default_batch_config {
      enabled = true;
      size = pick_size args.loki_batch_size default_batch_config.size;
      max_retries = pick_retries args.loki_batch_max_retries default_batch_config.max_retries;
    } in
    if str_eq args.loki_batch_flush_timeout ""
    then ok batch
    else elim (p.parse_duration args.loki_batch_flush_timeout) [
      | err e ↦ err (wrap "invalid loki-batch-flush-timeout" e)
      | ok d ↦ ok (record batch { flush_timeout = d })
    ]

unfoldable pub build_batch : Parsers → Args → Result BatchConfig
unfolding enabled_batch
build_batch p args =
    if args.loki_batch_enabled then enabled_batch p args else ok default_batch_config

-- The loop over the labels between the commas.
unfoldable pub trimmed : (String → String) → List String → List String
trimmed trim [] = []
trimmed trim (label ∷ labels) =
    let rest = trimmed trim labels in if str_eq (trim label) "" then rest else trim label ∷ rest

-- `buildLokiConfig`
unfoldable pub build_loki_config : Parsers → Args → Result Config
unfolding build_batch trimmed
build_loki_config p args =
    if str_eq args.dsn ""
    then err (message "empty Loki endpoint provided, can't connect to Loki")
    else elim (p.parse_url args.dsn) [
      | err e ↦ err (wrap "failed to parse Loki endpoint" e)
      | ok endpoint ↦ elim (build_batch p args) [
        | err e ↦ err e
        | ok batch ↦ ok (record {
          url = some endpoint;
          auth = record {
            tenant_id = args.loki_tenant_id;
            basic_auth_user = args.loki_basic_auth_user;
            basic_auth_password = args.loki_basic_auth_password;
          };
          tls = record {
            insecure_skip_verify = args.loki_tls_insecure_skip_verify;
            ca_cert_path = args.loki_tls_ca_cert_path;
            client_cert_path = args.loki_tls_client_cert_path;
            client_key_path = args.loki_tls_client_key_path;
          };
          batch = batch;
          wal = record { enabled = args.loki_wal_enabled; dir = args.loki_wal_dir };
          request_timeout = pos 0;
          allowed_labels = trimmed p.trim (p.split args.loki_allowed_labels);
          structured_metadata = args.loki_structured_metadata;
        })
      ]
    ]

-- A batch configuration that makes at least one attempt for batches of at least one alert.
pub record IsRunnable (b : BatchConfig) : Type 0 where
  pub size : ℕ
  pub has_size : b.size ≡ pos (suc size)
  pub retries : ℕ
  pub has_retries : b.max_retries ≡ pos retries

picked_size : (n : ℤ) (m : ℕ) → (k : ℕ) × (pick_size n (pos (suc m)) ≡ pos (suc k))
unfolding pick_size
picked_size (pos (suc n)) m = (n, refl)
picked_size (pos zero) m = (m, refl)
picked_size (negsuc n) m = (m, refl)

picked_retries : (n : ℤ) (m : ℕ) → (k : ℕ) × (pick_retries n (pos m) ≡ pos k)
unfolding pick_retries
picked_retries (pos n) m = (n, refl)
picked_retries (negsuc n) m = (m, refl)

-- What holds of a result if there is one.
abbrev OnOk : {A : Type 0} → (A → Type 0) → Result A → Type 0
OnOk P (ok a) = P a
OnOk P (err e) = Unit {0}

IsRunnable-enabled_batch : (p : Parsers) (args : Args) → OnOk IsRunnable (enabled_batch p args)
unfolding enabled_batch
IsRunnable-enabled_batch p args =
    let (k, size) = picked_size args.loki_batch_size 99 in
    let (n, retries) = picked_retries args.loki_batch_max_retries 3 in
    elim (Bool-cases (str_eq args.loki_batch_flush_timeout "")) [
      | inl e ↦ rw e (record { size = k; has_size = size; retries = n; has_retries = retries })
      | inr e ↦ rw e (elim (Result-cases (p.parse_duration args.loki_batch_flush_timeout)) [
        | inl (d, t) ↦
            rw t (record { size = k; has_size = size; retries = n; has_retries = retries })
        | inr (x, t) ↦ rw t tt
      ])
    ]

IsRunnable-build_batch : (p : Parsers) (args : Args) → OnOk IsRunnable (build_batch p args)
unfolding build_batch
IsRunnable-build_batch p args = elim (Bool-cases args.loki_batch_enabled) [
  | inl e ↦ rw e (IsRunnable-enabled_batch p args)
  | inr e ↦ rw e (record { size = 99; has_size = refl; retries = 3; has_retries = refl })
]

IsRunnable-build :
    (p : Parsers) (args : Args) → OnOk (λ c. IsRunnable c.batch) (build_loki_config p args)
unfolding build_loki_config
IsRunnable-build p args = elim (Bool-cases (str_eq args.dsn "")) [
  | inl e ↦ rw e tt
  | inr e ↦ rw e (elim (Result-cases (p.parse_url args.dsn)) [
    | inr (x, t) ↦ rw t tt
    | inl (u, t) ↦ rw t (elim (Result-cases (build_batch p args)) [
      | inr (x, t') ↦ rw t' tt
      | inl (b, t') ↦ rw t' (subst (OnOk IsRunnable) t' (IsRunnable-build_batch p args))
    ])
  ])
]

-- Whatever numbers the command line gives, a configuration that is built from it has a batch size of
-- at least one and a maximum of retries that is not negative.
pub build_loki_config-IsRunnable :
    (p : Parsers) (args : Args) (c : Config) → build_loki_config p args ≡ ok c → IsRunnable c.batch
build_loki_config-IsRunnable p args c h =
    subst (OnOk (λ c'. IsRunnable c'.batch)) h (IsRunnable-build p args)
