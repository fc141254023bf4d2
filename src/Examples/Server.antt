-- ===== src/Examples/Server.antt =====
-- The theorems of the server and of the configuration at concrete inputs.
use alertsnitch.Base.{
  Error, negsuc, ◌∷◌, ◌*◌, ◌≡◌, ◌↔◌, refl, true, false, Option, none, some, [], ok, pos,
}
use alertsnitch.Alert.{Health}
use alertsnitch.Config.{Config, default_batch_config, second, validate}
use alertsnitch.Config.Args.{
  Args, Parsers, IsRunnable, build_loki_config, build_batch, enabled_batch, pick_size, pick_retries,
  trimmed, build_loki_config-IsRunnable,
}
use alertsnitch.Config.Valid.{IsValid, validate_iff}
use alertsnitch.Server.{World, Request, webhook_post, save_null}
use alertsnitch.Server.Answers.{answer, Saved, webhook_post_iff}
use alertsnitch.Server.Counts.{InStep, save_null-Accounts, webhook_post-InStep}
use alertsnitch.Examples.Data.{group, zeros}

abbrev world : World (Unit {0})
world = record { metrics = zeros; backend = tt }

abbrev request : Request
request = record { body = ok []; query = [] }

webhook_post-InStep_example :
    InStep "web" "firing" world (webhook_post (λ bytes. ok group) save_null request world).1
webhook_post-InStep_example =
    webhook_post-InStep save_null-Accounts "web" "firing" (λ bytes. ok group) request world

webhook_post_iff_example :
    ((answer (λ bytes. ok group) save_null request world ≡ 200)
      ↔ Saved (λ bytes. ok group) save_null request world none)
    × ((answer (λ bytes. ok group) save_null request world ≡ 500)
        ↔ ((e : Error) × Saved (λ bytes. ok group) save_null request world (some e)))
    × ((answer (λ bytes. ok group) save_null request world ≡ 400)
        ↔ ((e : Option Error) → Saved (λ bytes. ok group) save_null request world e → ⊥))
webhook_post_iff_example = webhook_post_iff (λ bytes. ok group) save_null request world

abbrev unhealthy : Option Health
unhealthy = some (record { ready = true; healthy = false; detail = "" })

abbrev config : Config
config = record {
  url = some (record { scheme = "https" });
  auth = record { tenant_id = ""; basic_auth_user = ""; basic_auth_password = "" };
  tls = record {
    insecure_skip_verify = false;
    ca_cert_path = "/ca.pem";
    client_cert_path = "";
    client_key_path = "";
  };
  batch = default_batch_config;
  wal = record { enabled = false; dir = "" };
  request_timeout = pos (2 * second);
  allowed_labels = [];
  structured_metadata = false;
}

validate_iff_example : ((validate (λ path. false) config).0 ≡ none) ↔ IsValid (λ path. false) config
validate_iff_example = validate_iff (λ path. false) config

-- A batch size of zero and a negative maximum of retries.
abbrev args : Args
args = record {
  dsn = "http://loki";
  loki_tenant_id = "";
  loki_basic_auth_user = "";
  loki_basic_auth_password = "";
  loki_tls_insecure_skip_verify = false;
  loki_tls_ca_cert_path = "";
  loki_tls_client_cert_path = "";
  loki_tls_client_key_path = "";
  loki_batch_enabled = true;
  loki_batch_size = pos 0;
  loki_batch_flush_timeout = "1s";
  loki_batch_max_retries = negsuc 0;
  loki_wal_enabled = false;
  loki_wal_dir = "";
  loki_allowed_labels = "";
  loki_structured_metadata = false;
}

abbrev parsers : Parsers
parsers = record {
  parse_url = λ text. ok (record { scheme = "http" });
  parse_duration = λ text. ok (pos second);
  split = λ text. text ∷ [];
  trim = λ text. text;
}

abbrev built : Config
built = record {
  url = some (record { scheme = "http" });
  auth = record { tenant_id = ""; basic_auth_user = ""; basic_auth_password = "" };
  tls = record {
    insecure_skip_verify = false;
    ca_cert_path = "";
    client_cert_path = "";
    client_key_path = "";
  };
  batch = record default_batch_config { enabled = true; flush_timeout = pos second };
  wal = record { enabled = false; dir = "" };
  request_timeout = pos 0;
  allowed_labels = [];
  structured_metadata = false;
}

build_loki_config-IsRunnable_example : IsRunnable built.batch
build_loki_config-IsRunnable_example =
    build_loki_config-IsRunnable parsers args built
      (unfold build_loki_config build_batch enabled_batch pick_size pick_retries trimmed in refl)
