-- ===== src/Transport.antt =====
-- The requests to Loki (internal/storage/loki/transport.go). encoding/json, compress/gzip, net/http and
-- net/url are a parameter: an `Http`. Names of headers stand as the source spells them.
pub mod Sent
pub mod Saved
use text.Mathlib.Text.{◌==◌ as str_eq}
use alertsnitch.Base.{
  ℕ, Bool, true, false, ◌||◌, ◌&&◌, not, ltb, leb, ◌*◌, Option, none, some, List, [], ◌∷◌, String,
  Bytes, Result, ok, err, Error, message, wrap, context, ◌>>=◌, if◌then◌else◌,
}
use alertsnitch.Base.Maps.{insert}
use alertsnitch.Alert.{Health}
use alertsnitch.Labels.{is_empty}
use alertsnitch.Timestamps.{Stream}
use alertsnitch.Config.{AuthConfig}

abbrev pub Headers : Type 0
Headers = List (String × String)

pub record Request : Type 0 where
  pub method : String
  pub uri : String
  pub headers : Headers
  pub body : Bytes

-- A response: its status, and what reading at most so many bytes of its body gives.
pub record Response : Type 0 where
  pub status : ℕ
  pub read_all : ℕ → Result Bytes

-- json.Marshal of a payload, a gzip.Writer (`Write`, then `Close`, which leaves the buffer),
-- `JoinPath` on the configured URL, http.NewRequestWithContext, `Do`, the value that `SetBasicAuth` sets,
-- the text of bytes and of an error, and fmt.Sprintf with a number and a text.
pub record Http : Type 0 where
  pub marshal : List Stream → Result Bytes
  pub write : Bytes → Result (Unit {0})
  pub close : Bytes → Result Bytes
  pub join_path : String → String → String
  pub create : (method uri : String) → Result (Unit {0})
  pub send : Request → Result Response
  pub basic_auth : (user password : String) → String
  pub text : Bytes → String
  pub error_text : Error → String
  pub sprintf : String → ℕ → String → String

abbrev pub max_error_body_size : ℕ
max_error_body_size = 64 * 1024

abbrev pub loki_api_path : String
loki_api_path = "loki/api/v1"

abbrev is_2xx : ℕ → Bool
is_2xx status = not (ltb status 200 || leb 300 status)

module _ (h : Http) (auth : AuthConfig) where
  -- `setAuthAndTenantHeaders`
  unfoldable pub set_auth_and_tenant_headers : Headers → Headers
  unfolding insert
  set_auth_and_tenant_headers headers =
      let tenant =
        if not (str_eq auth.tenant_id "")
        then insert "X-Scope-OrgID" auth.tenant_id headers
        else headers in
      let basic =
        if not (str_eq auth.basic_auth_user "") && not (str_eq auth.basic_auth_password "")
        then insert "Authorization" (h.basic_auth auth.basic_auth_user auth.basic_auth_password)
            tenant
        else tenant in
      insert "Content-Type" "application/json" basic

  -- The request that `pushPayload` sends.
  unfoldable pub push_request : Bytes → Request
  unfolding set_auth_and_tenant_headers
  push_request body = record {
    method = "POST";
    uri = h.join_path loki_api_path "push";
    headers = set_auth_and_tenant_headers (insert "Content-Encoding" "gzip" []);
    body = body;
  }

  -- What `pushPayload` makes of the response.
  unfoldable pub check_response : Response → Result (Unit {0})
  check_response res =
      if not (is_2xx res.status)
      then elim (res.read_all max_error_body_size) [
        | err e ↦ err (
            wrap
              (h.sprintf "loki returned non-2xx (status %d) and reading the body failed" res.status
                "")
              e)
        | ok body ↦
            if not (is_empty body)
            then err
                (message (h.sprintf "loki returned error (status %d): %s" res.status (h.text body)))
            else err (
                message (h.sprintf "loki returned error with empty body (status %d)" res.status ""))
      ]
      else ok tt

  -- `pushPayload`
  unfoldable pub push_payload : List Stream → Result (Unit {0})
  unfolding push_request check_response
  push_payload streams = do
    payload ← context "error marshaling loki request" (h.marshal streams)
    _ ← context "error compressing payload" (h.write payload)
    body ← context "error closing gzip writer" (h.close payload)
    _ ←
        context "error creating loki push request"
          (h.create "POST" (h.join_path loki_api_path "push"))
    res ← context "error pushing data to loki" (h.send (push_request body))
    check_response res

  -- The request that `ping` sends.
  unfoldable pub ping_request : Request
  unfolding set_auth_and_tenant_headers
  ping_request = record {
    method = "GET";
    uri = h.join_path loki_api_path "/labels";
    headers = set_auth_and_tenant_headers [];
    body = [];
  }

  -- `ping`
  unfoldable pub ping : Result (Unit {0})
  unfolding ping_request
  ping = do
    _ ← context "error creating request" (h.create "GET" (h.join_path loki_api_path "/labels"))
    res ← context "failed to ping loki endpoint" (h.send ping_request)
    (if not (is_2xx res.status)
        then err (message (h.sprintf "loki ping returned non-2xx status code: %d" res.status ""))
        else ok tt)

  -- `reachability`, which is `CheckLiveness` and `CheckReadiness`.
  unfoldable pub reachability : Health
  unfolding ping
  reachability = elim ping [
    | err e ↦ record { ready = false; healthy = true; detail = h.error_text e }
    | ok u ↦ record { ready = true; healthy = true; detail = "" }
  ]

-- The error of a function that returns nothing else.
abbrev pub error_of : {A : Type 0} → Result A → Option Error
error_of (ok a) = none
error_of (err e) = some e
