-- ===== src/Server.antt =====
-- The handlers of the web server (internal/server/server.go), the null backend
-- (internal/storage/null/null.go) and the Loki client without batches (`Save` of
-- internal/storage/loki/client.go). A handler is a function of the request and of what it changes.
pub mod Counts
pub mod Answers
pub mod Probes
use text.Mathlib.Text.{◌==◌ as str_eq}
use alertsnitch.Base.{
  ℕ, ◌+◌, Bool, true, false, not, Option, none, some, List, [], ◌∷◌, String, Bytes, Labels, Time,
  Result, ok, err, Error, wrap, context, if◌then◌else◌, length,
}
use alertsnitch.Base.Maps.{insert}
use alertsnitch.Alert.{AlertGroup, Health}
use alertsnitch.Timestamps.{Stream}
use alertsnitch.Stream.{Converter, data_to_stream}
use alertsnitch.Metrics.{Metrics, add, record_save_outcome}

-- The counters, and the state of a backend.
pub record World (B : Type 0) : Type 0 where
  pub metrics : Metrics
  pub backend : B

-- `Storer.Save`
abbrev pub Save : Type 0 → Type 0
Save B = AlertGroup → Labels → World B → Option Error × World B

-- What a handler reads of a request: the body, or the error of reading it, and the query.
pub record Request : Type 0 where
  pub body : Result Bytes
  pub query : List (String × List String)

-- `queryLabels`
unfoldable pub query_labels : List (String × List String) → Labels → Labels
unfolding insert
query_labels [] labels = labels
query_labels ((key, []) ∷ query) labels = query_labels query labels
query_labels ((key, v ∷ values) ∷ query) labels = query_labels query (insert key v labels)

abbrev pub status_ok : ℕ
status_ok = 200

abbrev pub bad_request : ℕ
bad_request = 400

abbrev pub server_error : ℕ
server_error = 500

abbrev pub unavailable : ℕ
unavailable = 503

-- InvalidWebhooksTotal.Inc() and a response with status 400
abbrev pub refuse : {B : Type 0} → World B → ℕ × World B
refuse w = (
  bad_request,
  record w { metrics = record w.metrics { webhooks_invalid = w.metrics.webhooks_invalid + 1 } },
)

-- AlertsReceivedTotal.WithLabelValues(receiver, status).Add(n)
unfoldable pub receive : {B : Type 0} → AlertGroup → World B → World B
unfolding add
receive g w = record w {
  metrics = record w.metrics {
    alerts_received = add g.receiver g.status (length g.alerts) w.metrics.alerts_received;
  };
}

-- `webhookPost` from the test of the version on.
unfoldable pub accept_group : {B : Type 0} → Save B → Request → AlertGroup → World B → ℕ × World B
unfolding query_labels receive
accept_group save r g w =
    if not (str_eq g.version "4")
    then refuse w
    else (let (e, w') = save g (query_labels r.query []) (receive g w) in
        elim e [ some failed ↦ (server_error, w') | none ↦ (status_ok, w') ])

-- `webhook.Parse` (internal/webhook/webhook.go); `unmarshal` is json.Unmarshal into a group.
unfoldable pub parse_webhook : (Bytes → Result AlertGroup) → Bytes → Result AlertGroup
parse_webhook unmarshal payload =
    context "failed to decode json webhook payload" (unmarshal payload)

-- `webhookPost`; `parse` is `webhook.Parse`. The response is its status.
unfoldable pub webhook_post :
    {B : Type 0} → (Bytes → Result AlertGroup) → Save B → Request → World B → ℕ × World B
unfolding accept_group
webhook_post parse save r w =
    let w1 = record w {
      metrics = record w.metrics { webhooks_received = w.metrics.webhooks_received + 1 };
    } in
    elim r.body [
      | err e ↦ refuse w1
      | ok body ↦ elim (parse body) [ err e ↦ refuse w1 | ok g ↦ accept_group save r g w1 ]
    ]

-- `Save` of the null backend.
unfoldable pub save_null : {B : Type 0} → Save B
save_null g extra_labels w = (
  none,
  record w { metrics = record_save_outcome g.receiver g.status (length g.alerts) none w.metrics },
)

-- `CheckLiveness`, `CheckReadiness` and `Close` of the null backend.
unfoldable pub check_null : Health
check_null = record { ready = true; healthy = true; detail = "" }

unfoldable pub close_null : {B : Type 0} → World B → Option Error × World B
close_null w = (none, w)

-- `Save` of a Loki client that has no batch processor: `push` is `pushPayload`, `received_at` and
-- `now` are readings of the clock.
unfoldable pub save_loki :
    {B : Type 0} → Converter → (List Stream → Option Error) → Time → Time → Save B
save_loki c push received_at now g extra_labels w =
    elim (data_to_stream c now g extra_labels received_at) [
      | err e ↦ (
        some (wrap "error converting data to stream" e),
        record w {
          metrics = record_save_outcome g.receiver g.status (length g.alerts) (some e) w.metrics;
        },
      )
      | ok streams ↦ (
        push streams,
        record w {
          metrics =
              record_save_outcome g.receiver g.status (length g.alerts) (push streams) w.metrics;
        },
      )
    ]

-- `probe`; `none` stands for a backend that does not report its health.
unfoldable pub probe : {B : Type 0} → Option Health → World B → Health × World B
probe none w = (
  record { ready = true; healthy = true; detail = "" },
  record w { metrics = record w.metrics { database_up = true } },
)
probe (some h) w = (h, record w { metrics = record w.metrics { database_up = h.ready } })

-- `healthyProbe` of what CheckLiveness returns.
unfoldable pub healthy_probe : {B : Type 0} → Option Health → World B → ℕ × World B
unfolding probe
healthy_probe check w =
    let (h, w') = probe check w in if not h.ready then (unavailable, w') else (status_ok, w')

-- `readyProbe` of what CheckReadiness returns.
unfoldable pub ready_probe : {B : Type 0} → Option Health → World B → ℕ × World B
unfolding probe
ready_probe check w =
    let (h, w') = probe check w in
    if not h.ready
    then (unavailable, w')
    else if not h.healthy
    then (unavailable, w')
    else (status_ok, w')
