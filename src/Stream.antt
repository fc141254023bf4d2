-- ===== src/Stream.antt =====
-- From an alert group to Loki streams (internal/storage/loki/stream.go, FlattenAlertGroup of
-- encoding.go).
pub mod Build
pub mod Key
pub mod Wire
use alertsnitch.Base.{
  ℕ, Bool, true, false, Option, none, some, List, [], ◌∷◌, ◌++◌, String, Labels, Time, Result, ok,
  err, message, wrap, ◌>>=◌, context, ◌==◌, if◌then◌else◌,
}
use alertsnitch.Base.Maps.{lookup, insert}
use alertsnitch.Alert.{Alert, AlertGroup}
use alertsnitch.Labels.{is_empty, build_stream_labels, build_alert_metadata}
use alertsnitch.Timestamps.{Row, Stream, ensure_monotonic}

-- One alert with the context of its group: the shape of a log line.
pub record FlattenAlertGroup : Type 0 where
  pub version : String
  pub group_key : String
  pub receiver : String
  pub status : String
  pub alert : Alert
  pub group_labels : Labels
  pub common_labels : Labels
  pub common_annotations : Labels
  pub external_url : String

-- What of `Client` the conversion reads, and json.Marshal of a log line.
pub record Converter : Type 0 where
  pub allowed_labels : List (String × Bool)
  pub structured_metadata : Bool
  pub marshal_line : FlattenAlertGroup → Result String

-- byStatus[status] = append(byStatus[status], alert)
unfoldable pub add_alert : Alert → List (String × List Alert) → List (String × List Alert)
unfolding lookup insert
add_alert a by_status = elim (lookup a.status by_status) [
  | none ↦ insert a.status (a ∷ []) by_status
  | some alerts ↦ insert a.status (alerts ++ a ∷ []) by_status
]

-- `groupAlertsByStatus`
unfoldable pub group_from : List Alert → List (String × List Alert) → List (String × List Alert)
unfolding add_alert
group_from [] by_status = by_status
group_from (a ∷ alerts) by_status = group_from alerts (add_alert a by_status)

unfoldable pub group_alerts_by_status : List Alert → List (String × List Alert)
unfolding group_from
group_alerts_by_status alerts = group_from alerts []

unfoldable pub flatten_alert : AlertGroup → Alert → FlattenAlertGroup
flatten_alert g a = record {
  version = g.version;
  group_key = g.group_key;
  receiver = g.receiver;
  status = g.status;
  alert = a;
  group_labels = g.group_labels;
  common_labels = g.common_labels;
  common_annotations = g.common_annotations;
  external_url = g.external_url;
}

-- The entry of one alert.
unfoldable pub row_of : Converter → AlertGroup → Time → Alert → Result Row
unfolding flatten_alert build_alert_metadata
row_of c g received_at a = do
  line ← context "error marshaling FlattenAlertGroup" (c.marshal_line (flatten_alert g a))
  ok (record {
    at = received_at;
    val = line;
    meta = if c.structured_metadata then build_alert_metadata a else [];
  })

-- The loop of `createStreamForStatus`.
unfoldable pub rows_of : Converter → AlertGroup → Time → List Alert → Result (List Row)
unfolding row_of
rows_of c g received_at [] = ok []
rows_of c g received_at (a ∷ alerts) = do
  row ← row_of c g received_at a
  rows ← rows_of c g received_at alerts
  ok (row ∷ rows)

-- `createStreamForStatus`
unfoldable pub create_stream_for_status :
    Converter → String → List Alert → AlertGroup → Labels → Time → Result Stream
unfolding insert rows_of
create_stream_for_status c status alerts g base_labels received_at = do
  rows ← rows_of c g received_at alerts
  ok (record { labels = insert "alert_status" status base_labels; values = ensure_monotonic rows })

-- The loop of `dataToStream` over the statuses, in the map's order.
unfoldable pub streams_of :
    Converter → AlertGroup → Labels → Time → List (String × List Alert) → Result (List Stream)
unfolding create_stream_for_status
streams_of c g base_labels received_at [] = ok []
streams_of c g base_labels received_at ((status, alerts) ∷ rest) = do
  s ← create_stream_for_status c status alerts g base_labels received_at
  streams ← streams_of c g base_labels received_at rest
  ok (s ∷ streams)

-- `dataToStream`; `now` is the time that the clock would give.
unfoldable pub data_to_stream : Converter → Time → AlertGroup → Labels → Time → Result (List Stream)
unfolding group_alerts_by_status streams_of build_stream_labels
data_to_stream c now g extra_labels received_at =
    if is_empty g.alerts
    then err (message "no alerts to process")
    else streams_of c g (build_stream_labels c.allowed_labels g extra_labels)
        (if received_at == 0 then now else received_at) (group_alerts_by_status g.alerts)
