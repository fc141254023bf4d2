-- ===== src/Stream/Build.antt =====
-- The streams of `dataToStream` (internal/storage/loki/stream.go) and their entries.
use mathlib.Core.Path.{subst}
use mathlib.Core.List.{Perm, perm_append_comm, perm_middle, map-append}
use mathlib.Core.List.Perm
use alertsnitch.Base.{
  ◌≡◌, ◌≢◌, refl, ap, inl, inr, false, List, [], ◌∷◌, ◌++◌, append-nil, map, String, Labels, Time,
  Result, ok, ◌==◌, if◌then◌else◌, All, Option-cases,
}
use alertsnitch.Base.Maps.{lookup, insert}
use alertsnitch.Base.Maps.Gather.{gather, gather-insert_new, gather-insert_more}
use alertsnitch.Alert.{Alert, AlertGroup}
use alertsnitch.Labels.{is_empty, build_stream_labels, build_alert_metadata}
use alertsnitch.Timestamps.{Row, Stream, ensure_monotonic}
use alertsnitch.Timestamps.Order.{
  Increasing, payload, ensure_monotonic-Increasing, ensure_monotonic-perm,
}
use alertsnitch.Stream.{
  FlattenAlertGroup, Converter, add_alert, group_from, group_alerts_by_status, flatten_alert,
  rows_of, create_stream_for_status, streams_of, data_to_stream,
}

-- The alerts of the groups, group by group.
abbrev pub grouped : List (String × List Alert) → List Alert
grouped = gather (λ alerts. alerts)

-- What the entries of the streams carry, stream by stream.
abbrev pub entries : List Stream → List (String × Labels)
entries [] = []
entries (s ∷ streams) = map payload s.values ++ entries streams

add_alert-perm :
    (a : Alert) (m : List (String × List Alert)) → Perm (grouped (add_alert a m)) (a ∷ grouped m)
unfolding add_alert
add_alert-perm a m = elim (Option-cases (lookup a.status m)) [
  | inl e ↦ rw (e, add_alert) (gather-insert_new (λ alerts. alerts) a.status (a ∷ []) m e)
  | inr (old, e) ↦
      rw (e, add_alert)
        (gather-insert_more (λ alerts. alerts) a.status old (old ++ a ∷ []) (a ∷ []) m e
          (perm_append_comm old (a ∷ [])))
]

group_from-perm :
    (alerts : List Alert) (m : List (String × List Alert))
    → Perm (grouped (group_from alerts m)) (alerts ++ grouped m)
unfolding group_from
group_from-perm [] m = Perm.refl (grouped m)
group_from-perm (a ∷ alerts) m = Perm.trans (group_from-perm alerts (add_alert a m)) (
    Perm.trans (Perm.append (Perm.refl alerts) (add_alert-perm a m))
      (perm_middle alerts (grouped m)))

-- Grouping by status keeps every alert, once.
pub group_alerts_by_status-perm :
    (alerts : List Alert) → Perm (grouped (group_alerts_by_status alerts)) alerts
unfolding group_alerts_by_status
group_alerts_by_status-perm alerts =
    subst (Perm (grouped (group_from alerts []))) (append-nil alerts) (group_from-perm alerts [])

is_empty-false : (alerts : List Alert) → alerts ≢ [] → is_empty alerts ≡ false
is_empty-false [] h = absurd (h refl)
is_empty-false (a ∷ alerts) h = refl

-- The conversion of a client whose log lines all marshal, to the texts `line`.
module _ (c : Converter) (line : FlattenAlertGroup → String)
    (marshals : (f : FlattenAlertGroup) → c.marshal_line f ≡ ok (line f)) (g : AlertGroup) where
  -- What the entry of an alert carries.
  abbrev pub carried : Alert → String × Labels
  carried a =
      (line (flatten_alert g a), if c.structured_metadata then build_alert_metadata a else [])

  abbrev pub row_for : Time → Alert → Row
  row_for t a = record { at = t; val = (carried a).0; meta = (carried a).1 }

  rows_of-total :
      (t : Time) (alerts : List Alert) → rows_of c g t alerts ≡ ok (map (row_for t) alerts)
  unfolding rows_of
  rows_of-total t [] = refl
  rows_of-total t (a ∷ alerts) = rw (marshals (flatten_alert g a)) (rw (rows_of-total t alerts))

  payload-rows :
      (t : Time) (alerts : List Alert) → map payload (map (row_for t) alerts) ≡ map carried alerts
  payload-rows t [] = refl
  payload-rows t (a ∷ alerts) = ap (λ xs. carried a ∷ xs) (payload-rows t alerts)

  abbrev stream_for : Labels → Time → String → List Alert → Stream
  stream_for base t status alerts = record {
    labels = insert "alert_status" status base;
    values = ensure_monotonic (map (row_for t) alerts);
  }

  -- The streams of the groups, and that they carry what the alerts of the groups are to carry.
  record Converts (base : Labels) (t : Time) (groups : List (String × List Alert)) : Type 0 where
    streams : List Stream
    converts : streams_of c g base t groups ≡ ok streams
    carry : Perm (entries streams) (map carried (grouped groups))
    ordered : All (λ s. Increasing s.values) streams

  streams_of-Converts :
      (base : Labels) (t : Time) (groups : List (String × List Alert)) → Converts base t groups
  unfolding streams_of create_stream_for_status
  streams_of-Converts base t [] = record {
    streams = [];
    converts = refl;
    carry = Perm.refl [];
    ordered = tt;
  }
  streams_of-Converts base t ((status, alerts) ∷ rest) =
      let r = streams_of-Converts base t rest in
      record {
        streams = stream_for base t status alerts ∷ r.streams;
        converts = rw (rows_of-total t alerts) (rw r.converts);
        carry = rw map-append (
            Perm.append
              (subst (Perm (map payload (ensure_monotonic (map (row_for t) alerts))))
                (payload-rows t alerts) (ensure_monotonic-perm (map (row_for t) alerts)))
              r.carry);
        ordered = (ensure_monotonic-Increasing (map (row_for t) alerts), r.ordered);
      }

  -- The streams that a conversion returns: they carry what the alerts of the group are to carry,
  -- once each, and each is strictly increasing in time.
  pub record Delivers (result : Result (List Stream)) : Type 0 where
    pub streams : List Stream
    pub converts : result ≡ ok streams
    pub carry : Perm (entries streams) (map carried g.alerts)
    pub ordered : All (λ s. Increasing s.values) streams

  -- A group with alerts, whose log lines marshal, converts: every alert gives exactly one entry, its
  -- line and its metadata, in some stream, and every stream is strictly increasing in time.
  pub data_to_stream-Delivers :
      (now : Time) (extra_labels : Labels) (t : Time)
      → g.alerts ≢ []
      → Delivers (data_to_stream c now g extra_labels t)
  unfolding data_to_stream
  data_to_stream-Delivers now extra_labels t h =
      let r =
        streams_of-Converts (build_stream_labels c.allowed_labels g extra_labels)
          (if t == 0 then now else t) (group_alerts_by_status g.alerts) in
      rw (is_empty-false g.alerts h, data_to_stream)
        (record {
          streams = r.streams;
          converts = r.converts;
          carry = Perm.trans r.carry (Perm.map carried (group_alerts_by_status-perm g.alerts));
          ordered = r.ordered;
        })
