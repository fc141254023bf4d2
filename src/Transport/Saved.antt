-- ===== src/Transport/Saved.antt =====
-- A save that pushes at once (`Save` of internal/storage/loki/client.go without batches, `pushPayload` of
-- transport.go).
use mathlib.Core.Path.{subst}
use text.Mathlib.TextEquality.{eq_iff}
use alertsnitch.Base.{
  length, Time, Labels, ◌+◌, ℕ, ◌≡◌, ◌↔◌, refl, inl, inr, Option, none, some, List, String, Result,
  ok, err, Error, arith, Result-cases,
}
use alertsnitch.Timestamps.{Stream}
use alertsnitch.Config.{AuthConfig}
use alertsnitch.Alert.{AlertGroup}
use alertsnitch.Stream.{Converter, data_to_stream}
use alertsnitch.Metrics.{Metrics, record_save_outcome, add}
use alertsnitch.Server.{save_loki, World}
use alertsnitch.Transport.{Http, push_payload, error_of}
use alertsnitch.Transport.Sent.{Pushed, push_payload_iff}

-- What a save adds to the count of saved alerts.
abbrev pub saved_by : Option Error → ℕ → ℕ
saved_by none n = n
saved_by (some e) n = 0

alerts_saved-record_save_outcome :
    (receiver status : String) (n : ℕ) (e : Option Error) (m : Metrics)
    → (record_save_outcome receiver status n e m).alerts_saved receiver status
      ≡ m.alerts_saved receiver status + saved_by e n
unfolding record_save_outcome add
alerts_saved-record_save_outcome receiver status n none m =
    ground (arith, eq_iff receiver receiver, eq_iff status status)
alerts_saved-record_save_outcome receiver status n (some e) m = ground arith

save_loki-saved :
    {B : Type 0} (c : Converter) (push : List Stream → Option Error) (received_at now : Time)
    (g : AlertGroup) (extra_labels : Labels) (w : World B)
    → let r = save_loki c push received_at now g extra_labels w in
      r.1.metrics.alerts_saved g.receiver g.status
      ≡ w.metrics.alerts_saved g.receiver g.status + saved_by r.0 (length g.alerts)
unfolding save_loki
save_loki-saved c push received_at now g extra_labels w =
    elim (Result-cases (data_to_stream c now g extra_labels received_at)) [
      | inl (streams, e) ↦
          rw (e, save_loki)
            (alerts_saved-record_save_outcome g.receiver g.status (length g.alerts) (push streams)
              w.metrics)
      | inr (x, e) ↦
          rw (e, save_loki)
            (alerts_saved-record_save_outcome g.receiver g.status (length g.alerts) (some x)
              w.metrics)
    ]

save_loki-pushes :
    {B : Type 0} (c : Converter) (push : List Stream → Option Error) (received_at now : Time)
    (g : AlertGroup) (extra_labels : Labels) (w : World B)
    → ((save_loki c push received_at now g extra_labels w).0 ≡ none) ↔ (
        (streams : List Stream) × (data_to_stream c now g extra_labels received_at ≡ ok streams)
        × (push streams ≡ none))
unfolding save_loki
save_loki-pushes c push received_at now g extra_labels w =
    elim (Result-cases (data_to_stream c now g extra_labels received_at)) [
      | inl (streams, e) ↦
          rw (e, save_loki)
            (
              λ n. (streams, refl, n),
              λ (other, same, n).
                  (let path : other ≡ streams = cc (same) in subst (λ s. push s ≡ none) path n),
            )
      | inr (x, e) ↦
          rw (e, save_loki) (λ n. absurd (cc (n)), λ (other, same, n). absurd (cc (same)))
    ]

module _ (h : Http) (auth : AuthConfig) where
  error_of-none : (r : Result (Unit {0})) → (error_of r ≡ none) ↔ (r ≡ ok tt)
  error_of-none (ok u) = (λ e. refl, λ e. refl)
  error_of-none (err x) = (λ e. absurd (cc (e)), λ e. absurd (cc (e)))

  -- A client without batches returns no error exactly when the group could be converted and Loki has
  -- accepted the push of its streams, and exactly then it counts the alerts as saved.
  pub save_loki_iff :
      {B : Type 0} (c : Converter) (received_at now : Time) (g : AlertGroup) (extra_labels : Labels)
      (w : World B)
      → let push : List Stream → Option Error = λ streams. error_of (push_payload h auth streams) in
        let r = save_loki c push received_at now g extra_labels w in
        ((r.0 ≡ none) ↔ (
          (streams : List Stream) × (data_to_stream c now g extra_labels received_at ≡ ok streams)
          × Pushed h auth streams))
        × (r.1.metrics.alerts_saved g.receiver g.status
            ≡ w.metrics.alerts_saved g.receiver g.status + saved_by r.0 (length g.alerts))
  save_loki_iff c received_at now g extra_labels w =
      let push : List Stream → Option Error = λ streams. error_of (push_payload h auth streams) in
      let (there, back) = save_loki-pushes c push received_at now g extra_labels w in
      (
        (
          λ n.
              (let (streams, e, p) = there n in
                (
                  streams,
                  e,
                  (push_payload_iff h auth streams).0
                      ((error_of-none (push_payload h auth streams)).0 p),
                )),
          λ (streams, e, p). back (
            streams,
            e,
            (error_of-none (push_payload h auth streams)).1 ((push_payload_iff h auth streams).1 p),
          ),
        ),
        save_loki-saved c push received_at now g extra_labels w,
      )
