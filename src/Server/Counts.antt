-- ===== src/Server/Counts.antt =====
-- The alerts that `webhookPost` (internal/server/server.go) takes in against those that a backend counts.
use text.Mathlib.Text.{◌==◌ as str_eq}
use alertsnitch.Base.{
  ℕ, ◌+◌, ◌≡◌, refl, inl, inr, ◌&&◌, not, Option, none, some, List, [], String, Bytes, Labels, Time,
  Result, Error, if◌then◌else◌, length, arith, Bool-cases, Option-cases, Result-cases,
}
use alertsnitch.Alert.{AlertGroup}
use alertsnitch.Timestamps.{Stream}
use alertsnitch.Stream.{Converter, data_to_stream}
use alertsnitch.Metrics.{accounted, add, record_save_outcome, accounted-record_save_outcome}
use alertsnitch.Server.{
  World, Save, Request, receive, accept_group, webhook_post, save_null, save_loki, refuse,
  query_labels,
}

-- The alerts of a group under a receiver and a status.
abbrev pub counted : AlertGroup → String → String → ℕ
counted g r s = if str_eq g.receiver r && str_eq g.status s then length g.alerts else 0

-- What the server relies on of a backend: a save that returns accounts for the group's alerts once,
-- whether it succeeds or not, and leaves the count of received alerts alone.
pub record Accounts {B : Type 0} (save : Save B) : Type 0 where
  pub once :
      (g : AlertGroup) (l : Labels) (w : World B) (r s : String)
      → accounted (save g l w).1.metrics r s ≡ accounted w.metrics r s + counted g r s
  pub received :
      (g : AlertGroup) (l : Labels) (w : World B) (r s : String)
      → (save g l w).1.metrics.alerts_received r s ≡ w.metrics.alerts_received r s

pub received-record_save_outcome :
    (receiver status r s : String) (n : ℕ) (e : Option Error) (m : _)
    → (record_save_outcome receiver status n e m).alerts_received r s ≡ m.alerts_received r s
unfolding record_save_outcome
received-record_save_outcome receiver status r s n none m = ground arith
received-record_save_outcome receiver status r s n (some e) m = ground arith

-- The null backend accounts for what it is given.
pub save_null-Accounts : {B : Type 0} → Accounts (save_null {B = B})
unfolding save_null
save_null-Accounts = record {
  once = λ g l w r s. ground (
    arith,
    accounted-record_save_outcome g.receiver g.status r s (length g.alerts) none w.metrics,
  );
  received = λ g l w r s.
      received-record_save_outcome g.receiver g.status r s (length g.alerts) none w.metrics;
}

-- A Loki client without batches accounts for what it is given, whether the conversion fails, the
-- push fails, or neither.
pub save_loki-Accounts :
    {B : Type 0} (c : Converter) (push : List Stream → Option Error) (received_at now : Time)
    → Accounts (save_loki {B = B} c push received_at now)
unfolding save_loki
save_loki-Accounts c push received_at now = record {
  once = λ g l w r s. elim (Result-cases (data_to_stream c now g l received_at)) [
    | inl (streams, e) ↦
        rw (e, save_loki)
          (ground (
            arith,
            accounted-record_save_outcome g.receiver g.status r s (length g.alerts) (push streams)
                w.metrics,
          ))
    | inr (x, e) ↦
        rw (e, save_loki)
          (ground (
            arith,
            accounted-record_save_outcome g.receiver g.status r s (length g.alerts) (some x)
                w.metrics,
          ))
  ];
  received = λ g l w r s. elim (Result-cases (data_to_stream c now g l received_at)) [
    | inl (streams, e) ↦
        rw (e, save_loki)
          (received-record_save_outcome g.receiver g.status r s (length g.alerts) (push streams)
            w.metrics)
    | inr (x, e) ↦
        rw (e, save_loki)
          (received-record_save_outcome g.receiver g.status r s (length g.alerts) (some x)
            w.metrics)
  ];
}

-- The alerts received and those accounted for grow alike.
abbrev pub InStep : {B : Type 0} → String → String → World B → World B → Type 0
InStep r s w w' =
    accounted w'.metrics r s + w.metrics.alerts_received r s
    ≡ accounted w.metrics r s + w'.metrics.alerts_received r s

module _ {B : Type 0} {save : Save B} (law : Accounts save) (r s : String) where
  received-receive :
      (g : AlertGroup) (w : World B)
      → (receive g w).metrics.alerts_received r s ≡ w.metrics.alerts_received r s + counted g r s
  unfolding receive add
  received-receive g w = ground arith

  accounted-receive :
      (g : AlertGroup) (w : World B) → accounted (receive g w).metrics r s ≡ accounted w.metrics r s
  unfolding receive accounted
  accounted-receive g w = refl

  abbrev noticed : World B → World B
  noticed w = record w {
    metrics = record w.metrics { webhooks_received = w.metrics.webhooks_received + 1 };
  }

  refuse-InStep : (w : World B) → InStep r s w (refuse w).1
  unfolding accounted
  refuse-InStep w = refl

  accept_group-InStep :
      (q : Request) (g : AlertGroup) (w : World B) → InStep r s w (accept_group save q g w).1
  unfolding accept_group
  accept_group-InStep q g w = elim (Bool-cases (not (str_eq g.version "4"))) [
    | inl e ↦ rw (e, accept_group) (refuse-InStep w)
    | inr e ↦
        let after = save g (query_labels q.query []) (receive g w) in
        let kept : InStep r s w after.1 = omega (
          arith,
          law.once g (query_labels q.query []) (receive g w) r s,
          law.received g (query_labels q.query []) (receive g w) r s,
          received-receive g w,
          accounted-receive g w,
        ) in
        rw (e, accept_group)
          (elim (Option-cases after.0) [
            | inl fine ↦ rw fine kept
            | inr (x, failed) ↦ rw failed kept
          ])
  ]

  -- With any backend that accounts for what it is given, a webhook call, whatever its body and its
  -- outcome, adds to the alerts received exactly what it adds to the alerts accounted for.
  pub webhook_post-InStep :
      (parse : Bytes → Result AlertGroup) (q : Request) (w : World B)
      → InStep r s w (webhook_post parse save q w).1
  unfolding webhook_post accounted
  webhook_post-InStep parse q w = elim (Result-cases q.body) [
    | inr (x, e) ↦ rw (e, webhook_post) (refuse-InStep (noticed w))
    | inl (body, e) ↦
        rw (e, webhook_post)
          (elim (Result-cases (parse body)) [
            | inr (x, failed) ↦ rw failed (refuse-InStep (noticed w))
            | inl (g, fine) ↦ rw fine (accept_group-InStep q g (noticed w))
          ])
  ]
