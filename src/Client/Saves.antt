-- ===== src/Client/Saves.antt =====
-- `Save` of a Loki client with and without batches (internal/storage/loki/client.go).
use mathlib.Core.Path.{subst}
use alertsnitch.Base.{
  ℕ, ◌+◌, ◌≡◌, ◌⊎◌, refl, sym, ap, inl, inr, Option, none, some, List, [], ◌∷◌, String, Labels,
  Time, Result, ok, err, Error, wrap, arith, Result-cases,
}
use alertsnitch.Alert.{AlertGroup}
use alertsnitch.Timestamps.{Stream}
use alertsnitch.Stream.{Converter, FlattenAlertGroup, data_to_stream}
use alertsnitch.Metrics.{Metrics, accounted}
use alertsnitch.Wal.{Store}
use alertsnitch.Wal.Ops.{AppendIo, append}
use alertsnitch.Batch.{QueuedAlert}
use alertsnitch.Batch.Flush.{
  FlushEnv, alerts_for, record_outcome, accounted-record_outcome, accounted-ack_batch,
}
use alertsnitch.Batch.Enqueue.{
  Selected, sent, cancelled, neither, Pipeline, queue_full, send, enqueue, offer_queue, offer_again,
}
use alertsnitch.Batch.Run.{alerts_for-append}
use alertsnitch.Server.{Save, World, save_loki}
use alertsnitch.Server.Counts.{counted, save_loki-Accounts}
use alertsnitch.Client.{Client}

-- What a save meets: the clock twice, json.Marshal of a line, the push, the append to the log, and what
-- the two `select`s of `enqueue` take.
pub record SaveIo : Type 0 where
  pub received_at : Time
  pub now : Time
  pub marshal_line : FlattenAlertGroup → Result String
  pub push : List Stream → Option Error
  pub env : FlushEnv
  pub append_io : AppendIo
  pub first : Selected
  pub second : Selected

abbrev pub converter_of : SaveIo → Client → Converter
converter_of io c = record {
  allowed_labels = c.allowed_labels;
  structured_metadata = c.cfg.structured_metadata;
  marshal_line = io.marshal_line;
}

-- The group with the time at which it was received, before it has a number.
abbrev pub received : SaveIo → AlertGroup → Labels → QueuedAlert
received io g extra_labels = record {
  group = g;
  extra_labels = extra_labels;
  received_at = io.received_at;
  seq = 0;
}

-- `Save`; the counters are the program's, also those that the batch processor adds to.
unfoldable pub save_client : SaveIo → Save Client
unfolding enqueue save_loki
save_client io g extra_labels w = elim w.backend.batch [
  | none ↦ save_loki (converter_of io w.backend) io.push io.received_at io.now g extra_labels w
  | some p ↦
      let (e, p') =
        enqueue io.env io.append_io io.first io.second (received io g extra_labels)
          (record p { processor = record p.processor { metrics = w.metrics } }) in
      (e, record { metrics = p'.processor.metrics; backend = record w.backend { batch = some p' } })
]

abbrev pub queue_of : Option Pipeline → List QueuedAlert
queue_of none = []
queue_of (some p) = p.queue

backend-save_loki :
    {B : Type 0} (c : Converter) (push : List Stream → Option Error) (received_at now : Time)
    (g : AlertGroup) (l : Labels) (w : World B)
    → (save_loki c push received_at now g l w).1.backend ≡ w.backend
unfolding save_loki
backend-save_loki c push received_at now g l w =
    elim (Result-cases (data_to_stream c now g l received_at)) [
      | inl (streams, e) ↦ rw (e, save_loki) refl
      | inr (x, e) ↦ rw (e, save_loki) refl
    ]

module _ (r s : String) where
  -- Counted, or in the queue.
  abbrev pub kept : Pipeline → ℕ
  kept p = accounted p.processor.metrics r s + alerts_for r s p.queue

  -- The alert is kept, or its caller went away.
  abbrev pub KeptOr : Selected → Selected → AlertGroup → Pipeline → Option Error × Pipeline → Type 0
  KeptOr first second g p (e, p') =
      (kept p' ≡ kept p + counted g r s)
      ⊎ ((x : Error) × ((first ≡ cancelled x) ⊎ (second ≡ cancelled x))
          × (e ≡ some x)
          × (kept p' ≡ kept p))

  kept-send : (qa : QueuedAlert) (p : Pipeline) → kept (send qa p) ≡ kept p + counted qa.group r s
  kept-send qa p = omega (arith, alerts_for-append r s p.queue (qa ∷ []))

  KeptOr-offer_queue :
      (env : FlushEnv) (first second : Selected) (qa : QueuedAlert) (p : Pipeline)
      → KeptOr first second qa.group p (offer_queue env first second qa p)
  unfolding offer_queue offer_again
  KeptOr-offer_queue env sent second qa p = inl (kept-send qa p)
  KeptOr-offer_queue env (cancelled e) second qa p = inr (e, inl refl, refl, refl)
  KeptOr-offer_queue env neither sent qa p = inl (kept-send qa p)
  KeptOr-offer_queue env neither (cancelled e) qa p = inr (e, inr refl, refl, refl)
  KeptOr-offer_queue env neither neither qa p = inl (
      omega (
        arith,
        accounted-ack_batch r s env (qa ∷ []) (record p.processor {
          metrics = record_outcome qa.group (some queue_full) p.processor.metrics;
        }),
        accounted-record_outcome r s qa.group (some queue_full) p.processor.metrics,
      ))

  module _ (env : FlushEnv) (io : AppendIo) (first second : Selected) (qa : QueuedAlert) where
    abbrev pipeline : List QueuedAlert → Metrics → Option Store → Pipeline
    pipeline queue m wal = record { queue = queue; processor = record { metrics = m; wal = wal } }

    abbrev after : Store → Result ℕ × Store
    after w = append env.codec io qa.group qa.extra_labels qa.received_at w

    KeptOr-logged :
        (queue : List QueuedAlert) (m : Metrics) (w : Store) (result : Result ℕ)
        → (after w).0 ≡ result
        → KeptOr first second qa.group
            (pipeline queue m (some w))
            (enqueue env io first second qa (pipeline queue m (some w)))
    unfolding enqueue
    KeptOr-logged queue m w (err e) h =
        let goes : enqueue env io first second qa (pipeline queue m (some w)) ≡ (
          some (wrap "loki wal append" e),
          pipeline queue (record_outcome qa.group (some e) m) (some (after w).1),
        ) =
          rw (h, enqueue) refl in
        subst (KeptOr first second qa.group (pipeline queue m (some w))) (sym goes)
          (inl (omega (arith, accounted-record_outcome r s qa.group (some e) m)))
    KeptOr-logged queue m w (ok seq) h =
        let goes : enqueue env io first second qa (pipeline queue m (some w))
            ≡ offer_queue env first second (record qa { seq = seq })
                (pipeline queue m (some (after w).1)) =
          rw (h, enqueue) refl in
        subst (KeptOr first second qa.group (pipeline queue m (some w))) (sym goes) (
          KeptOr-offer_queue env first second (record qa { seq = seq })
            (pipeline queue m (some (after w).1)))

    KeptOr-enqueue :
        (queue : List QueuedAlert) (m : Metrics) (wal : Option Store)
        → KeptOr first second qa.group
            (pipeline queue m wal)
            (enqueue env io first second qa (pipeline queue m wal))
    unfolding enqueue
    KeptOr-enqueue queue m none = KeptOr-offer_queue env first second qa (pipeline queue m none)
    KeptOr-enqueue queue m (some w) = KeptOr-logged queue m w (after w).0 refl

  -- Counted by the program, or in the queue of the client.
  abbrev pub counted_or_queued : World Client → ℕ
  counted_or_queued w = accounted w.metrics r s + alerts_for r s (queue_of w.backend.batch)

  -- What a save does to what is counted or queued.
  abbrev pub CountsOr : SaveIo → AlertGroup → World Client → Option Error × World Client → Type 0
  CountsOr io g w (e, w') =
      (counted_or_queued w' ≡ counted_or_queued w + counted g r s)
      ⊎ ((x : Error) × ((io.first ≡ cancelled x) ⊎ (io.second ≡ cancelled x))
          × (e ≡ some x)
          × (counted_or_queued w' ≡ counted_or_queued w))

  CountsOr-batch :
      (io : SaveIo) (g : AlertGroup) (l : Labels) (c : Client) (m : Metrics)
      (batch : Option Pipeline)
      → CountsOr io g
          (record { metrics = m; backend = record c { batch = batch } })
          (save_client io g l (record { metrics = m; backend = record c { batch = batch } }))
  unfolding save_client
  CountsOr-batch io g l c m none =
      let w : World Client = record { metrics = m; backend = record c { batch = none } } in
      inl (
        omega (
          arith,
          (save_loki-Accounts (converter_of io (record c { batch = none })) io.push io.received_at
                io.now).once
              g l w r s,
          ap (λ b. alerts_for r s (queue_of b.batch))
              (backend-save_loki (converter_of io (record c { batch = none })) io.push
                io.received_at io.now g l w),
        ))
  CountsOr-batch io g l c m (some p) =
      KeptOr-enqueue io.env io.append_io io.first io.second (received io g l) p.queue m
        p.processor.wal

  -- Every alert of a group that is saved is counted at once, as saved or as failed, or waits in the queue
  -- to be counted by a flush, and none is counted twice. There is one exception: with batches, when a
  -- select takes the end of the caller's context, also where the queue has room, the caller gets its error
  -- and nothing is counted or queued.
  pub save_client-CountsOr :
      (io : SaveIo) (g : AlertGroup) (l : Labels) (w : World Client)
      → CountsOr io g w (save_client io g l w)
  save_client-CountsOr io g l w = CountsOr-batch io g l w.backend w.metrics w.backend.batch
