-- ===== src/Batch/Enqueue.antt =====
-- The entry of an alert into the pipeline (`enqueue` and `replay` of internal/storage/loki/batch.go).
use alertsnitch.Base.{
  ℕ, zero, suc, ◌≡◌, sym, ◌∙◌, append-nil, append_assoc, take, Option, none, some, List, [], ◌∷◌,
  ◌++◌, map, ok, err, Error, message, wrap,
}
use alertsnitch.Wal.{WalRecord, Store}
use alertsnitch.Wal.Ops.{AppendIo, append}
use alertsnitch.Batch.{QueuedAlert}
use alertsnitch.Batch.Flush.{FlushEnv, Processor, ack_batch, record_outcome}

abbrev pub queue_full : Error
queue_full = message "loki alert queue is full"

-- Which case a `select` takes: the queue had room, the caller's context ended, or neither (the timer
-- of the first `select`, the default of the second).
pub data Selected : Type 0 where
  sent : Selected
  cancelled : Error → Selected
  neither : Selected

-- The queue and the state around it.
pub record Pipeline : Type 0 where
  pub queue : List QueuedAlert
  pub processor : Processor

abbrev pub send : QueuedAlert → Pipeline → Pipeline
send qa p = record p { queue = p.queue ++ qa ∷ [] }

-- `enqueue` from the second `select` on.
unfoldable pub offer_again : FlushEnv → Selected → QueuedAlert → Pipeline → Option Error × Pipeline
offer_again env sent qa p = (none, send qa p)
offer_again env (cancelled e) qa p = (some e, p)
offer_again env neither qa p = (
  some queue_full,
  record p {
    processor = ack_batch env (qa ∷ []) (record p.processor {
      metrics = record_outcome qa.group (some queue_full) p.processor.metrics;
    });
  },
)

-- `enqueue` from the first `select` on.
unfoldable pub offer_queue :
    FlushEnv → Selected → Selected → QueuedAlert → Pipeline → Option Error × Pipeline
unfolding offer_again
offer_queue env sent second qa p = (none, send qa p)
offer_queue env (cancelled e) second qa p = (some e, p)
offer_queue env neither second qa p = offer_again env second qa p

abbrev pub with_wal : Store → Pipeline → Pipeline
with_wal w p = record p { processor = record p.processor { wal = some w } }

-- `enqueue`
unfoldable pub enqueue :
    FlushEnv → AppendIo → Selected → Selected → QueuedAlert → Pipeline → Option Error × Pipeline
unfolding offer_queue
enqueue env io first second qa p = elim p.processor.wal [
  | none ↦ offer_queue env first second qa p
  | some w ↦
      let (result, w') = append env.codec io qa.group qa.extra_labels qa.received_at w in
      elim result [
        | err e ↦ (
          some (wrap "loki wal append" e),
          record p {
            processor = record {
              metrics = record_outcome qa.group (some e) p.processor.metrics;
              wal = some w';
            };
          },
        )
        | ok seq ↦ offer_queue env first second (record qa { seq = seq }) (with_wal w' p)
      ]
]

-- `replay`: the records are sent in order until the stop signal is taken instead; `taken` says how
-- often the queue was taken before it.
unfoldable pub replay : ℕ → List WalRecord → Pipeline → Pipeline
replay taken [] p = p
replay zero (rec ∷ records) p = p
replay (suc taken) (rec ∷ records) p = replay taken records (
    send
      (record {
        group = rec.group;
        extra_labels = rec.extra_labels;
        received_at = rec.received_at;
        seq = rec.seq;
      })
      p)

-- The alert that a replay sends for a record.
abbrev pub requeued : WalRecord → QueuedAlert
requeued rec = record {
  group = rec.group;
  extra_labels = rec.extra_labels;
  received_at = rec.received_at;
  seq = rec.seq;
}

-- A replay sends, in order and under their own numbers and times, as many of the records as the queue
-- is taken before the stop signal, behind what is queued already.
pub queue-replay :
    (taken : ℕ) (records : List WalRecord) (p : Pipeline)
    → (replay taken records p).queue ≡ p.queue ++ map requeued (take taken records)
unfolding replay
queue-replay zero [] p = sym (append-nil p.queue)
queue-replay (suc taken) [] p = sym (append-nil p.queue)
queue-replay zero (rec ∷ records) p = sym (append-nil p.queue)
queue-replay (suc taken) (rec ∷ records) p =
    queue-replay taken records (send (requeued rec) p)
    ∙ append_assoc p.queue (requeued rec ∷ []) (map requeued (take taken records))
