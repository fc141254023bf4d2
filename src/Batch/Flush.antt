-- ===== src/Batch/Flush.antt =====
-- `flush` and `ackBatch` of internal/storage/loki/batch.go, and what a flush counts.
use text.Mathlib.Text.{◌==◌ as str_eq}
use alertsnitch.Base.{
  ℕ, ◌+◌, ◌≡◌, refl, ◌∙◌, inl, inr, ◌&&◌, Option, none, some, List, [], ◌∷◌, arith, String, Labels,
  Time, ok, err, Error, ℤ, ◌==◌, if◌then◌else◌, length, Option-cases, Result-cases,
}
use alertsnitch.Alert.{AlertGroup}
use alertsnitch.Labels.{is_empty}
use alertsnitch.Stream.{Converter, data_to_stream}
use alertsnitch.Metrics.{Metrics, record_save_outcome, accounted, accounted-record_save_outcome}
use alertsnitch.Wal.{Codec, Store}
use alertsnitch.Wal.Ops.{AckIo, ack}
use alertsnitch.Batch.{QueuedAlert, ConvertedGroup, Attempt, deliver, merge_streams}

-- What a flush has from the client and the world: the conversion, the clock when an alert is
-- converted, `streamKey`, the attempts of `deliver`, and the system calls of the acknowledgement.
pub record FlushEnv : Type 0 where
  pub converter : Converter
  pub now : QueuedAlert → Time
  pub key : Labels → String
  pub max_retries : ℤ
  pub attempts : ℕ → Attempt
  pub codec : Codec
  pub ack_io : AckIo

-- The state that a flush changes: the counters, and the log if there is one.
pub record Processor : Type 0 where
  pub metrics : Metrics
  pub wal : Option Store

-- recordOutcome for a group
unfoldable pub record_outcome : AlertGroup → Option Error → Metrics → Metrics
record_outcome g e m = record_save_outcome g.receiver g.status (length g.alerts) e m

-- The loop that converts each group by itself.
unfoldable pub convert_all : FlushEnv → List QueuedAlert → Metrics → List ConvertedGroup × Metrics
convert_all env [] m = ([], m)
convert_all env (qa ∷ batch) m =
    elim (data_to_stream env.converter (env.now qa) qa.group qa.extra_labels qa.received_at) [
      | err e ↦ convert_all env batch (record_outcome qa.group (some e) m)
      | ok streams ↦
          let (ready, m') = convert_all env batch m in
          (record { qa = qa; streams = streams } ∷ ready, m')
    ]

-- The loop that records the outcome of the delivery for each converted group.
unfoldable pub record_all : List ConvertedGroup → Option Error → Metrics → Metrics
record_all [] e m = m
record_all (g ∷ ready) e m = record_all ready e (record_outcome g.qa.group e m)

-- The sequence numbers of a batch; 0 is no number.
unfoldable pub seqs_of : List QueuedAlert → List ℕ
seqs_of [] = []
seqs_of (qa ∷ batch) = let rest = seqs_of batch in if qa.seq == 0 then rest else qa.seq ∷ rest

-- `ackBatch`; an error is only logged.
unfoldable pub ack_batch : FlushEnv → List QueuedAlert → Processor → Processor
unfolding seqs_of
ack_batch env batch p = elim p.wal [
  | none ↦ p
  | some w ↦ record p { wal = some (ack env.codec env.ack_io (seqs_of batch) w).1 }
]

-- `flush` before its deferred acknowledgement.
unfoldable pub flush_batch : FlushEnv → List QueuedAlert → Metrics → Metrics
flush_batch env batch m =
    let (ready, m') = convert_all env batch m in
    if is_empty ready
    then m'
    else record_all ready (deliver env.max_retries env.attempts (merge_streams env.key ready)) m'

-- `flush`
unfoldable pub flush : FlushEnv → List QueuedAlert → Processor → Processor
flush env batch p =
    if is_empty batch
    then p
    else ack_batch env batch (record p { metrics = flush_batch env batch p.metrics })

-- The alerts of a batch that count for a receiver and a status.
abbrev pub alerts_for : String → String → List QueuedAlert → ℕ
alerts_for r s [] = 0
alerts_for r s (qa ∷ batch) =
    (if str_eq qa.group.receiver r && str_eq qa.group.status s then length qa.group.alerts else 0)
    + alerts_for r s batch

abbrev queued : List ConvertedGroup → List QueuedAlert
queued [] = []
queued (g ∷ ready) = g.qa ∷ queued ready

module _ (r s : String) where
  pub accounted-record_outcome :
      (g : AlertGroup) (e : Option Error) (m : Metrics)
      → accounted (record_outcome g e m) r s
        ≡ (if str_eq g.receiver r && str_eq g.status s then length g.alerts else 0)
          + accounted m r s
  unfolding record_outcome
  accounted-record_outcome g e m =
      ground (arith, accounted-record_save_outcome g.receiver g.status r s (length g.alerts) e m)

  accounted-record_all :
      (ready : List ConvertedGroup) (e : Option Error) (m : Metrics)
      → accounted (record_all ready e m) r s ≡ alerts_for r s (queued ready) + accounted m r s
  unfolding record_all
  accounted-record_all [] e m = omega arith
  accounted-record_all (g ∷ ready) e m = omega (
    arith,
    accounted-record_all ready e (record_outcome g.qa.group e m),
    accounted-record_outcome g.qa.group e m,
  )

  accounted-convert_all :
      (env : FlushEnv) (batch : List QueuedAlert) (m : Metrics)
      → accounted (convert_all env batch m).1 r s
          + alerts_for r s (queued (convert_all env batch m).0)
        ≡ accounted m r s + alerts_for r s batch
  unfolding convert_all
  accounted-convert_all env [] m = refl
  accounted-convert_all env (qa ∷ batch) m =
      elim (Result-cases
        (data_to_stream env.converter (env.now qa) qa.group qa.extra_labels qa.received_at)) [
          | inr (e, failed) ↦
              rw (failed, convert_all, alerts_for, queued)
                (omega (
                  arith,
                  accounted-convert_all env batch (record_outcome qa.group (some e) m),
                  accounted-record_outcome qa.group (some e) m,
                ))
          | inl (streams, fine) ↦
              rw (fine, convert_all, alerts_for, queued)
                (omega (arith, accounted-convert_all env batch m))
        ]

  pub accounted-flush_batch :
      (env : FlushEnv) (batch : List QueuedAlert) (m : Metrics)
      → accounted (flush_batch env batch m) r s ≡ accounted m r s + alerts_for r s batch
  unfolding flush_batch
  accounted-flush_batch env batch m =
      by_ready (convert_all env batch m).0 (convert_all env batch m).1
        (accounted-convert_all env batch m)
    where
      by_ready :
          (ready : List ConvertedGroup) (m' : Metrics)
          → accounted m' r s + alerts_for r s (queued ready)
            ≡ accounted m r s + alerts_for r s batch
          → accounted
              (if is_empty ready
                then m'
                else record_all ready
                    (deliver env.max_retries env.attempts (merge_streams env.key ready))
                    m')
              r
              s
            ≡ accounted m r s + alerts_for r s batch
      by_ready [] m' h = omega arith
      by_ready (g ∷ ready) m' h = omega (
        arith,
        accounted-record_all (g ∷ ready)
            (deliver env.max_retries env.attempts (merge_streams env.key (g ∷ ready))) m',
      )

  pub accounted-ack_batch :
      (env : FlushEnv) (batch : List QueuedAlert) (p : Processor)
      → accounted (ack_batch env batch p).metrics r s ≡ accounted p.metrics r s
  unfolding ack_batch
  accounted-ack_batch env batch p = elim (Option-cases p.wal) [
    | inl e ↦ rw (e, ack_batch)
    | inr (w, e) ↦ rw (e, ack_batch)
  ]

  -- Whatever the conversions and the pushes do, a flush counts every alert of its batch exactly once,
  -- as saved or as failed, under the receiver and status of its group, and counts nothing else.
  pub accounted-flush :
      (env : FlushEnv) (batch : List QueuedAlert) (p : Processor)
      → accounted (flush env batch p).metrics r s ≡ accounted p.metrics r s + alerts_for r s batch
  unfolding flush
  accounted-flush env [] p = omega arith
  accounted-flush env (qa ∷ batch) p =
      accounted-ack_batch env (qa ∷ batch)
        (record p { metrics = flush_batch env (qa ∷ batch) p.metrics })
      ∙ accounted-flush_batch env (qa ∷ batch) p.metrics
