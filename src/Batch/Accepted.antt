-- ===== src/Batch/Accepted.antt =====
-- The states of queue and log that `enqueue` (internal/storage/loki/batch.go) leaves with the log on.
use mathlib.Core.Path.{subst}
use alertsnitch.Base.{
  ℕ, ◌+◌, ◌<◌, ◌≡◌, refl, sym, ◌∙◌, ap, inl, inr, Option, none, some, [], ◌∷◌, ◌++◌, arith, Result,
  ok, Error, wrap, u64_mod, inc_u64, Result-cases,
}
use alertsnitch.Wal.{WalRecord, CodecLaws, Store}
use alertsnitch.Wal.Durable.{IsWhole, record_of, append-Effect, Effect-number}
use alertsnitch.Wal.Recovery.{IsSound, Protects, Effect-Protects_new}
use alertsnitch.Wal.Recovery.Replay.{Reach, Reach-Protects}
use alertsnitch.Wal.Ops.{AppendIo, append}
use alertsnitch.Batch.{QueuedAlert}
use alertsnitch.Batch.Flush.{FlushEnv}
use alertsnitch.Batch.Enqueue.{
  Selected, sent, cancelled, neither, Pipeline, send, offer_queue, enqueue, with_wal,
}

-- An accepted alert: it stands last in the queue, under the next number of the log, and the log has
-- its record, not acknowledged.
pub record IsAccepted (env : FlushEnv) (w : Store) (qa : QueuedAlert) (p p' : Pipeline)
    : Type 0 where
  pub log : Store
  pub logged : p'.processor.wal ≡ some log
  pub protects :
      Protects env.codec
        (env.codec.stored (record_of w qa.group qa.extra_labels qa.received_at))
        log
  pub queued : p'.queue ≡ p.queue ++ record qa { seq = inc_u64 w.wal.seq } ∷ []

module _ (env : FlushEnv) (laws : CodecLaws env.codec) (io : AppendIo) (qa : QueuedAlert)
    (p : Pipeline) (w : Store) (whole : IsWhole io) (room : w.wal.seq + 1 < u64_mod)
    (sound : IsSound env.codec w) where
  abbrev pub after : Result ℕ × Store
  after = append env.codec io qa.group qa.extra_labels qa.received_at w

  sent_of_ok :
      (first second : Selected) (q : QueuedAlert) (x : Pipeline)
      → (offer_queue env first second q x).0 ≡ none
      → (offer_queue env first second q x).1 ≡ send q x
  unfolding offer_queue
  sent_of_ok sent second q x h = refl
  sent_of_ok (cancelled e) second q x h = absurd (ground arith)
  sent_of_ok neither sent q x h = refl
  sent_of_ok neither (cancelled e) q x h = absurd (ground arith)
  sent_of_ok neither neither q x h = absurd (ground arith)

  -- With the log on, satisfying its invariant with numbers below 2 ^ 64, and an append that tears no
  -- frame: when `enqueue` reports no error, the alert stands last in the queue, under the log's next
  -- number, and its record is in the log, not acknowledged.
  pub enqueue-IsAccepted :
      (first second : Selected)
      → p.processor.wal ≡ some w
      → (enqueue env io first second qa p).0 ≡ none
      → IsAccepted env w qa p (enqueue env io first second qa p).1
  unfolding enqueue
  enqueue-IsAccepted first second on h = elim (Result-cases after.0) [
    | inr (e, failed) ↦
        let wrong : (enqueue env io first second qa p).0 ≡ some (wrap "loki wal append" e) =
          rw (on, enqueue) (rw (failed, enqueue)) in
        absurd (cc (h, wrong))
    | inl (n, done) ↦
        let goes : enqueue env io first second qa p
            ≡ offer_queue env first second (record qa { seq = n }) (with_wal after.1 p) =
          rw (on, enqueue) (rw (done, enqueue)) in
        let final : (enqueue env io first second qa p).1
            ≡ send (record qa { seq = n }) (with_wal after.1 p) =
          ap (λ x. x.1) goes
          ∙ sent_of_ok first second (record qa { seq = n }) (with_wal after.1 p)
              (ap (λ x. x.0) (sym goes) ∙ h) in
        let number : n ≡ inc_u64 w.wal.seq =
          Effect-number
            (append-Effect laws io whole qa.group qa.extra_labels qa.received_at w sound.bound)
            done in
        rw final (record {
          log = after.1;
          logged = refl;
          protects =
              Effect-Protects_new laws n room refl done
                (append-Effect laws io whole qa.group qa.extra_labels qa.received_at w sound.bound)
                sound;
          queued = rw number refl;
        })
  ]

  -- What an `enqueue` leaves behind that takes the end of its caller's context: an error for
  -- the caller, no alert in the queue, and a record that stays in the log, not acknowledged, and holds
  -- the checkpoint below its number over all later calls, so long as none acknowledges it.
  pub record Orphans (e : Error) (after_enqueue : Option Error × Pipeline) : Type 0 where
    pub log : Store
    pub logged : after_enqueue.1.processor.wal ≡ some log
    pub refused : after_enqueue.0 ≡ some e
    pub not_queued : after_enqueue.1.queue ≡ p.queue
    pub stays :
        {t : Store}
        → Reach env.codec (inc_u64 w.wal.seq) log t
        → Protects env.codec
            (env.codec.stored (record_of w qa.group qa.extra_labels qa.received_at))
            t
    pub holds :
        {t : Store}
        → Reach env.codec (inc_u64 w.wal.seq) log t
        → t.wal.checkpoint < inc_u64 w.wal.seq

  -- With the log on, satisfying its invariant with numbers below 2 ^ 64, when an append that tears no
  -- frame succeeds and the first select takes the end of the caller's context, the caller gets the error
  -- and the alert is not queued, but its record stays in the log, not acknowledged, and the checkpoint
  -- below its number, over all later calls that do not acknowledge that number, of which none tears a
  -- frame and none meets an I/O error while a compaction reads.
  pub enqueue-Orphans :
      (e : Error) (second : Selected) (n : ℕ)
      → p.processor.wal ≡ some w
      → after.0 ≡ ok n
      → Orphans e (enqueue env io (cancelled e) second qa p)
  unfolding enqueue offer_queue
  enqueue-Orphans e second n on done =
      let r : WalRecord = env.codec.stored (record_of w qa.group qa.extra_labels qa.received_at) in
      let same : r.seq ≡ inc_u64 w.wal.seq = laws.keeps_seq _ in
      let protects : Protects env.codec r after.1 =
        Effect-Protects_new laws n room refl done
          (append-Effect laws io whole qa.group qa.extra_labels qa.received_at w sound.bound)
          sound in
      let stays : (t : Store)
          → Reach env.codec (inc_u64 w.wal.seq) after.1 t
          → Protects env.codec r t =
        λ t reach.
          Reach-Protects laws r protects
            (subst (λ q. Reach env.codec q after.1 t) (sym same) reach) in
      rw (on, enqueue)
        (rw (done, enqueue)
          (record {
            log = after.1;
            logged = refl;
            refused = refl;
            not_queued = refl;
            stays = λ {t} reach. stays t reach;
            holds = λ {t} reach. subst (λ q. t.wal.checkpoint < q) same (stays t reach).waits;
          }))
