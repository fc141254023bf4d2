-- ===== src/Batch/Live/Counted.antt =====
-- What a running batch processor (internal/storage/loki/batch.go) counts, whatever the interleaving.
use text.Mathlib.Text.{◌==◌ as str_eq}
use alertsnitch.Base.{
  ℕ, ◌+◌, ◌≡◌, refl, ap, ◌&&◌, Option, none, some, List, [], ◌∷◌, arith, String, if◌then◌else◌,
  length, ltb, inl, inr, Bool-cases, Result, ok, err,
}
use alertsnitch.Metrics.{accounted}
use alertsnitch.Wal.{Codec, Store}
use alertsnitch.Wal.Ops.{AppendIo, append}
use alertsnitch.Batch.{QueuedAlert}
use alertsnitch.Batch.Enqueue.{queue_full}
use alertsnitch.Batch.Accumulate.{concat}
use alertsnitch.Batch.Flush.{
  FlushEnv, ack_batch, record_outcome, alerts_for, accounted-record_outcome, accounted-flush_batch,
  accounted-ack_batch,
}
use alertsnitch.Batch.Run.{accounted-close_wal}
use alertsnitch.Batch.Live.{
  Live, Action, arrives, sends, cancels, drops, replays, abandons, takes, dispatches, stops,
  delivers, acknowledges, closes, pick, picked, logged, arrive_alert, deliver_next, act, run,
}
use alertsnitch.Batch.Live.Weights.{
  weight, weight-append, held, Picks, Picks-pick, IsMove, IsMove-act, sending, cancelling,
  resending, abandoning, taking, dispatching, stopping,
}

-- The alerts of a queued group that count for a receiver and a status.
abbrev pub alerts_of : String → String → QueuedAlert → ℕ
alerts_of r st qa =
    if str_eq qa.group.receiver r && str_eq qa.group.status st then length qa.group.alerts else 0

module _ (r st : String) where
  -- The alerts that are counted, on their way to a flush, or given up.
  abbrev pub balance : Live → ℕ
  balance s = accounted s.processor.metrics r st + held (alerts_of r st) s

  weight-alerts_for :
      (batch : List QueuedAlert) → weight (alerts_of r st) batch ≡ alerts_for r st batch
  weight-alerts_for [] = refl
  weight-alerts_for (qa ∷ batch) = omega (arith, weight-alerts_for batch)

  -- The step neither loses an alert nor counts one twice.
  abbrev Balances : Live → Live → Type 0
  Balances s s' =
      balance s' + weight (alerts_of r st) s.begun ≡ balance s + weight (alerts_of r st) s'.begun

  Balances-IsMove : (s s' : Live) → IsMove s s' → Balances s s'
  Balances-IsMove s s' m = rw (m.processor, m.begun, m.kept (alerts_of r st)) refl

  Balances-logged :
      (qa : QueuedAlert) (s : Live) (p : Result ℕ × Store)
      → Balances s (logged qa s.processor.metrics p s)
  Balances-logged qa s (err e, w) =
      omega (arith, accounted-record_outcome r st qa.group (some e) s.processor.metrics)
  Balances-logged qa s (ok seq, w) = omega arith

  Balances-arrive_alert :
      (c : Codec) (io : AppendIo) (qa : QueuedAlert) (w : Option Store) (s : Live)
      → Balances s (arrive_alert c io qa w s)
  Balances-arrive_alert c io qa none s = omega arith
  Balances-arrive_alert c io qa (some w) s =
      Balances-logged qa s (append c io qa.group qa.extra_labels qa.received_at w)

  Balances-drops :
      (env : FlushEnv) (s : Live) (o : Option (QueuedAlert × List QueuedAlert))
      → ((f : QueuedAlert → ℕ) → Picks f s.waiting o)
      → Balances s (
          picked o
            (λ qa rest. record s {
              waiting = rest;
              processor = ack_batch env (qa ∷ []) (record s.processor {
                metrics = record_outcome qa.group (some queue_full) s.processor.metrics;
              });
            })
            s)
  Balances-drops env s none h = refl
  Balances-drops env s (some (qa, rest)) h = omega (
    arith,
    h (alerts_of r st),
    accounted-ack_batch r st env (qa ∷ []) (record s.processor {
      metrics = record_outcome qa.group (some queue_full) s.processor.metrics;
    }),
    accounted-record_outcome r st qa.group (some queue_full) s.processor.metrics,
  )

  Balances-deliver_next :
      (env : FlushEnv) (s : Live) (sent : List (List QueuedAlert)) (delivered : List QueuedAlert)
      → s.sent ≡ sent
      → Balances s (deliver_next env sent delivered s)
  Balances-deliver_next env s (batch ∷ sent) [] h = omega (
    arith,
    ap (λ l. weight (alerts_of r st) (concat l)) h,
    weight-append (alerts_of r st) batch (concat sent),
    accounted-flush_batch r st env batch s.processor.metrics,
    weight-alerts_for batch,
  )
  Balances-deliver_next env s [] delivered h = refl
  Balances-deliver_next env s (batch ∷ sent) (qa ∷ delivered) h = refl

  module _ (c : Codec) (size room : ℕ) where
    Balances-act : (a : Action) (s : Live) → Balances s (act c size room a s)
    unfolding act
    Balances-act (arrives io qa) s = Balances-arrive_alert c io qa s.processor.wal s
    Balances-act (sends i) s = Balances-IsMove s _ (IsMove-act c size room (sending i) s)
    Balances-act (cancels i) s = Balances-IsMove s _ (IsMove-act c size room (cancelling i) s)
    Balances-act (drops i env) s = elim (Bool-cases (ltb (length s.queue) room)) [
      | inl fits ↦ rw fits refl
      | inr full ↦ rw full (
          Balances-drops (record env { codec = c }) s (pick i s.waiting)
            (λ f. Picks-pick f i s.waiting))
    ]
    Balances-act replays s = Balances-IsMove s _ (IsMove-act c size room resending s)
    Balances-act abandons s = Balances-IsMove s _ (IsMove-act c size room abandoning s)
    Balances-act takes s = Balances-IsMove s _ (IsMove-act c size room taking s)
    Balances-act dispatches s = Balances-IsMove s _ (IsMove-act c size room dispatching s)
    Balances-act stops s = Balances-IsMove s _ (IsMove-act c size room stopping s)
    Balances-act (delivers env) s =
        Balances-deliver_next (record env { codec = c }) s s.sent s.delivered refl
    Balances-act (acknowledges env) s =
        rw (accounted-ack_batch r st (record env { codec = c }) s.delivered s.processor) refl
    Balances-act (closes synced closed) s =
        rw (accounted-close_wal r st synced closed s.processor) refl

    -- Whatever callers, replay, accumulator, flusher and stop do, and in whichever order their actions
    -- come, with any outcome of the conversions, the pushes and the log: no alert is lost and none is
    -- counted twice. For every receiver and status, the alerts counted as saved or failed since, with
    -- those on their way to a flush or given up by their caller or the replay, are the alerts that
    -- callers have come with since, with those that were on their way or given up before.
    pub balance-run :
        (actions : List Action) (s : Live)
        → balance (run c size room actions s) + weight (alerts_of r st) s.begun
          ≡ balance s + weight (alerts_of r st) (run c size room actions s).begun
    unfolding run
    balance-run [] s = refl
    balance-run (a ∷ actions) s =
        omega (arith, balance-run actions (act c size room a s), Balances-act a s)
