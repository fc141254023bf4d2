-- ===== src/Batch/Live/Drain.antt =====
-- The shutdown of the batch processor (`accumulate` after the stop signal, and `flusher`, of
-- internal/storage/loki/batch.go): it ends, and it does not block.
pub mod Ends
use alertsnitch.Base.{
  ℕ, zero, suc, ◌+◌, ◌*◌, ◌≤◌, ◌<◌, ◌≡◌, ◌≢◌, ◌⊎◌, refl, sym, ◌∙◌, ap, Bool, true, false, Option,
  none, some, List, [], ◌∷◌, ◌++◌, arith, length, length-append, ltb, inl, inr, Bool-cases,
  Option-cases, Any,
}
use alertsnitch.Labels.{is_empty}
use alertsnitch.Metrics.{Metrics}
use alertsnitch.Wal.{Codec, Store}
use alertsnitch.Wal.Ops.{ack}
use alertsnitch.Batch.{QueuedAlert}
use alertsnitch.Batch.Accumulate.{concat}
use alertsnitch.Batch.Flush.{FlushEnv, Processor, ack_batch, flush_batch, seqs_of}
use alertsnitch.Batch.Live.{
  channel_room, Live, Phase, running, draining, ended, Action, takes, dispatches, delivers,
  acknowledges, take_alert, dispatch_batch, deliver_next, may_dispatch, wants_more, after_dispatch,
  act,
}
use alertsnitch.Batch.Live.Weights.{weight, weight-append, weight-concat}

abbrev pub one : QueuedAlert → ℕ
one qa = 1

abbrev pub steps_left : Phase → ℕ
steps_left running = 2
steps_left draining = 1
steps_left ended = 0

-- How far the goroutines are from their end.
abbrev pub backlog : Live → ℕ
backlog s =
    5 * weight one s.queue
    + 4 * weight one s.in_hand
    + 2 * weight one (concat s.sent)
    + length s.sent
    + weight one s.delivered
    + steps_left s.phase

-- The accumulator and the flusher at work.
pub data IsWork : Action → Type 0 where
  taking : IsWork takes
  dispatching : IsWork dispatches
  delivering : (env : FlushEnv) → IsWork (delivers env)
  acknowledging : (env : FlushEnv) → IsWork (acknowledges env)

-- An action that is possible brings the end nearer; any other changes nothing.
abbrev pub Works : Live → Live → Type 0
Works s s' = (s' ≡ s) ⊎ (backlog s' < backlog s)

Works-take_alert :
    (may : Bool) (s : Live) (queue : List QueuedAlert)
    → s.queue ≡ queue
    → Works s (take_alert may queue s)
Works-take_alert true s [] h = inl refl
Works-take_alert true s (qa ∷ queue) h =
    inr (omega (arith, ap (weight one) h, weight-append one s.in_hand (qa ∷ [])))
Works-take_alert false s queue h = inl refl

Works-deliver_next :
    (env : FlushEnv) (s : Live) (sent : List (List QueuedAlert)) (delivered : List QueuedAlert)
    → s.sent ≡ sent
    → s.delivered ≡ delivered
    → Works s (deliver_next env sent delivered s)
Works-deliver_next env s (batch ∷ sent) [] h e = inr (
    omega (
      arith,
      ap (λ l. weight one (concat l)) h,
      ap length h,
      ap (weight one) e,
      weight-append one batch (concat sent),
    ))
Works-deliver_next env s [] delivered h e = inl refl
Works-deliver_next env s (batch ∷ sent) (qa ∷ delivered) h e = inl refl

wal_unchanged :
    (env : FlushEnv) (m : Metrics) (w : Option Store)
    → ack_batch env [] (record { metrics = m; wal = w }) ≡ record { metrics = m; wal = w }
unfolding ack_batch ack seqs_of
wal_unchanged env m none = refl
wal_unchanged env m (some w) = refl

module _ (c : Codec) (size room : ℕ) where
  Works-acknowledges :
      (env : FlushEnv) (s : Live) (delivered : List QueuedAlert)
      → Works
          (record s { delivered = delivered })
          (act c size room (acknowledges env) (record s { delivered = delivered }))
  unfolding act
  Works-acknowledges env s [] = inl (
      ap (λ p. record s { delivered = []; processor = p })
        (wal_unchanged (record env { codec = c }) s.processor.metrics s.processor.wal))
  Works-acknowledges env s (qa ∷ delivered) = inr (omega arith)

  Works-after_dispatch :
      (s : Live) (phase : Phase)
      → Works (record s { phase = phase }) (record s { phase = after_dispatch phase })
  Works-after_dispatch s running = inl refl
  Works-after_dispatch s draining = inr (omega arith)
  Works-after_dispatch s ended = inl refl

  steps_left-after_dispatch : (phase : Phase) → steps_left (after_dispatch phase) ≤ steps_left phase
  steps_left-after_dispatch running = omega arith
  steps_left-after_dispatch draining = omega arith
  steps_left-after_dispatch ended = omega arith

  Works-dispatch_batch :
      (s : Live) (in_hand : List QueuedAlert)
      → Works (record s { in_hand = in_hand }) (dispatch_batch (record s { in_hand = in_hand }))
  Works-dispatch_batch s [] = Works-after_dispatch (record s { in_hand = [] }) s.phase
  Works-dispatch_batch s (qa ∷ in_hand) =
      elim (Bool-cases (ltb (length s.sent) (channel_room s.delivered))) [
        | inr full ↦ rw full (inl refl)
        | inl fits ↦ rw fits (
            inr (
              omega (
                arith,
                weight-concat one s.sent (qa ∷ in_hand),
                length-append s.sent ((qa ∷ in_hand) ∷ []),
                steps_left-after_dispatch s.phase,
              )))
      ]

  pub Works-act : {a : Action} → IsWork a → (s : Live) → Works s (act c size room a s)
  unfolding act
  Works-act taking s = Works-take_alert (wants_more s.phase size s.in_hand) s s.queue refl
  Works-act dispatching s = elim (Bool-cases (may_dispatch s.phase s.queue)) [
    | inl may ↦ rw may (Works-dispatch_batch s s.in_hand)
    | inr not_yet ↦ rw not_yet (inl refl)
  ]
  Works-act (delivering env) s =
      Works-deliver_next (record env { codec = c }) s s.sent s.delivered refl refl
  Works-act (acknowledging env) s = Works-acknowledges env s s.delivered
