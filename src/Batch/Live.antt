-- ===== src/Batch/Live.antt =====
-- The batch processor while it runs (internal/storage/loki/batch.go): callers of `enqueue`, `replay`, the
-- accumulator and the flusher, each a sequence of atomic actions, in any interleaving. `Run` follows one
-- schedule to its end; here a schedule is a list of actions.
pub mod Weights
pub mod Counted
pub mod Logged
pub mod Drain
use alertsnitch.Base.{
  Result, ℕ, zero, suc, ◌&&◌, ◌||◌, not, Bool, true, false, ltb, leb, Option, none, some, List, [],
  ◌∷◌, ◌++◌, map, ok, err, Error, if◌then◌else◌, length,
}
use alertsnitch.Labels.{is_empty}
use alertsnitch.Metrics.{Metrics}
use alertsnitch.Wal.{Codec, WalRecord, Store}
use alertsnitch.Wal.Ops.{AppendIo, append}
use alertsnitch.Batch.{QueuedAlert}
use alertsnitch.Batch.Flush.{FlushEnv, Processor, ack_batch, flush_batch, record_outcome}
use alertsnitch.Batch.Enqueue.{queue_full, requeued}
use alertsnitch.Batch.Run.{close_wal}

-- The accumulator: in its loop, draining the queue after the stop signal, or gone.
pub data Phase : Type 0 where
  running draining ended : Phase

-- The channels and what the goroutines hold. `replaying` is what the replay has yet to send, `waiting`
-- the callers between their append and the outcome of their `select`, `in_hand` the accumulator's
-- batch, `sent` the batches on their way to the flusher, `delivered` the batch whose outcome is counted
-- and which is not acknowledged yet. `begun` and `given_up` are history: the alerts that callers came
-- with, and those that a caller or the replay gave up.
pub record Live : Type 0 where
  pub replaying : List QueuedAlert
  pub waiting : List QueuedAlert
  pub queue : List QueuedAlert
  pub in_hand : List QueuedAlert
  pub sent : List (List QueuedAlert)
  pub delivered : List QueuedAlert
  pub phase : Phase
  pub processor : Processor
  pub begun : List QueuedAlert
  pub given_up : List QueuedAlert

-- The atomic actions. The number picks one of the waiting callers.
pub data Action : Type 0 where
  arrives : AppendIo → QueuedAlert → Action
  sends cancels : ℕ → Action
  drops : ℕ → FlushEnv → Action
  replays abandons takes dispatches stops : Action
  delivers acknowledges : FlushEnv → Action
  closes : (synced closed : Bool) → Action

abbrev pub behind :
    QueuedAlert → Option (QueuedAlert × List QueuedAlert) → Option (QueuedAlert × List QueuedAlert)
behind qa none = none
behind qa (some (q, rest)) = some (q, qa ∷ rest)

-- One of the callers, and the others.
unfoldable pub pick : ℕ → List QueuedAlert → Option (QueuedAlert × List QueuedAlert)
pick i [] = none
pick zero (qa ∷ waiting) = some (qa, waiting)
pick (suc i) (qa ∷ waiting) = behind qa (pick i waiting)

abbrev pub picked :
    Option (QueuedAlert × List QueuedAlert) → (QueuedAlert → List QueuedAlert → Live) → Live → Live
picked none next s = s
picked (some (qa, rest)) next s = next qa rest

-- The append at the start of `enqueue`, if there is a log, and its error path.
abbrev pub logged : QueuedAlert → Metrics → Result ℕ × Store → Live → Live
logged qa m (err e, w) s = record s {
  processor = record { metrics = record_outcome qa.group (some e) m; wal = some w };
  begun = qa ∷ s.begun;
}
logged qa m (ok seq, w) s = record s {
  waiting = record qa { seq = seq } ∷ s.waiting;
  processor = record { metrics = m; wal = some w };
  begun = qa ∷ s.begun;
}

abbrev pub arrive_alert : Codec → AppendIo → QueuedAlert → Option Store → Live → Live
arrive_alert c io qa none s = record s { waiting = qa ∷ s.waiting; begun = qa ∷ s.begun }
arrive_alert c io qa (some w) s =
    logged qa s.processor.metrics (append c io qa.group qa.extra_labels qa.received_at w) s

abbrev is_ended : Phase → Bool
is_ended ended = true
is_ended running = false
is_ended draining = false

-- May the accumulator take another alert before it dispatches?
abbrev pub wants_more : Phase → ℕ → List QueuedAlert → Bool
wants_more running size in_hand = is_empty in_hand || ltb (length in_hand) size
wants_more draining size in_hand = true
wants_more ended size in_hand = false

-- The accumulator takes the first alert of the queue.
abbrev pub take_alert : Bool → List QueuedAlert → Live → Live
take_alert true (qa ∷ queue) s = record s { queue = queue; in_hand = s.in_hand ++ qa ∷ [] }
take_alert true [] s = s
take_alert false queue s = s

abbrev pub after_dispatch : Phase → Phase
after_dispatch running = running
after_dispatch draining = ended
after_dispatch ended = ended

-- May it dispatch? After the stop signal it first empties the queue.
abbrev pub may_dispatch : Phase → List QueuedAlert → Bool
may_dispatch running queue = true
may_dispatch draining queue = is_empty queue
may_dispatch ended queue = false

-- The channel has room for four, and `s.sent` holds the batch too that an idle flusher has received.
abbrev pub channel_room : List QueuedAlert → ℕ
channel_room [] = 5
channel_room (qa ∷ delivered) = 4

-- dispatch(): an empty batch is not sent.
abbrev pub dispatch_batch : Live → Live
dispatch_batch s =
    if is_empty s.in_hand
    then record s { phase = after_dispatch s.phase }
    else if ltb (length s.sent) (channel_room s.delivered)
    then record s { in_hand = []; sent = s.sent ++ s.in_hand ∷ []; phase = after_dispatch s.phase }
    else s

abbrev signalled : Phase → Phase
signalled running = draining
signalled draining = draining
signalled ended = ended

-- The flusher's next batch, up to the outcome of its delivery.
abbrev pub deliver_next : FlushEnv → List (List QueuedAlert) → List QueuedAlert → Live → Live
deliver_next env (batch ∷ sent) [] s = record s {
  sent = sent;
  delivered = batch;
  processor = record s.processor { metrics = flush_batch env batch s.processor.metrics };
}
deliver_next env [] delivered s = s
deliver_next env (batch ∷ sent) (qa ∷ delivered) s = s

abbrev pub replay_next : Bool → List QueuedAlert → Live → Live
replay_next true (qa ∷ replaying) s = record s { replaying = replaying; queue = s.queue ++ qa ∷ [] }
replay_next true [] s = s
replay_next false replaying s = s

abbrev pub is_running : Phase → Bool
is_running running = true
is_running draining = false
is_running ended = false

-- `size` is cfg.Size, `room` the capacity of the queue. An action that is not possible changes nothing.
module _ (c : Codec) (size room : ℕ) where
  unfoldable pub act : Action → Live → Live
  unfolding pick append ack_batch flush_batch record_outcome close_wal
  act (arrives io qa) s = arrive_alert c io qa s.processor.wal s
  act (sends i) s =
      if ltb (length s.queue) room
      then picked (pick i s.waiting)
          (λ qa rest. record s { waiting = rest; queue = s.queue ++ qa ∷ [] }) s
      else s
  act (cancels i) s =
      picked (pick i s.waiting) (λ qa rest. record s { waiting = rest; given_up = qa ∷ s.given_up })
        s
  act (drops i env) s =
      if ltb (length s.queue) room
      then s
      else picked (pick i s.waiting)
          (λ qa rest. record s {
            waiting = rest;
            processor =
                ack_batch (record env { codec = c }) (qa ∷ [])
                  (record s.processor {
                    metrics = record_outcome qa.group (some queue_full) s.processor.metrics;
                  });
          })
          s
  act replays s = replay_next (ltb (length s.queue) room) s.replaying s
  act abandons s =
      if is_running s.phase
      then s
      else record s { replaying = []; given_up = s.replaying ++ s.given_up }
  act takes s = take_alert (wants_more s.phase size s.in_hand) s.queue s
  act dispatches s = if may_dispatch s.phase s.queue then dispatch_batch s else s
  act stops s = record s { phase = signalled s.phase }
  act (delivers env) s = deliver_next (record env { codec = c }) s.sent s.delivered s
  act (acknowledges env) s = record s {
    delivered = [];
    processor = ack_batch (record env { codec = c }) s.delivered s.processor;
  }
  act (closes synced closed) s = record s { processor = close_wal synced closed s.processor }

  -- A schedule.
  unfoldable pub run : List Action → Live → Live
  unfolding act
  run [] s = s
  run (a ∷ actions) s = run actions (act a s)

-- A processor that has been started, with the records that the log had left.
unfoldable pub started : Processor → List WalRecord → Live
started p records = record {
  replaying = map requeued records;
  waiting = [];
  queue = [];
  in_hand = [];
  sent = [];
  delivered = [];
  phase = running;
  processor = p;
  begun = [];
  given_up = [];
}
