-- ===== src/Batch.antt =====
-- The data and the pure parts of batched delivery (internal/storage/loki/batch.go): queued alerts,
-- batches, retries, merged streams.
pub mod Merge
pub mod Accumulate
pub mod Retry
pub mod Flush
pub mod Settled
pub mod Enqueue
pub mod Accepted
pub mod Run
pub mod Live
use alertsnitch.Base.{
  ℕ, zero, suc, ◌+◌, Bool, true, false, ◌&&◌, Option, none, some, List, [], ◌∷◌, ◌++◌, String,
  Labels, Time, Error, message, wrap, ℤ, pos, negsuc, ltb, leb, ◌==◌, if◌then◌else◌, length,
}
use alertsnitch.Base.Maps.{lookup, insert}
use alertsnitch.Alert.{AlertGroup}
use alertsnitch.Labels.{is_empty}
use alertsnitch.Timestamps.{Stream, ensure_monotonic}

-- `queuedAlert`
pub record QueuedAlert : Type 0 where
  pub group : AlertGroup
  pub extra_labels : Labels
  pub received_at : Time
  pub seq : ℕ

-- `convertedGroup`
pub record ConvertedGroup : Type 0 where
  pub qa : QueuedAlert
  pub streams : List Stream

-- What the accumulator sees: an alert from the queue, the ticker, or the stop signal with what is
-- left in the queue, which it drains.
pub data Event : Type 0 where
  arrive : QueuedAlert → Event
  tick : Event
  stop : List QueuedAlert → Event

-- dispatch(): a batch in front of the later ones, unless it is empty.
abbrev pub dispatch :
    List QueuedAlert
    → List (List QueuedAlert) × List QueuedAlert
    → List (List QueuedAlert) × List QueuedAlert
dispatch batch (sent, left) = if is_empty batch then (sent, left) else (batch ∷ sent, left)

-- `accumulate` from the batch in hand: what goes to the flusher, in order, and what is in hand when
-- the events end. `size` is cfg.Size.
unfoldable pub accumulate :
    ℕ → List Event → List QueuedAlert → List (List QueuedAlert) × List QueuedAlert
accumulate size [] batch = ([], batch)
accumulate size (arrive qa ∷ events) batch =
    let full = leb size (length (batch ++ qa ∷ [])) in
    let rest = accumulate size events (if full then [] else batch ++ qa ∷ []) in
    if full then dispatch (batch ++ qa ∷ []) rest else rest
accumulate size (tick ∷ events) batch = dispatch batch (accumulate size events [])
accumulate size (stop queued ∷ events) batch = dispatch (batch ++ queued) ([], [])

-- One attempt of `deliver`: whether the run context ends during the wait before it, the outcome of
-- the push, and whether the run context has ended after a failure.
pub record Attempt : Type 0 where
  pub cancelled_before : Bool
  pub push : Option Error
  pub cancelled_after : Bool

abbrev pub aborted : Error
aborted = wrap "loki batch flush aborted during shutdown" (message "context canceled")

-- The loop of `deliver`, with the number of attempts that are left.
unfoldable pub deliver_loop : ℕ → ℕ → (ℕ → Attempt) → Option Error → Option Error
deliver_loop zero attempt env last_err = last_err
deliver_loop (suc left) attempt env last_err =
    let next = deliver_loop left (suc attempt) env (env attempt).push in
    if ltb 0 attempt && (env attempt).cancelled_before
    then some aborted
    else elim (env attempt).push [
      | none ↦ none
      | some e ↦ if (env attempt).cancelled_after then some aborted else next
    ]

-- The attempts of `for attempt := 0; attempt <= MaxRetries; attempt++`.
abbrev pub rounds : ℤ → ℕ
rounds (pos n) = suc n
rounds (negsuc n) = 0

-- `deliver`
unfoldable pub deliver : ℤ → (ℕ → Attempt) → List Stream → Option Error
unfolding deliver_loop
deliver max_retries env streams =
    if is_empty streams then none else deliver_loop (rounds max_retries) 0 env none

-- One stream into the map of streams, under its key.
unfoldable pub merge_stream : String → Stream → List (String × Stream) → List (String × Stream)
unfolding lookup insert
merge_stream key s streams = elim (lookup key streams) [
  | none ↦ insert key s streams
  | some old ↦ insert key (record { labels = old.labels; values = old.values ++ s.values }) streams
]

-- The inner loop of `mergeStreams` over the streams of a group. `key` is `streamKey`.
unfoldable pub merge_group :
    (Labels → String) → List Stream → List (String × Stream) → List (String × Stream)
unfolding merge_stream
merge_group key [] streams = streams
merge_group key (s ∷ rest) streams = merge_group key rest (merge_stream (key s.labels) s streams)

unfoldable pub merge_groups :
    (Labels → String) → List ConvertedGroup → List (String × Stream) → List (String × Stream)
unfolding merge_group
merge_groups key [] streams = streams
merge_groups key (g ∷ groups) streams = merge_groups key groups (merge_group key g.streams streams)

-- The loop over the map that puts each stream in order.
unfoldable pub normalize : List (String × Stream) → List Stream
normalize [] = []
normalize ((key, s) ∷ streams) =
    record { labels = s.labels; values = ensure_monotonic s.values } ∷ normalize streams

-- `mergeStreams`
unfoldable pub merge_streams : (Labels → String) → List ConvertedGroup → List Stream
unfolding merge_groups normalize
merge_streams key groups = normalize (merge_groups key groups [])
