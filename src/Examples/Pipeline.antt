-- ===== src/Examples/Pipeline.antt =====
-- The theorems of batched delivery and of the counters at concrete inputs.
use mathlib.Core.List.{Perm}
use alertsnitch.Base.{
  u64_mod, ◌<◌, ℕ, ◌+◌, ◌≡◌, ◌↔◌, ◌≤◌, refl, inl, none, some, true, false, ◌++◌, List, [], ◌∷◌,
  arith, All, message, pos,
}
use alertsnitch.Timestamps.{Stream}
use alertsnitch.Timestamps.Order.{Increasing}
use alertsnitch.Stream.Build.{entries}
use alertsnitch.Wal.{Store}
use alertsnitch.Wal.Durable.{IsWhole}
use alertsnitch.Wal.Ops.{last_seq, append, append_record, write_frame}
use alertsnitch.Batch.{arrive, tick, stop, ConvertedGroup, Attempt, deliver, merge_streams}
use alertsnitch.Batch.Merge.{all_entries, merge_streams-keeps}
use alertsnitch.Batch.Retry.{SucceedsAfter, deliver_iff}
use alertsnitch.Metrics.{accounted}
use alertsnitch.Batch.Accumulate.{arrivals}
use alertsnitch.Batch.Run.{deadline, run_to_stop, accounted-run_to_stop}
use alertsnitch.Batch.Flush.{flush, alerts_for}
use alertsnitch.Batch.Settled.{IsSettled, flush-IsSettled}
use alertsnitch.Batch.Enqueue.{queue_full, Pipeline, neither, sent, cancelled, enqueue, offer_queue}
use alertsnitch.Batch.Accepted.{IsAccepted, enqueue-IsAccepted, Orphans, enqueue-Orphans}
use alertsnitch.Examples.Data.{
  toy-CodecLaws, start, start-IsSound, append_well, attempts, env, processor, queued,
}

append_well-IsWhole : IsWhole append_well
append_well-IsWhole n h = absurd (cc (h))

abbrev pipeline : Pipeline
pipeline = record { queue = []; processor = processor }

abbrev one_stream : Stream
one_stream = record {
  labels = [];
  values = record { at = 2; val = "b"; meta = [] } ∷ record { at = 2; val = "a"; meta = [] } ∷ [];
}

room : start.wal.seq + 1 < u64_mod
unfolding last_seq
room = omega arith

enqueue-IsAccepted_example :
    IsAccepted env start queued pipeline (enqueue env append_well neither sent queued pipeline).1
enqueue-IsAccepted_example =
    enqueue-IsAccepted env toy-CodecLaws append_well queued pipeline start append_well-IsWhole room
      start-IsSound neither sent refl
      (unfold enqueue offer_queue append append_record write_frame last_seq in refl)

enqueue-Orphans_example :
    Orphans env toy-CodecLaws append_well queued pipeline start append_well-IsWhole room
      start-IsSound
      (message "canceled")
      (enqueue env append_well (cancelled (message "canceled")) sent queued pipeline)
enqueue-Orphans_example =
    enqueue-Orphans env toy-CodecLaws append_well queued pipeline start append_well-IsWhole room
      start-IsSound (message "canceled") sent 1 refl
      (unfold append append_record write_frame last_seq in refl)

-- All attempts fail.
abbrev refusals : ℕ → Attempt
refusals i = record { cancelled_before = false; push = some queue_full; cancelled_after = false }

flush-IsSettled_example :
    (w' : Store) × ((flush
        (record env { attempts = refusals })
        (record queued { seq = 1 } ∷ [])
        processor).wal
      ≡ some w')
    × IsSettled 1 w'
flush-IsSettled_example =
    flush-IsSettled (record env { attempts = refusals }) toy-CodecLaws (λ n h. cc (h)) start
      start-IsSound (record queued { seq = 1 } ∷ []) processor refl (record queued { seq = 1 })
      (inl refl) (λ h. absurd (cc (h)))

deliver_iff_example :
    (deliver (pos 1) attempts (one_stream ∷ []) ≡ none)
    ↔ ((k : ℕ) × (k ≤ 1) × SucceedsAfter attempts k 0)
deliver_iff_example = deliver_iff 1 attempts (one_stream ∷ []) (λ h. cc (h))

abbrev converted : List ConvertedGroup
converted =
    record { qa = queued; streams = one_stream ∷ [] }
    ∷ record { qa = queued; streams = one_stream ∷ [] }
    ∷ []

merge_streams-keeps_example :
    Perm (entries (merge_streams (λ l. "k") converted)) (all_entries converted)
    × All (λ s. Increasing s.values) (merge_streams (λ l. "k") converted)
merge_streams-keeps_example = merge_streams-keeps (λ l. "k") converted

-- An alert and a tick, then the stop signal with another alert in the queue, and the deadline behind the
-- first batch.
accounted-run_to_stop_example :
    accounted
      (run_to_stop
        (λ n. env)
        2
        (arrive queued ∷ tick ∷ [])
        (queued ∷ [])
        true
        true
        (deadline 1 (message "deadline exceeded"))
        processor).1.metrics
      "web"
      "firing"
    ≡ accounted processor.metrics "web" "firing"
      + alerts_for "web" "firing"
          (arrivals ((arrive queued ∷ tick ∷ []) ++ stop (queued ∷ []) ∷ []))
accounted-run_to_stop_example =
    accounted-run_to_stop "web" "firing" (λ n. env) 2 (arrive queued ∷ tick ∷ []) (queued ∷ []) true
      true (deadline 1 (message "deadline exceeded")) processor
