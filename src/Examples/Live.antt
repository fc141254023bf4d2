-- ===== src/Examples/Live.antt =====
-- The theorems of the running batch processor at concrete schedules.
use alertsnitch.Base.{
  inl, ◌<◌, ◌≤◌, ℕ, ◌+◌, ◌≡◌, ◌⊎◌, refl, ap, some, List, [], ◌∷◌, arith, All, length,
}
use alertsnitch.Wal.{Store}
use alertsnitch.Wal.Durable.{IsWhole, record_of}
use alertsnitch.Wal.Recovery.Replay.{Replays, opened, opened_at_lem}
use alertsnitch.Wal.Compaction.{IsReadable, read_contents}
use alertsnitch.Wal.Ops.{append, append_record, write_frame, last_seq, past, recover}
use alertsnitch.Batch.Live.{
  Live, draining, Action, arrives, sends, cancels, replays, takes, dispatches, delivers,
  acknowledges, pick, act, run, started,
}
use alertsnitch.Batch.Live.Weights.{weight}
use alertsnitch.Batch.Live.Counted.{alerts_of, balance, balance-run}
use alertsnitch.Batch.Live.Logged.{standing, InOrder, IsClean}
use alertsnitch.Batch.Live.Logged.Durable.{arrives-Replays}
use alertsnitch.Batch.Live.Drain.{backlog, dispatching}
use alertsnitch.Batch.Live.Drain.Ends.{Enabled, IsDrained, Busy, rest, works, Busy-ends}
use alertsnitch.Batch.Live.Logged.Restart.{Leaves, restarted, restarted-Replays}
use alertsnitch.Wal.Checkpoint.{read_checkpoint}
use alertsnitch.Examples.Data.{
  one_file, one_record, numbered, zeros, toy, toy-CodecLaws, start, start-IsSound, append_well, env,
  processor, queued, group,
}

abbrev idle : Live
idle = started processor []

-- Two callers; the first alert is delivered and acknowledged, the second caller goes away.
abbrev schedule : List Action
schedule =
    sends 0
    ∷ arrives append_well queued
    ∷ takes
    ∷ dispatches
    ∷ cancels 0
    ∷ delivers env
    ∷ acknowledges env
    ∷ []

append_well-IsWhole : IsWhole append_well
append_well-IsWhole n h = absurd (cc (h))

compaction-IsReadable : IsReadable env.ack_io.compaction
compaction-IsReadable n h = cc (h)

schedule-IsClean : All IsClean schedule
schedule-IsClean = (_, (append_well-IsWhole, (_, (_, (_, (_, (compaction-IsReadable, _)))))))

-- A processor that has just started has its log in order.
idle-InOrder : (k : ℕ) → k < 100 → InOrder toy k idle
unfolding started last_seq
idle-InOrder k few = record {
  log = start;
  logged = refl;
  sound = start-IsSound;
  room = omega (arith, few);
  fits = λ n h. refl;
}

abbrev called : Live
called = act toy 2 1000 (arrives append_well queued) idle

balance-run_example :
    balance "web" "firing" (run toy 2 1000 schedule called)
      + weight (alerts_of "web" "firing") called.begun
    ≡ balance "web" "firing" called
      + weight (alerts_of "web" "firing") (run toy 2 1000 schedule called).begun
balance-run_example = balance-run "web" "firing" toy 2 1000 schedule called

-- The process dies while the batch is on its way to the flusher.
abbrev cut_off : List Action
cut_off = sends 0 ∷ takes ∷ dispatches ∷ []

on_its_way : 0 < standing 1 (run toy 2 1000 (arrives append_well queued ∷ cut_off) idle)
unfolding run act started append append_record write_frame last_seq pick
on_its_way = omega arith

arrives-Replays_example :
    (log : Store) × ((run toy 2 1000 (arrives append_well queued ∷ cut_off) idle).processor.wal
      ≡ some log)
    × Replays toy (toy.stored (record_of start group [] 5)) log.disk
unfolding idle-InOrder
arrives-Replays_example =
    arrives-Replays toy-CodecLaws 2 1000 append_well queued 1 cut_off idle
      (idle-InOrder 4 (omega arith)) append_well-IsWhole
      (unfold append append_record write_frame last_seq idle-InOrder in refl) (_, (_, (_, _)))
      on_its_way

-- The stop signal has come, and one alert is in hand.
abbrev stopping : Live
stopping = record (started processor []) { phase = draining; in_hand = queued ∷ [] }

sends_off : Busy toy 2 1000 stopping 1 (act toy 2 1000 dispatches stopping)
unfolding act started
sends_off =
    works dispatching (λ same. absurd (omega (arith, ap (λ s. length s.in_hand) same))) (rest _)

Busy-ends_example :
    (1 ≤ backlog stopping)
    × (IsDrained (act toy 2 1000 dispatches stopping)
        ⊎ Enabled toy 2 1000 (act toy 2 1000 dispatches stopping))
Busy-ends_example = Busy-ends toy 2 1000 _ sends_off env

-- A start on a log with one record, whose alert is taken from the queue when the process dies again.
one_file-Leaves : Leaves toy one_file (numbered 3 ∷ []) 0 2
unfolding read_checkpoint last_seq
one_file-Leaves = record { log = one_record; ckpt = refl; high = omega arith; room = omega arith }

abbrev taken : List Action
taken = replays ∷ takes ∷ []

restarted-Replays_example :
    (log : Store) × ((run toy 2 1000 taken
        (restarted (opened one_file (numbered 3 ∷ []) 0) zeros)).processor.wal
      ≡ some log)
    × Replays toy (numbered 3) log.disk
unfolding past run act started restarted recover
restarted-Replays_example =
    restarted-Replays toy-CodecLaws 2 1000 taken one_file (numbered 3 ∷ []) 0 one_file-Leaves zeros
      (numbered 3) (opened one_file (numbered 3 ∷ []) 0)
      (opened_at_lem toy one_file (numbered 3 ∷ []) _ 0 one_file-Leaves.ckpt
        (read_contents toy one_file.log one_record))
      (_, (_, _)) (inl refl) (omega arith) (omega arith)
