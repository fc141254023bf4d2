-- ===== src/Examples/Log.antt =====
-- The theorems of the write-ahead log at concrete inputs.
use alertsnitch.Base.{◌≡◌, refl, none, some, false, [], ◌∷◌, ◌++◌, ok, Bytes, arith, length, take}
use alertsnitch.Wal.{Disk}
use alertsnitch.Wal.Frame.{put_u32, frame, in_full, read_records, read_frames, read_header, get_u32}
use alertsnitch.Wal.Frame.RoundTrip.{IsLog, nil, cons, read_records-torn}
use alertsnitch.Wal.Checkpoint.{is_acked, advance, read_checkpoint}
use alertsnitch.Wal.Acked.{Advances, Advances-advance}
use alertsnitch.Wal.Durable.{IsWhole, Effect, record_of, append-Effect}
use alertsnitch.Wal.Compaction.{IsReadable, Keeps, compact-Keeps}
use alertsnitch.Wal.Recovery.{IsSound, Protects, Effect-Protects_new}
use alertsnitch.Wal.Recovery.Ack.{ack-Protects}
use alertsnitch.Wal.Recovery.Replay.{
  opened, opened_at, here, Replays, opened-IsSound, append-durable,
}
use alertsnitch.Wal.Faults.{
  StartsWith, read_fault, append-lost, append-lost_behind_torn, compact-empties,
}
use alertsnitch.Wal.Ops.{append, append_record, write_frame, ack, compact, past, last_seq, open_wal}
use alertsnitch.Examples.Data.{
  entry, one_record, one_file, group, numbered, toy, toy-CodecLaws, start, start-IsSound,
  append_well, compact_well, ack_well,
}

append_well-IsWhole : IsWhole append_well
append_well-IsWhole n h = absurd (cc (h))

compact_well-IsReadable : IsReadable compact_well
compact_well-IsReadable n h = cc (h)

append_well-ok : (append toy append_well group [] 5 start).0 ≡ ok 1
unfolding append append_record write_frame last_seq
append_well-ok = refl

two_records : IsLog toy (frame (1 ∷ []) ++ (frame (2 ∷ []) ++ [])) (numbered 1 ∷ numbered 2 ∷ [])
two_records = cons (entry 1) (cons (entry 2) nil)

one_file-IsSound : IsSound toy (opened one_file (numbered 3 ∷ []) 0)
unfolding read_checkpoint last_seq
one_file-IsSound =
    opened-IsSound one_file (numbered 3 ∷ []) 0 one_record refl (omega arith) (omega arith)

append-durable_example :
    Replays toy
      (toy.stored (record_of start group [] 5))
      (append toy append_well group [] 5 start).1.disk
append-durable_example =
    append-durable toy-CodecLaws append_well group [] 5 start 1 append_well-IsWhole
      (unfold last_seq in omega arith) start-IsSound append_well-ok here

appended : Protects toy (numbered 1) (append toy append_well group [] 5 start).1
unfolding last_seq
appended =
    Effect-Protects_new toy-CodecLaws 1 (omega arith) refl append_well-ok
      (append-Effect toy-CodecLaws append_well append_well-IsWhole group [] 5 start
        start-IsSound.bound)
      start-IsSound

append-Effect_example :
    Effect toy start
      (record_of start group [] 5)
      (append toy append_well group [] 5 start).1
      (append toy append_well group [] 5 start).0
append-Effect_example =
    append-Effect toy-CodecLaws append_well append_well-IsWhole group [] 5 start
      (unfold last_seq in omega arith)

ack-Protects_example :
    Protects toy (numbered 1) (ack toy ack_well [] (append toy append_well group [] 5 start).1).1
ack-Protects_example =
    ack-Protects toy-CodecLaws ack_well compact_well-IsReadable []
      (append toy append_well group [] 5 start).1 tt (numbered 1) (unfold is_acked in refl) appended

Advances-advance_example :
    Advances 1 (3 ∷ 2 ∷ []) (advance 2 false 1 (3 ∷ 2 ∷ [])).0 (advance 2 false 1 (3 ∷ 2 ∷ [])).1
Advances-advance_example =
    Advances-advance 2 false 1 (3 ∷ 2 ∷ []) (omega arith) (omega arith)
      (λ s h. unfold is_acked in ground arith)

read_records-torn_example :
    read_records toy in_full
      (some ((frame (1 ∷ []) ++ (frame (2 ∷ []) ++ [])) ++ take 3 (frame (3 ∷ []))))
    ≡ ok (numbered 1 ∷ numbered 2 ∷ [], length (frame (1 ∷ []) ++ (frame (2 ∷ []) ++ [])))
read_records-torn_example =
    read_records-torn toy 3 (3 ∷ []) two_records (omega arith) (omega arith)
      (unfold frame put_u32 in omega arith)

compact-Keeps_example :
    Keeps toy
      (numbered 3 ∷ [])
      (opened one_file (numbered 3 ∷ []) 0)
      (compact toy compact_well (opened one_file (numbered 3 ∷ []) 0)).1
compact-Keeps_example =
    compact-Keeps toy-CodecLaws (numbered 3 ∷ []) (opened one_file (numbered 3 ∷ []) 0) compact_well
      compact_well-IsReadable one_record

-- A checkpoint of 5 whose log a compaction has emptied.
abbrev emptied : Disk
emptied = record { log = some []; ckpt = some (5 ∷ []) }

append-lost_example :
    StartsWith toy (append toy append_well group [] 5 (opened emptied [] 5)).1.disk []
append-lost_example =
    append-lost toy-CodecLaws append_well append_well-IsWhole group [] 5 emptied [] 5 nil
      (unfold read_checkpoint in refl) (unfold last_seq in omega arith) (omega arith)
      (opened emptied [] 5)
      (unfold open_wal read_checkpoint read_records read_frames read_header in refl) 1
      (unfold append append_record write_frame last_seq in refl)

-- A log of which a crash has torn a frame of ten bytes before its body.
abbrev ten : Bytes
ten = 0 ∷ 0 ∷ 0 ∷ 0 ∷ 0 ∷ 0 ∷ 0 ∷ 0 ∷ 0 ∷ 0 ∷ []

abbrev torn : Disk
torn = record { log = some ([] ++ (put_u32 10 ++ [])); ckpt = none }

append-lost_behind_torn_example :
    StartsWith toy (append toy append_well group [] 5 (opened_at torn [] 0 0)).1.disk []
unfolding past
append-lost_behind_torn_example =
    append-lost_behind_torn append_well toy-CodecLaws append_well-IsWhole group [] 5 torn [] 0 0 []
      ten nil (unfold read_checkpoint in refl) (omega arith) (omega arith) refl (omega arith)
      (unfold last_seq in omega arith) (opened_at torn [] 0 0)
      (unfold open_wal read_checkpoint read_records read_frames read_header get_u32 put_u32 in refl)
      1 (unfold append append_record write_frame last_seq in refl)
      (unfold append append_record write_frame frame put_u32 last_seq in omega arith)

compact-empties_example :
    ((compact toy (read_fault 4) (opened one_file (numbered 3 ∷ []) 0)).0 ≡ none)
    × ((compact toy (read_fault 4) (opened one_file (numbered 3 ∷ []) 0)).1.disk.log ≡ some [])
compact-empties_example =
    compact-empties toy (opened one_file (numbered 3 ∷ []) 0) (3 ∷ []) [] 0 refl refl (omega arith)
      (omega arith) (omega arith)
