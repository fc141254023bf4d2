-- ===== src/Wal/Ops.antt =====
-- The operations of the log (`openWAL`, `recover`, `append`, `ack`, `compactLocked`, `close` of
-- internal/storage/loki/wal.go). Each holds the mutex throughout, so calls do not interleave. The
-- outcome of each system call is an argument.
use alertsnitch.Base.{
  ℕ, ◌+◌, Option, none, some, Bool, true, false, ◌&&◌, List, [], ◌∷◌, ◌++◌, Bytes, Labels, Time,
  Result, ok, err, Error, external, too_large, wrap, inc_u64, dec_u64, ltb, leb, if◌then◌else◌,
  length, take,
}
use alertsnitch.Alert.{AlertGroup}
use alertsnitch.Wal.{
  WalRecord, LogFile, no_file, live, broken, Disk, Store, Codec, wal_closed, max_record_len,
  compact_bytes,
}
use alertsnitch.Wal.Frame.{frame, write_record, ReadIo, read_records}
use alertsnitch.Wal.Checkpoint.{mark, advance, CkptIo, write_checkpoint, read_checkpoint}

-- The bytes of a file, none if it is not there.
abbrev pub contents : Option Bytes → Bytes
contents none = []
contents (some bytes) = bytes

-- An append writes all of the frame, or fails after some bytes of it; then it syncs or does not.
pub record AppendIo : Type 0 where
  pub fails_after : Option ℕ
  pub synced : Bool

abbrev pub is_nil : LogFile → Bool
is_nil no_file = true
is_nil _ = false

abbrev pub is_live : LogFile → Bool
is_live live = true
is_live _ = false

-- A write through O_APPEND.
abbrev pub append_bytes : Bytes → Store → Store
append_bytes bytes s = record s {
  disk = record s.disk { log = some (contents s.disk.log ++ bytes) };
}

-- w.seq--
abbrev pub give_back : Store → Store
give_back s = record s { wal = record s.wal { seq = dec_u64 s.wal.seq } }

-- `append` from the write of the frame on.
unfoldable pub write_frame : AppendIo → Bytes → LogFile → Store → Result ℕ × Store
write_frame io bytes live s = elim io.fails_after [
  | some n ↦ (
    err (wrap "writing wal record" (external "write")),
    give_back (append_bytes (take n bytes) s),
  )
  | none ↦
      let t = append_bytes bytes s in
      if io.synced
      then (ok t.wal.seq, record t { wal = record t.wal { size = t.wal.size + length bytes } })
      else (err (wrap "syncing wal" (external "sync")), give_back t)
]
write_frame io bytes _ s = (err (wrap "writing wal record" (external "closed")), give_back s)

-- `append` after the test of the handle.
unfoldable pub append_record :
    Codec → AppendIo → AlertGroup → Labels → Time → Store → Result ℕ × Store
append_record c io group extra_labels received_at s =
    let seq = inc_u64 s.wal.seq in
    let t : Store = record s { wal = record s.wal { seq = seq } } in
    let rec : WalRecord = record {
      seq = seq;
      group = group;
      extra_labels = extra_labels;
      received_at = received_at;
    } in
    elim (c.marshal rec) [
      | err e ↦ (err (wrap "marshaling wal record" e), give_back t)
      | ok body ↦
          if ltb max_record_len (length body)
          then (err (too_large (length body)), give_back t)
          else write_frame io (frame body) t.wal.file t
    ]

-- `append`
unfoldable pub append : Codec → AppendIo → AlertGroup → Labels → Time → Store → Result ℕ × Store
append c io group extra_labels received_at s =
    if is_nil s.wal.file
    then (err wal_closed, s)
    else append_record c io group extra_labels received_at s

-- The outcomes of a compaction's system calls: reading the log; creating, writing, flushing and
-- syncing the temporary file; closing the log; renaming; opening it again.
pub record CompactIo : Type 0 where
  pub read : ReadIo
  pub created : Bool
  pub wrote : Bool
  pub synced : Bool
  pub closed : Bool
  pub renamed : Bool
  pub reopened : Bool

-- The loop of `compactLocked`: the bytes of the records past the checkpoint.
unfoldable pub rewrite : Codec → ℕ → List WalRecord → Result Bytes
rewrite c checkpoint [] = ok []
rewrite c checkpoint (rec ∷ records) =
    let rest = rewrite c checkpoint records in
    if leb rec.seq checkpoint then rest else elim (write_record c rec) [
      | err e ↦ err e
      | ok bytes ↦ elim rest [ err e ↦ err e | ok more ↦ ok (bytes ++ more) ]
    ]

-- `compactLocked` from the close of the log on. The temporary file holds `bytes`.
unfoldable pub swap_log : CompactIo → Bytes → Store → Option Error × Store
swap_log io bytes s =
    let closed : Store = record s { wal = record s.wal { file = no_file } } in
    let renamed : Store = record closed { disk = record s.disk { log = some bytes } } in
    if io.closed && is_live s.wal.file
    then (if io.renamed
        then (if io.reopened
            then (none, record renamed { wal = record s.wal { file = live; size = length bytes } })
            else (some (wrap "reopening wal after compaction" (external "open")), renamed))
        else (some (wrap "swapping compacted wal" (external "rename")), closed))
    else (
      some (wrap "closing wal before compaction swap" (external "close")),
      record s { wal = record s.wal { file = broken } },
    )

-- `compactLocked`
unfoldable pub compact : Codec → CompactIo → Store → Option Error × Store
compact c io s =
    if is_nil s.wal.file then (some wal_closed, s) else elim (read_records c io.read s.disk.log) [
      | err e ↦ (some e, s)
      | ok (records, _) ↦
          if io.created
          then elim (rewrite c s.wal.checkpoint records) [
            | err e ↦ (some e, s)
            | ok bytes ↦
                if io.wrote
                then (if io.synced
                    then swap_log io bytes s
                    else (some (wrap "syncing compaction temp" (external "sync")), s))
                else (some (wrap "flushing compaction temp" (external "write")), s)
          ]
          else (some (wrap "creating compaction temp" (external "open")), s)
    ]

-- The outcomes of the system calls of one `ack`.
pub record AckIo : Type 0 where
  pub ckpt : CkptIo
  pub compaction : CompactIo

-- `ack` once the checkpoint has moved: persist it, then compact a large log. The error of a
-- compaction is only logged.
unfoldable pub persist : Codec → AckIo → Store → Option Error × Store
persist c io s =
    let (e, d) = write_checkpoint c io.ckpt s.wal.checkpoint s.disk in
    let t : Store = record s { disk = d } in
    elim e [
      | some failed ↦ (some failed, t)
      | none ↦
          if ltb compact_bytes t.wal.size then (none, (compact c io.compaction t).1) else (none, t)
    ]

-- `ack`
unfoldable pub ack : Codec → AckIo → List ℕ → Store → Option Error × Store
ack c io [] s = (none, s)
ack c io (q ∷ qs) s =
    let marked = mark s.wal.checkpoint (q ∷ qs) s.wal.acked in
    let (checkpoint, acked, advanced) = advance (length marked) false s.wal.checkpoint marked in
    let t : Store = record s { wal = record s.wal { checkpoint = checkpoint; acked = acked } } in
    if advanced then persist c io t else (none, t)

-- `close`; the flags say whether the sync and the close succeed.
unfoldable pub close : Bool → Bool → Store → Option Error × Store
close synced closed s = if is_nil s.wal.file then (none, s) else (
  if synced && is_live s.wal.file
      then (if closed then none else some (external "close"))
      else some (external "sync"),
  record s { wal = record s.wal { file = no_file; size = 0 } },
)

-- The largest sequence number of the records, and those past the checkpoint (the loop of `openWAL`).
unfoldable pub last_seq : ℕ → List WalRecord → ℕ
last_seq seq [] = seq
last_seq seq (rec ∷ records) = last_seq (if ltb seq rec.seq then rec.seq else seq) records

unfoldable pub past : ℕ → List WalRecord → List WalRecord
past checkpoint [] = []
past checkpoint (rec ∷ records) =
    let rest = past checkpoint records in if ltb checkpoint rec.seq then rec ∷ rest else rest

-- The outcomes of the system calls of `openWAL`.
pub record OpenIo : Type 0 where
  pub made_dir : Bool
  pub ckpt_readable : Bool
  pub read : ReadIo
  pub opened : Bool

-- `openWAL`. Opening with O_CREATE makes a missing log.
unfoldable pub open_wal : Codec → OpenIo → Disk → Result Store
open_wal c io d =
    if io.made_dir
    then elim (read_checkpoint c io.ckpt_readable d.ckpt) [
      | err e ↦ err e
      | ok checkpoint ↦ elim (read_records c io.read d.log) [
        | err e ↦ err e
        | ok (records, size) ↦
            if io.opened
            then ok (record {
              wal = record {
                file = live;
                size = size;
                seq = last_seq 0 records;
                checkpoint = checkpoint;
                acked = [];
                pending = past checkpoint records;
              };
              disk = record d { log = some (contents d.log) };
            })
            else err (wrap "opening wal log" (external "open"))
      ]
    ]
    else err (wrap "creating wal dir" (external "mkdir"))

-- `recover`: the records to replay, once.
unfoldable pub recover : Store → List WalRecord × Store
recover s = (s.wal.pending, record s { wal = record s.wal { pending = [] } })
