-- ===== src/Wal.antt =====
-- The data of the write-ahead log (internal/storage/loki/wal.go): records, the in-memory state, the
-- two files, and what the code takes from encoding/json and fmt. `Frame` is the byte format,
-- `Checkpoint` the acknowledgements, `Ops` the operations; the other children prove.
pub mod Frame
pub mod Checkpoint
pub mod Ops
pub mod Acked
pub mod Durable
pub mod Compaction
pub mod Recovery
pub mod Faults
use alertsnitch.Base.{
  ℕ, ◌*◌, ◌^◌, ◌≤◌, ◌<◌, ◌≡◌, Option, some, List, String, Bytes, Labels, Time, Result, ok, Error,
  message, u64_mod, length,
}
use alertsnitch.Alert.{AlertGroup}

-- One durably logged alert group that awaits delivery.
pub record WalRecord : Type 0 where
  pub seq : ℕ
  pub group : AlertGroup
  pub extra_labels : Labels
  pub received_at : Time

-- `*os.File`: nil, open, or closed (every later use of it fails).
pub data LogFile : Type 0 where
  no_file live broken : LogFile

-- The in-memory state of `wal`; `dir` is fixed, and `acked` holds the keys that map to true.
pub record Wal : Type 0 where
  pub file : LogFile
  pub size : ℕ
  pub seq : ℕ
  pub checkpoint : ℕ
  pub acked : List ℕ
  pub pending : List WalRecord

-- The files `wal.log` and `wal.ckpt`, `none` where the file is not there.
pub record Disk : Type 0 where
  pub log : Option Bytes
  pub ckpt : Option Bytes

-- A log in use: its memory and its files. A crash loses the memory.
pub record Store : Type 0 where
  pub wal : Wal
  pub disk : Disk

-- walMaxRecordLen and walCompactBytes
abbrev pub max_record_len : ℕ
max_record_len = 8 * 2 ^ 20

abbrev pub compact_bytes : ℕ
compact_bytes = 8 * 2 ^ 20

abbrev pub wal_closed : Error
wal_closed = message "loki wal is closed"

-- json.Marshal and json.Unmarshal of a record, fmt.Sprintf("%d") and fmt.Sscanf("%d").
-- `stored r` is what a record becomes on its way through JSON: keys in order, no monotonic clock.
pub record Codec : Type 0 where
  pub marshal : WalRecord → Result Bytes
  pub unmarshal : Bytes → Option WalRecord
  pub stored : WalRecord → WalRecord
  pub format : ℕ → Bytes
  pub scan : Bytes → Option ℕ

-- What the log relies on of them: JSON decodes what it encoded, keeps numbers, encodes again what
-- it decoded in no more bytes, and never writes nothing; a decimal `uint64` reads back.
pub record CodecLaws (c : Codec) : Type 0 where
  pub decodes : (r : WalRecord) (b : Bytes) → c.marshal r ≡ ok b → c.unmarshal b ≡ some (c.stored r)
  pub keeps_seq : (r : WalRecord) → (c.stored r).seq ≡ r.seq
  pub stable : (r : WalRecord) → c.stored (c.stored r) ≡ c.stored r
  pub encodes_again :
      (r : WalRecord) (b : Bytes)
      → c.marshal r ≡ ok b
      → (b' : Bytes) × (c.marshal (c.stored r) ≡ ok b') × (length b' ≤ length b)
  pub not_empty : (r : WalRecord) (b : Bytes) → c.marshal r ≡ ok b → 0 < length b
  pub scans : (n : ℕ) → n < u64_mod → c.scan (c.format n) ≡ some n
