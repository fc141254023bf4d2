-- ===== src/Wal/Recovery/Replay.antt =====
-- A start after a crash: which records `openWAL` queues for replay.
use alertsnitch.Base.{
  ℕ, ltb, if◌then◌else◌, ◌∷◌, Result, ◌+◌, ◌≤◌, ◌<◌, ◌≡◌, refl, inl, inr, some, Bool, true, false,
  List, [], arith, Labels, Time, ok, u64_mod, length, All, Any, Bool-cases,
}
use alertsnitch.Alert.{AlertGroup}
use alertsnitch.Wal.{WalRecord, LogFile, no_file, live, Store, Disk, Codec, CodecLaws}
use alertsnitch.Wal.Frame.{in_full, read_records}
use alertsnitch.Wal.Frame.RoundTrip.{IsLog}
use alertsnitch.Wal.Checkpoint.{is_acked, read_checkpoint}
use alertsnitch.Wal.Durable.{IsWhole, record_of, append-Effect}
use alertsnitch.Wal.Compaction.{IsReadable, read_contents}
use alertsnitch.Wal.Recovery.{IsSound, Protects, Effect-Protects, Effect-Protects_new}
use alertsnitch.Wal.Recovery.Ack.{ack-Protects, past-Any}
use alertsnitch.Wal.Ops.{
  AppendIo, AckIo, OpenIo, contents, append, ack, close, past, last_seq, open_wal, recover, is_nil,
}

-- A start at which every system call succeeds.
abbrev pub all_well : OpenIo
all_well = record { made_dir = true; ckpt_readable = true; read = in_full; opened = true }

-- The store that `openWAL` returns for the records read from `size` bytes of the log, and the checkpoint
-- on disk.
abbrev pub opened_at : Disk → List WalRecord → ℕ → ℕ → Store
opened_at d rs size persisted = record {
  wal = record {
    file = live;
    size = size;
    seq = last_seq 0 rs;
    checkpoint = persisted;
    acked = [];
    pending = past persisted rs;
  };
  disk = record d { log = some (contents d.log) };
}

-- That store for a log of whole entries.
abbrev pub opened : Disk → List WalRecord → ℕ → Store
opened d rs persisted = opened_at d rs (length (contents d.log)) persisted

-- `openWAL` on a log of which it reads these records, with this checkpoint.
pub opened_at_lem :
    (c : Codec) (d : Disk) (rs : List WalRecord) (size p : ℕ)
    → read_checkpoint c true d.ckpt ≡ ok p
    → read_records c in_full d.log ≡ ok (rs, size)
    → open_wal c all_well d ≡ ok (opened_at d rs size p)
unfolding open_wal
opened_at_lem c d rs size p ckpt reads = rw (ckpt, open_wal) (rw (reads) refl)

-- The store of a start is the one that `openWAL` returns.
pub started_as : {r : Result Store} {s t : Store} → r ≡ ok t → r ≡ ok s → t ≡ s
started_as h h' = cc (h, h')

pub last_seq_le : (m : ℕ) (rs : List WalRecord) → m ≤ last_seq m rs
unfolding last_seq
last_seq_le m [] = omega arith
last_seq_le m (r ∷ rs) = ground (arith, last_seq_le (if ltb m r.seq then r.seq else m) rs)

-- Between any two calls the files are such that a start replays exactly the records past the
-- persisted checkpoint, in order.
pub open_wal-IsSound :
    {c : Codec} (s : Store) (k : IsSound c s)
    → open_wal c all_well s.disk ≡ ok (opened s.disk k.records k.persisted)
unfolding open_wal
open_wal-IsSound {c} s k = rw (k.ckpt, open_wal) (rw (read_contents c s.disk.log k.log))

-- A call that changes at most the handle, the size and the records to replay.
abbrev resized : LogFile → ℕ → List WalRecord → Store → Store
resized f size pending s = record s {
  wal = record s.wal { file = f; size = size; pending = pending };
}

module _ {c : Codec} (f : LogFile) (size : ℕ) (pending : List WalRecord) (s : Store) where
  resized-IsSound : IsSound c s → IsSound c (resized f size pending s)
  resized-IsSound k = record {
    records = k.records;
    persisted = k.persisted;
    log = k.log;
    ckpt = k.ckpt;
    lags = k.lags;
    below = k.below;
    bound = k.bound;
    above = k.above;
    known = k.known;
    gap = k.gap;
  }

  resized-Protects : {r : WalRecord} → Protects c r s → Protects c r (resized f size pending s)
  unfolding resized-IsSound
  resized-Protects p = record {
    sound = resized-IsSound p.sound;
    present = p.present;
    unacked = p.unacked;
    waits = p.waits;
    given = p.given;
  }

pub seq-close : (synced closed : Bool) (s : Store) → (close synced closed s).1.wal.seq ≡ s.wal.seq
unfolding close
seq-close synced closed s = elim (Bool-cases (is_nil s.wal.file)) [
  | inl b ↦ rw (b, close) refl
  | inr b ↦ rw (b, close) refl
]

pub recover-IsSound : {c : Codec} (s : Store) → IsSound c s → IsSound c (recover s).1
unfolding recover
recover-IsSound s k = resized-IsSound s.wal.file s.wal.size [] s k

module _ {c : Codec} (synced closed : Bool) (s : Store) where
  pub close-IsSound : IsSound c s → IsSound c (close synced closed s).1
  unfolding close
  close-IsSound k = elim (Bool-cases (is_nil s.wal.file)) [
    | inl b ↦ rw (b, close) k
    | inr b ↦ rw (b, close) (resized-IsSound no_file 0 s.wal.pending s k)
  ]

-- One call, while number `n` is never acknowledged. Every outcome of its system calls is a step but
-- a torn write and an I/O error in the middle of a compaction's read.
pub data Step (c : Codec) (n : ℕ) : Store → Store → Type 0 where
  appends :
      (io : AppendIo) (g : AlertGroup) (l : Labels) (at : Time) (s : Store)
      → IsWhole io
      → s.wal.seq + 1 < u64_mod
      → Step c n s (append c io g l at s).1
  acks :
      (io : AckIo) (seqs : List ℕ) (s : Store)
      → IsReadable io.compaction
      → All (λ x. x ≤ s.wal.seq) seqs
      → is_acked seqs n ≡ false
      → Step c n s (ack c io seqs s).1
  closes : (synced closed : Bool) (s : Store) → Step c n s (close synced closed s).1
  recovers : (s : Store) → Step c n s (recover s).1

pub data Reach (c : Codec) (n : ℕ) (s : Store) : Store → Type 0 where
  here : Reach c n s s
  next : {t u : Store} → Reach c n s t → Step c n t u → Reach c n s u

module _ {c : Codec} (laws : CodecLaws c) (r : WalRecord) where
  pub close-Protects :
      (synced closed : Bool) (s : Store) → Protects c r s → Protects c r (close synced closed s).1
  unfolding close
  close-Protects synced closed s p = elim (Bool-cases (is_nil s.wal.file)) [
    | inl b ↦ rw (b, close) p
    | inr b ↦ rw (b, close) (resized-Protects no_file 0 s.wal.pending s p)
  ]

  pub recover-Protects : (s : Store) → Protects c r s → Protects c r (recover s).1
  unfolding recover
  recover-Protects s p = resized-Protects s.wal.file s.wal.size [] s p

  pub Step-Protects : {s t : Store} → Step c r.seq s t → Protects c r s → Protects c r t
  Step-Protects (appends io g l at s whole room) p =
      Effect-Protects room (append-Effect laws io whole g l at s p.sound.bound) p
  Step-Protects (acks io seqs s readable fits other) p =
      ack-Protects laws io readable seqs s fits r other p
  Step-Protects (closes synced closed s) p = close-Protects synced closed s p
  Step-Protects (recovers s) p = recover-Protects s p

  pub Reach-Protects : {s t : Store} → Protects c r s → Reach c r.seq s t → Protects c r t
  Reach-Protects p here = p
  Reach-Protects p (next w st) = Step-Protects st (Reach-Protects p w)

-- What a start finds: the store and, in its records to replay, the record.
pub record Replays (c : Codec) (r : WalRecord) (d : Disk) : Type 0 where
  pub store : Store
  pub opens : open_wal c all_well d ≡ ok store
  pub queued : Any (λ x. x ≡ r) store.wal.pending

-- A protected record is replayed by a start after a crash.
pub Protects-Replays : {c : Codec} {r : WalRecord} {s : Store} → Protects c r s → Replays c r s.disk
Protects-Replays {r = r} {s = s} p = record {
  store = opened s.disk p.sound.records p.sound.persisted;
  opens = open_wal-IsSound s p.sound;
  queued = past-Any p.sound.persisted r _ (omega (arith, p.sound.lags, p.waits)) p.present;
}

-- Durability. In a log that satisfies the invariant, with the numbers below 2 ^ 64, let an append that
-- tears no frame return a number, and let any calls follow, of which some may fail, but none tears a
-- frame, none meets an I/O error while a compaction reads, and none acknowledges that number. A crash
-- may come at any point: a start at which every system call succeeds queues for replay the record that
-- was appended, as JSON stores it.
pub append-durable :
    {c : Codec}
    → CodecLaws c
    → (io : AppendIo) (g : AlertGroup) (l : Labels) (at : Time) (s : Store) (n : ℕ) → IsWhole io
    → s.wal.seq + 1 < u64_mod
    → IsSound c s
    → (append c io g l at s).0 ≡ ok n
    → {t : Store} → Reach c (c.stored (record_of s g l at)).seq (append c io g l at s).1 t
    → Replays c (c.stored (record_of s g l at)) t.disk
append-durable {c} laws io g l at s n whole room k done reach = Protects-Replays (
    Reach-Protects laws (c.stored (record_of s g l at))
      (Effect-Protects_new laws n room refl done (append-Effect laws io whole g l at s k.bound) k)
      reach)

-- A start whose log reaches at least the persisted checkpoint begins with the invariant.
unfoldable pub opened-IsSound :
    {c : Codec} (d : Disk) (rs : List WalRecord) (p : ℕ)
    → IsLog c (contents d.log) rs
    → read_checkpoint c true d.ckpt ≡ ok p
    → p ≤ last_seq 0 rs
    → last_seq 0 rs < u64_mod
    → IsSound c (opened d rs p)
unfolding is_acked
opened-IsSound d rs p log ckpt high bound = record {
  records = rs;
  persisted = p;
  log = log;
  ckpt = ckpt;
  lags = omega arith;
  below = high;
  bound = bound;
  above = λ q a. cc (a);
  known = λ q a. cc (a);
  gap = refl;
}
