-- ===== src/Wal/Faults.antt =====
-- Starts and faults of internal/storage/loki/wal.go outside the invariant of the log: a log that ends
-- below the checkpoint, a torn frame that is appended to, an I/O error in a compaction.
use mathlib.Core.Path.{subst, sym}
use alertsnitch.Base.{
  ℕ, suc, ◌+◌, ◌≤◌, ◌<◌, ◌≡◌, refl, ap, ◌∙◌, none, some, true, false, List, [], ◌∷◌, ◌++◌,
  append_assoc, append-nil, Option, if◌then◌else◌, arith, Bytes, Labels, Time, Result, ok, u64_mod,
  ltb, ◌==◌, length, take, le→ltb, lt→ltb, length-append, length-take,
}
use alertsnitch.Alert.{AlertGroup}
use alertsnitch.Wal.{WalRecord, live, Store, Disk, Codec, CodecLaws, max_record_len}
use alertsnitch.Wal.Frame.{put_u32, frame, in_full, fails_after, read_frames, read_records}
use alertsnitch.Wal.Frame.RoundTrip.{IsLog, IsLog-append, read_frames-IsLog, read_header-length}
use alertsnitch.Wal.Checkpoint.{read_checkpoint}
use alertsnitch.Wal.Durable.{Effect, nothing, logged, IsWhole, record_of, append-Effect}
use alertsnitch.Wal.Compaction.{read_any, read_contents}
use alertsnitch.Wal.Recovery.Replay.{
  all_well, opened, opened_at, opened_at_lem, started_as, last_seq_le,
}
use alertsnitch.Wal.Ops.{
  AppendIo, CompactIo, contents, append, compact, past, last_seq, open_wal, rewrite, swap_log,
}

past-append :
    (p : ℕ) (r : WalRecord) (rs : List WalRecord) → r.seq ≤ p → past p (rs ++ r ∷ []) ≡ past p rs
unfolding past
past-append p r [] h = rw (le→ltb p r.seq h)
past-append p r (x ∷ rs) h = rw (past-append p r rs h)

-- Nothing is past a checkpoint that the numbers do not reach.
past-nil : (p m : ℕ) (rs : List WalRecord) → last_seq m rs ≤ p → past p rs ≡ []
unfolding past last_seq
past-nil p m [] h = refl
past-nil p m (r ∷ rs) h =
    let m' : ℕ = if ltb m r.seq then r.seq else m in
    let low : r.seq ≤ p = ground (arith, last_seq_le m' rs, h) in
    rw (le→ltb p r.seq low, past) (past-nil p m' rs h)

-- A start at which every system call succeeds finds these records to replay.
pub record StartsWith (c : Codec) (d : Disk) (rs : List WalRecord) : Type 0 where
  pub store : Store
  pub opens : open_wal c all_well d ≡ ok store
  pub queued : store.wal.pending ≡ rs

module _ {c : Codec} (laws : CodecLaws c) (io : AppendIo) (whole : IsWhole io) (g : AlertGroup)
    (l : Labels) (at : Time) (d : Disk) (rs : List WalRecord) (p : ℕ)
    (log : IsLog c (contents d.log) rs) (ckpt : read_checkpoint c true d.ckpt ≡ ok p)
    (low : last_seq 0 rs + 1 ≤ p) (bound : p < u64_mod) where
  reopen_after :
      {s' : Store} {n : Result ℕ} {q : ℕ}
      → n ≡ ok q
      → Effect c (opened d rs p) (record_of (opened d rs p) g l at) s' n
      → StartsWith c s'.disk []
  reopen_after {q = q} done (nothing same e size seq no_) = absurd (no_ q done)
  reopen_after {s'} done (logged body same entry e seq) =
      let new : WalRecord = c.stored (record_of (opened d rs p) g l at) in
      let log' : IsLog c (contents s'.disk.log) (rs ++ new ∷ []) =
        subst (λ b. IsLog c b (rs ++ new ∷ [])) (sym e) (IsLog-append log entry) in
      let low' : new.seq ≤ p = omega (arith, laws.keeps_seq (record_of (opened d rs p) g l at)) in
      record {
        store = opened s'.disk (rs ++ new ∷ []) p;
        opens =
            opened_at_lem c s'.disk _ _ p (rw same.ckpt ckpt) (read_contents c s'.disk.log log');
        queued = past-append p new rs low' ∙ past-nil p 0 rs (omega (arith, low));
      }

  -- Let a start, at which every system call succeeds, find a log of whole entries that holds only
  -- numbers below the checkpoint (a compaction emptied it), and let an append that tears no frame then
  -- return a number. The next such start succeeds and has nothing to replay, though the record was never
  -- acknowledged.
  pub append-lost :
      (s : Store)
      → open_wal c all_well d ≡ ok s
      → (q : ℕ) → (append c io g l at s).0 ≡ ok q
      → StartsWith c (append c io g l at s).1.disk []
  append-lost s starts =
      subst
        (λ t.
          (q : ℕ) → (append c io g l at t).0 ≡ ok q → StartsWith c (append c io g l at t).1.disk [])
        (started_as (opened_at_lem c d rs _ p ckpt (read_contents c d.log log)) starts)
        (λ q done.
          reopen_after done (append-Effect laws io whole g l at (opened d rs p) (omega arith)))

-- A torn frame takes what is written behind it for its own body, until its length is full.
read_frames-swallow :
    (c : Codec) (f j : ℕ) (body later : Bytes)
    → 0 < length body
    → length body ≤ max_record_len
    → length (take j body ++ later) < length body
    → read_frames c false (suc f) ((put_u32 (length body) ++ take j body) ++ later) ≡ ok ([], 0)
unfolding read_frames
read_frames-swallow c f j body later p fits short =
    let nonzero : (length body == 0) ≡ false = grind arith in
    let fits' : ltb max_record_len (length body) ≡ false = le→ltb _ _ fits in
    let short' : ltb (length (take j body ++ later)) (length body) ≡ true = lt→ltb _ _ short in
    rw
      (
        append_assoc,
        read_header-length (length body) (take j body ++ later) (omega arith),
        read_frames,
      )
      (rw (nonzero, fits', short'))

length-put_u32 : (n : ℕ) (xs ys : Bytes) → length ((put_u32 n ++ xs) ++ ys) ≡ 4 + length (xs ++ ys)
unfolding put_u32
length-put_u32 n xs ys = omega (arith, length-append xs ys)

module _ {c : Codec} (io : AppendIo) (laws : CodecLaws c) (whole : IsWhole io) (g : AlertGroup)
    (l : Labels) (at : Time) (d : Disk) (rs : List WalRecord) (p j : ℕ) (bytes body : Bytes)
    (log : IsLog c bytes rs) (ckpt : read_checkpoint c true d.ckpt ≡ ok p)
    (nonempty : 0 < length body) (fits : length body ≤ max_record_len)
    (torn : d.log ≡ some (bytes ++ (put_u32 (length body) ++ take j body))) (cut : j < length body)
    (bound : last_seq 0 rs < u64_mod) where
  abbrev torn_start : Store
  torn_start = opened_at d rs (length bytes) p

  -- A start reads the whole entries, and stops at the torn frame with what stands behind it.
  reads_torn :
      (file : Option Bytes) (later : Bytes)
      → contents file ≡ bytes ++ ((put_u32 (length body) ++ take j body) ++ later)
      → length (take j body ++ later) < length body
      → read_records c in_full file ≡ ok (rs, length bytes)
  reads_torn file later e short =
      let swallowed : Bytes = (put_u32 (length body) ++ take j body) ++ later in
      let stop : (f : ℕ) → read_frames c false (suc f) swallowed ≡ ok ([], 0) =
        λ f. read_frames-swallow c f j body later nonempty fits short in
      read_any c file
      ∙ (ap (λ x. read_frames c false (suc (length x)) x) e
          ∙ read_frames-IsLog c false swallowed (suc (length (bytes ++ swallowed))) log
              (omega (arith, length-append bytes swallowed)) stop)

  torn_after :
      {s' : Store} {n : Result ℕ} {q : ℕ}
      → n ≡ ok q
      → length (contents s'.disk.log) < length bytes + 4 + length body
      → Effect c torn_start (record_of torn_start g l at) s' n
      → StartsWith c s'.disk torn_start.wal.pending
  torn_after {q = q} done short (nothing same e size seq no_) = absurd (no_ q done)
  torn_after {s'} done short (logged b same entry e seq) =
      let swallowed : Bytes = (put_u32 (length body) ++ take j body) ++ frame b in
      let whole_log : contents s'.disk.log ≡ bytes ++ swallowed =
        e ∙ (ap (λ o. contents o ++ frame b) torn ∙ append_assoc bytes _ (frame b)) in
      let size : length (contents s'.disk.log)
          ≡ length bytes + (4 + length (take j body ++ frame b)) =
        ap length whole_log
        ∙ (length-append bytes swallowed ∙ ap (λ n. length bytes + n) (length-put_u32 _ _ _)) in
      record {
        store = opened_at s'.disk rs (length bytes) p;
        opens =
            opened_at_lem c s'.disk rs (length bytes) p (rw same.ckpt ckpt)
              (reads_torn s'.disk.log (frame b) whole_log (omega arith));
        queued = refl;
      }

  -- Let a start, at which every system call succeeds, find a log of whole entries with a torn frame
  -- behind them, and let an append that tears no frame then return a number, while what stands behind
  -- the announced length of the torn frame is less than that length. The next such start succeeds and
  -- replays what the first one replayed, without the record that the append accepted.
  pub append-lost_behind_torn :
      (s : Store)
      → open_wal c all_well d ≡ ok s
      → (q : ℕ) → (append c io g l at s).0 ≡ ok q
      → length (contents (append c io g l at s).1.disk.log) < length bytes + 4 + length body
      → StartsWith c (append c io g l at s).1.disk s.wal.pending
  append-lost_behind_torn s starts =
      subst
        (λ t.
          (q : ℕ)
          → (append c io g l at t).0 ≡ ok q
          → length (contents (append c io g l at t).1.disk.log) < length bytes + 4 + length body
          → StartsWith c (append c io g l at t).1.disk t.wal.pending)
        (started_as
          (opened_at_lem c d rs (length bytes) p ckpt (
            reads_torn d.log [] (ap contents torn ∙ ap (λ x. bytes ++ x) (sym (append-nil _)))
              (rw append-nil (omega (arith, length-take j body)))))
          starts)
        (λ q done short.
          torn_after done short (append-Effect laws io whole g l at torn_start bound))

-- A compaction of which only the read of the log fails, after `n` bytes.
abbrev pub read_fault : ℕ → CompactIo
read_fault n = record {
  read = fails_after n;
  created = true;
  wrote = true;
  synced = true;
  closed = true;
  renamed = true;
  reopened = true;
}

take-frame :
    (m : ℕ) (body rest : Bytes)
    → take (suc (suc (suc (suc m)))) (frame body ++ rest)
      ≡ put_u32 (length body) ++ take m (body ++ rest)
unfolding frame put_u32
take-frame m body rest = refl

read_records-fault :
    (c : Codec) (m : ℕ) (body rest : Bytes)
    → 0 < length body
    → length body ≤ max_record_len
    → m < length body
    → read_records c (fails_after (suc (suc (suc (suc m))))) (some (frame body ++ rest))
      ≡ ok ([], 0)
unfolding read_records read_frames
read_records-fault c m body rest p fits hi =
    let nonzero : (length body == 0) ≡ false = grind arith in
    let fits' : ltb max_record_len (length body) ≡ false = le→ltb _ _ fits in
    let short : ltb (length (take m (body ++ rest))) (length body) ≡ true =
      lt→ltb _ _ (omega (arith, length-take m (body ++ rest))) in
    rw take-frame (
      rw (read_header-length (length body) (take m (body ++ rest)) (omega arith), read_frames)
        (rw (nonzero, fits', short)))

-- An I/O error while the body of the first record is read counts as the end of the log: a compaction
-- that meets one, with every other call succeeding, returns no error and empties the log, whatever
-- records it held.
pub compact-empties :
    (c : Codec) (s : Store) (body rest : Bytes) (m : ℕ)
    → s.wal.file ≡ live
    → s.disk.log ≡ some (frame body ++ rest)
    → 0 < length body
    → length body ≤ max_record_len
    → m < length body
    → ((compact c (read_fault (suc (suc (suc (suc m))))) s).0 ≡ none)
      × ((compact c (read_fault (suc (suc (suc (suc m))))) s).1.disk.log ≡ some [])
unfolding compact swap_log rewrite
compact-empties c s body rest m file log p fits hi =
    let empty = read_records-fault c m body rest p fits hi in
    (
      rw (file, compact) (rw (log, compact) (rw (empty, file))),
      rw (file, compact) (rw (log, compact) (rw (empty, file))),
    )
