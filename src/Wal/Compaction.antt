-- ===== src/Wal/Compaction.antt =====
-- `compactLocked` of internal/storage/loki/wal.go: what it leaves in the files.
use alertsnitch.Base.{
  ℕ, suc, sym, ◌≡◌, ◌⊎◌, refl, ◌∙◌, inl, inr, Option, none, some, true, false, ◌&&◌, List, [], ◌++◌,
  arith, Bytes, ok, err, ltb, leb, length, Bool-cases, le→ltb,
}
use alertsnitch.Wal.{WalRecord, Store, Codec, CodecLaws, max_record_len}
use alertsnitch.Wal.Frame.{
  frame, write_record, ReadIo, in_full, open_fails, fails_after, read_records, read_frames,
  read_header,
}
use alertsnitch.Wal.Frame.RoundTrip.{IsEntry, IsLog, nil, cons, read_records-IsLog}
use alertsnitch.Wal.Durable.{IsEntry-marshal}
use alertsnitch.Wal.Ops.{contents, is_nil, is_live, CompactIo, rewrite, swap_log, compact, past}

write_record-entry :
    (c : Codec) (body : Bytes) (r : WalRecord) (e : IsEntry c body r)
    → write_record c r ≡ ok (frame e.again)
unfolding write_record
write_record-entry c body r e =
    rw (e.encoded, write_record) (rw (le→ltb max_record_len (length e.again) e.again_fits))

again-IsEntry :
    {c : Codec}
    → CodecLaws c
    → (body : Bytes) (r : WalRecord) (e : IsEntry c body r) → IsEntry c e.again r
again-IsEntry {c} laws body r e =
    rw e.settled at (IsEntry-marshal laws r e.again e.encoded e.again_fits)

-- The loop of a compaction succeeds on the records of a log, and what it writes is again a log, of
-- exactly the records past the checkpoint, in order.
pub rewrite-IsLog :
    {c : Codec}
    → CodecLaws c
    → (checkpoint : ℕ) {bytes : Bytes} {rs : List WalRecord} → IsLog c bytes rs
    → (out : Bytes) × (rewrite c checkpoint rs ≡ ok out) × IsLog c out (past checkpoint rs)
unfolding rewrite past
rewrite-IsLog laws k nil = ([], refl, nil)
rewrite-IsLog {c} laws k (cons {body = body} {r = r} {rs = rs} e l) =
    let (out, eq, log) = rewrite-IsLog laws k l in
    elim (Bool-cases (ltb k r.seq)) [
      | inl keep ↦
          let keep' : leb r.seq k ≡ false = ground arith in
          (
            frame e.again ++ out,
            rw (keep', write_record-entry c body r e, eq),
            rw keep (cons (again-IsEntry laws body r e) log),
          )
      | inr drop_ ↦
          let drop' : leb r.seq k ≡ true = ground arith in (out, rw (drop', eq), rw drop_ log)
    ]

-- What an acknowledgement leaves in the files: all the records or those past the checkpoint, and
-- a checkpoint that is not ahead of the memory.
pub record Keeps (c : Codec) (rs : List WalRecord) (t t' : Store) : Type 0 where
  pub seq : t'.wal.seq ≡ t.wal.seq
  pub checkpoint : t'.wal.checkpoint ≡ t.wal.checkpoint
  pub acked : t'.wal.acked ≡ t.wal.acked
  pub ckpt : t'.disk.ckpt ≡ t.disk.ckpt
  pub log :
      IsLog c (contents t'.disk.log) rs ⊎ IsLog c (contents t'.disk.log) (past t.wal.checkpoint rs)

-- No I/O error in the middle of a read of the log.
abbrev pub IsReadable : CompactIo → Type 0
IsReadable io = (n : ℕ) → io.read ≡ fails_after n → ⊥

swap_log-Keeps :
    (c : Codec) (io : CompactIo) (out : Bytes) (rs : List WalRecord) (t : Store)
    → IsLog c (contents t.disk.log) rs
    → IsLog c out (past t.wal.checkpoint rs)
    → Keeps c rs t (swap_log io out t).1
unfolding swap_log
swap_log-Keeps c io out rs t old new = elim (Bool-cases (io.closed && is_live t.wal.file)) [
  | inr b ↦
      rw b (record { seq = refl; checkpoint = refl; acked = refl; ckpt = refl; log = inl old })
  | inl b ↦ rw b (elim (Bool-cases io.renamed) [
    | inr b' ↦
        rw b' (record { seq = refl; checkpoint = refl; acked = refl; ckpt = refl; log = inl old })
    | inl b' ↦ rw b' (elim (Bool-cases io.reopened) [
      | inl b'' ↦
          rw b''
            (record { seq = refl; checkpoint = refl; acked = refl; ckpt = refl; log = inr new })
      | inr b'' ↦
          rw b''
            (record { seq = refl; checkpoint = refl; acked = refl; ckpt = refl; log = inr new })
    ])
  ])
]

-- A missing log reads like an empty one.
pub read_any :
    (c : Codec) (file : Option Bytes)
    → read_records c in_full file
      ≡ read_frames c false (suc (length (contents file))) (contents file)
unfolding read_records read_frames read_header
read_any c none = refl
read_any c (some bytes) = refl

-- A log that is there or not reads back whole.
pub read_contents :
    (c : Codec) (file : Option Bytes) {rs : List WalRecord}
    → IsLog c (contents file) rs
    → read_records c in_full file ≡ ok (rs, length (contents file))
read_contents c file l =
    read_any c file ∙ (sym (read_any c (some (contents file))) ∙ read_records-IsLog c l)

module _ {c : Codec} (laws : CodecLaws c) (rs : List WalRecord) (t : Store) where
  untouched : IsLog c (contents t.disk.log) rs → Keeps c rs t t
  untouched l = record { seq = refl; checkpoint = refl; acked = refl; ckpt = refl; log = inl l }

  compact_readable :
      (io : CompactIo)
      → io.read ≡ in_full
      → IsLog c (contents t.disk.log) rs
      → is_nil t.wal.file ≡ false
      → Keeps c rs t (compact c io t).1
  unfolding compact swap_log
  compact_readable io whole l open_ =
      let (out, eq, new) = rewrite-IsLog laws t.wal.checkpoint l in
      rw (open_, compact)
        (rw (whole, read_contents c t.disk.log l)
          (elim (Bool-cases io.created) [
            | inr b ↦ rw b (untouched l)
            | inl b ↦ rw b (
                rw eq (elim (Bool-cases io.wrote) [
                  | inr b' ↦ rw b' (untouched l)
                  | inl b' ↦ rw b' (elim (Bool-cases io.synced) [
                    | inr b'' ↦ rw b'' (untouched l)
                    | inl b'' ↦ rw b'' (swap_log-Keeps c io out rs t l new)
                  ])
                ]))
          ]))

  open_failure : (file : Option Bytes) → (e : _) × (read_records c open_fails file ≡ err e)
  unfolding read_records
  open_failure none = (_, refl)
  open_failure (some bytes) = (_, refl)

  compact_by_read :
      (io : CompactIo) (read : ReadIo)
      → io.read ≡ read
      → IsReadable io
      → IsLog c (contents t.disk.log) rs
      → is_nil t.wal.file ≡ false
      → Keeps c rs t (compact c io t).1
  unfolding compact
  compact_by_read io in_full e readable l open_ = compact_readable io e l open_
  compact_by_read io (fails_after n) e readable l open_ = absurd (readable n e)
  compact_by_read io open_fails e readable l open_ =
      rw (open_, compact) (rw (e, (open_failure t.disk.log).1) (untouched l))

  -- A compaction that can read the log, whichever other step of it fails, leaves in the log all its
  -- records or exactly those past the checkpoint.
  pub compact-Keeps :
      (io : CompactIo)
      → IsReadable io
      → IsLog c (contents t.disk.log) rs
      → Keeps c rs t (compact c io t).1
  unfolding compact
  compact-Keeps io readable l = elim (Bool-cases (is_nil t.wal.file)) [
    | inl closed ↦ rw (closed, compact) (untouched l)
    | inr open_ ↦ compact_by_read io io.read refl readable l open_
  ]
