-- ===== src/Wal/Durable.antt =====
-- The effect of `append` (internal/storage/loki/wal.go) on the files and the memory.
use alertsnitch.Base.{
  ℕ, ◌≤◌, ◌<◌, ◌≡◌, ◌⊎◌, refl, inl, inr, some, ◌++◌, arith, Bytes, Labels, Time, Result, ok,
  u64_mod, inc_u64, dec_u64, dec_u64-inc_u64, ltb, length, Bool-cases, Option-cases, Result-cases,
  ltb→le, append-nil,
}
use alertsnitch.Alert.{AlertGroup}
use alertsnitch.Wal.{
  WalRecord, LogFile, no_file, live, broken, Store, Codec, CodecLaws, max_record_len,
}
use alertsnitch.Wal.Frame.{frame}
use alertsnitch.Wal.Frame.RoundTrip.{IsEntry}
use alertsnitch.Wal.Ops.{AppendIo, contents, is_nil, write_frame, append_record, append}

-- What JSON makes of a record that fits is an entry of the log.
pub IsEntry-marshal :
    {c : Codec}
    → CodecLaws c
    → (r : WalRecord) (body : Bytes) → c.marshal r ≡ ok body
    → length body ≤ max_record_len
    → IsEntry c body (c.stored r)
IsEntry-marshal laws r body m fits =
    let (again, encoded, shorter) = laws.encodes_again r body m in
    record {
      nonempty = laws.not_empty r body m;
      fits = fits;
      decoded = laws.decodes r body m;
      settled = laws.stable r;
      again = again;
      encoded = encoded;
      again_fits = omega arith;
    }

-- What an append leaves alone on every branch.
pub record Same (s s' : Store) : Type 0 where
  pub file : s'.wal.file ≡ s.wal.file
  pub pending : s'.wal.pending ≡ s.wal.pending
  pub checkpoint : s'.wal.checkpoint ≡ s.wal.checkpoint
  pub acked : s'.wal.acked ≡ s.wal.acked
  pub ckpt : s'.disk.ckpt ≡ s.disk.ckpt

abbrev pub record_of : Store → AlertGroup → Labels → Time → WalRecord
record_of s group extra_labels received_at = record {
  seq = inc_u64 s.wal.seq;
  group = group;
  extra_labels = extra_labels;
  received_at = received_at;
}

-- The effect of an append on the files and the counter: none, or one more entry, with the number
-- taken (when it was synced) or given back.
pub data Effect (c : Codec) (s : Store) (r : WalRecord) (s' : Store) (n : Result ℕ) : Type 0 where
  nothing :
      Same s s'
      → contents s'.disk.log ≡ contents s.disk.log
      → s'.wal.size ≡ s.wal.size
      → s'.wal.seq ≡ s.wal.seq
      → ((q : ℕ) → n ≡ ok q → ⊥)
      → Effect c s r s' n
  logged :
      (body : Bytes)
      → Same s s'
      → IsEntry c body (c.stored r)
      → contents s'.disk.log ≡ contents s.disk.log ++ frame body
      → ((s'.wal.seq ≡ s.wal.seq) × ((q : ℕ) → n ≡ ok q → ⊥))
        ⊎ ((s'.wal.seq ≡ inc_u64 s.wal.seq) × (n ≡ ok (inc_u64 s.wal.seq)))
      → Effect c s r s' n

-- The number of an append that succeeds is the next one.
pub Effect-number :
    {c : Codec} {s s' : Store} {r : WalRecord} {n : Result ℕ} {q : ℕ}
    → Effect c s r s' n
    → n ≡ ok q
    → q ≡ inc_u64 s.wal.seq
Effect-number {q = q} (nothing same e size seq no_) h = absurd (no_ q h)
Effect-number {q = q} (logged body same entry e (inl (seq, no_))) h = absurd (no_ q h)
Effect-number (logged body same entry e (inr (seq, done))) h = cc (h, done)

-- A write that fails leaves nothing of its frame behind.
abbrev pub IsWhole : AppendIo → Type 0
IsWhole io = (n : ℕ) → io.fails_after ≡ some n → n ≡ 0

module _ {c : Codec} (laws : CodecLaws c) (io : AppendIo) (whole : IsWhole io) (g : AlertGroup)
    (l : Labels) (at : Time) (s : Store) (bound : s.wal.seq < u64_mod) where
  abbrev taken : Store
  taken = record s { wal = record s.wal { seq = inc_u64 s.wal.seq } }

  returned : dec_u64 (inc_u64 s.wal.seq) ≡ s.wal.seq
  returned = dec_u64-inc_u64 s.wal.seq bound

  write_frame-Effect :
      (f : LogFile) (body : Bytes)
      → IsEntry c body (c.stored (record_of s g l at))
      → Effect c s
          (record_of s g l at)
          (write_frame io (frame body) f taken).1
          (write_frame io (frame body) f taken).0
  unfolding write_frame
  write_frame-Effect no_file body e =
      nothing (record { file = refl; pending = refl; checkpoint = refl; acked = refl; ckpt = refl })
        refl refl returned (λ q h. cc)
  write_frame-Effect broken body e =
      nothing (record { file = refl; pending = refl; checkpoint = refl; acked = refl; ckpt = refl })
        refl refl returned (λ q h. cc)
  write_frame-Effect live body e = elim (Option-cases io.fails_after) [
    | inr (n, fails) ↦
        rw (fails, whole n fails)
          (nothing
            (record { file = refl; pending = refl; checkpoint = refl; acked = refl; ckpt = refl })
            (append-nil (contents s.disk.log)) refl returned (λ q h. cc))
    | inl fine ↦ rw fine (elim (Bool-cases io.synced) [
      | inl synced ↦ rw synced (
          logged body
            (record { file = refl; pending = refl; checkpoint = refl; acked = refl; ckpt = refl }) e
            refl (inr (refl, refl)))
      | inr lost ↦ rw lost (
          logged body
            (record { file = refl; pending = refl; checkpoint = refl; acked = refl; ckpt = refl }) e
            refl (inl (returned, λ q h. cc)))
    ])
  ]

  append_record-Effect :
      Effect c s
        (record_of s g l at)
        (append_record c io g l at s).1
        (append_record c io g l at s).0
  unfolding append_record
  append_record-Effect = elim (Result-cases (c.marshal (record_of s g l at))) [
    | inr (x, fails) ↦
        rw (fails, append_record)
          (nothing
            (record { file = refl; pending = refl; checkpoint = refl; acked = refl; ckpt = refl })
            refl refl returned (λ q h. cc))
    | inl (body, m) ↦
        rw (m, append_record)
          (elim (Bool-cases (ltb max_record_len (length body))) [
            | inl large ↦ rw large (
                nothing
                  (record {
                    file = refl;
                    pending = refl;
                    checkpoint = refl;
                    acked = refl;
                    ckpt = refl;
                  })
                  refl refl returned (λ q h. cc))
            | inr fits ↦ rw fits (
                write_frame-Effect s.wal.file body
                  (IsEntry-marshal laws _ body m (ltb→le _ _ fits)))
          ])
  ]

  -- An append that tears no frame, while the numbers are below 2 ^ 64, whichever of its steps fails,
  -- leaves the handle, the checkpoint, the acknowledged numbers and the records to replay alone. Either
  -- it leaves the log, its size and the counter alone too and returns an error, or it puts exactly one
  -- frame of its record behind the log; then it returns its number, or it returns an error and gives it
  -- back.
  pub append-Effect :
      Effect c s (record_of s g l at) (append c io g l at s).1 (append c io g l at s).0
  unfolding append
  append-Effect = elim (Bool-cases (is_nil s.wal.file)) [
    | inl closed ↦
        rw (closed, append)
          (nothing
            (record { file = refl; pending = refl; checkpoint = refl; acked = refl; ckpt = refl })
            refl refl refl (λ q h. cc))
    | inr open_ ↦ rw (open_, append) append_record-Effect
  ]
