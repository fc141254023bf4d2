-- ===== src/Batch/Live/Logged/Restart.antt =====
-- A batch processor that starts on what a crash has left (`New` of internal/storage/loki/client.go,
-- `openWAL` of wal.go, `replay` of batch.go).
use alertsnitch.Base.{
  ℕ, ◌+◌, ◌≤◌, ◌<◌, ◌≡◌, refl, inl, inr, some, List, [], ◌∷◌, map, arith, ok, u64_mod, ltb,
  if◌then◌else◌, All, Any, Bool-cases, true, ap, ltb→lt,
}
use alertsnitch.Metrics.{Metrics}
use alertsnitch.Wal.{WalRecord, Store, Disk, Codec, CodecLaws}
use alertsnitch.Wal.Frame.RoundTrip.{IsLog}
use alertsnitch.Wal.Checkpoint.{is_acked, read_checkpoint}
use alertsnitch.Wal.Ops.{contents, past, last_seq, open_wal, recover}
use alertsnitch.Wal.Recovery.{IsSound}
use alertsnitch.Wal.Compaction.{read_contents}
use mathlib.Core.Path.{subst}
use alertsnitch.Wal.Recovery.Replay.{
  all_well, opened, opened_at_lem, started_as, last_seq_le, opened-IsSound, recover-IsSound,
  recover-Protects, Replays, Protects-Replays,
}
use alertsnitch.Batch.Enqueue.{requeued}
use alertsnitch.Batch.Live.{Live, Action, started, run}
use alertsnitch.Batch.Live.Weights.{weight}
use alertsnitch.Batch.Live.Logged.{is_number, standing, InOrder, Holds, IsClean}
use alertsnitch.Batch.Live.Logged.Durable.{room_for, run-Held}

-- No record has a number past the last one.
weight-past :
    (p m n : ℕ) (rs : List WalRecord)
    → last_seq m rs < n
    → weight (is_number n) (map requeued (past p rs)) ≡ 0
unfolding past last_seq
weight-past p m n [] h = refl
weight-past p m n (r ∷ rs) h =
    let m' : ℕ = if ltb m r.seq then r.seq else m in
    let rest = weight-past p m' n rs h in
    let high : r.seq ≤ m' = ground arith in
    let other : r.seq < n = omega (arith, high, last_seq_le m' rs, h) in
    elim (Bool-cases (ltb p r.seq)) [
      | inl e ↦ rw e (ground (arith, rest, other))
      | inr e ↦ rw e rest
    ]

past-In :
    (p : ℕ) (r : WalRecord) (rs : List WalRecord)
    → Any (λ x. x ≡ r) (past p rs)
    → (p < r.seq) × Any (λ x. x ≡ r) rs
unfolding past
past-In p r [] a = elim a [ ]
past-In p r (x ∷ rs) a = elim (Bool-cases (ltb p x.seq)) [
  | inl high ↦ elim (rw high at a) [
    | inl e ↦ (omega (arith, ltb→lt p x.seq high, ap (λ y. y.seq) e), inl e)
    | inr b ↦ (let (h, c) = past-In p r rs b in (h, inr c))
  ]
  | inr low ↦ (let (h, c) = past-In p r rs (rw low at a) in (h, inr c))
]

given_last :
    (m : ℕ) (r : WalRecord) (rs : List WalRecord) → Any (λ x. x ≡ r) rs → r.seq ≤ last_seq m rs
unfolding last_seq
given_last m r [] a = elim a [ ]
given_last m r (x ∷ rs) (inl e) =
    ground (arith, last_seq_le (if ltb m x.seq then x.seq else m) rs, ap (λ y. y.seq) e)
given_last m r (x ∷ rs) (inr a) = given_last (if ltb m x.seq then x.seq else m) r rs a

-- What the files have when the processor starts: a log of whole entries, a checkpoint that the log
-- reaches, and room for `k` more numbers.
pub record Leaves (c : Codec) (d : Disk) (rs : List WalRecord) (p k : ℕ) : Type 0 where
  pub log : IsLog c (contents d.log) rs
  pub ckpt : read_checkpoint c true d.ckpt ≡ ok p
  pub high : p ≤ last_seq 0 rs
  pub room : last_seq 0 rs + k < u64_mod

-- The processor that `New` starts with the log that `openWAL` has returned.
unfoldable pub restarted : Store → Metrics → Live
unfolding recover
restarted w m =
    (let (records, w') = recover w in started (record { metrics = m; wal = some w' }) records)

module _ {c : Codec} (laws : CodecLaws c) (d : Disk) (rs : List WalRecord) (p k : ℕ)
    (left : Leaves c d rs p k) (m : Metrics) where
  sound : IsSound c (opened d rs p)
  sound = opened-IsSound d rs p left.log left.ckpt left.high (omega (arith, left.room))

  -- A processor that starts on such files has its log in order.
  pub restarted-InOrder : InOrder c k (restarted (opened d rs p) m)
  unfolding restarted started recover
  restarted-InOrder = record {
    log = (recover (opened d rs p)).1;
    logged = refl;
    sound = recover-IsSound (opened d rs p) sound;
    room = left.room;
    fits = λ n h. omega (arith, weight-past p 0 n rs h);
  }

  restarted-Holds :
      (r : WalRecord)
      → Any (λ x. x ≡ r) (past p rs)
      → weight (is_number r.seq) (map requeued (past p rs)) ≤ 1
      → Holds c r (recover (opened d rs p)).1 (restarted (opened d rs p) m)
  unfolding restarted started recover sound opened-IsSound
  restarted-Holds r a once =
      let (waits, present) = past-In p r rs a in
      record {
        given = given_last 0 r rs present;
        positive = omega (arith, waits);
        once = omega (arith, once);
        kept = λ _. recover-Protects laws r (opened d rs p) (record {
          sound = sound;
          present = present;
          unacked = unfold is_acked in refl;
          waits = waits;
          given = given_last 0 r rs present;
        });
      }

  -- The store that `openWAL` returns for such files.
  opens_as : {w : Store} → open_wal c all_well d ≡ ok w → opened d rs p ≡ w
  opens_as starts =
      started_as (opened_at_lem c d rs _ p left.ckpt (read_contents c d.log left.log)) starts

-- At least once, over a restart. On a log of whole entries that reaches the checkpoint, let a processor
-- start with what `openWAL` returns, every system call of it succeeding, and with room for as many numbers
-- as there will be actions. Under any interleaving that tears no frame and meets no I/O error while a
-- compaction reads, a recovered record whose number no other has, and whose alert is not acknowledged
-- again, is replayed by the next start as well.
pub restarted-Replays :
    {c : Codec}
    → CodecLaws c
    → (size room : ℕ) (actions : List Action) (d : Disk) (rs : List WalRecord) (p : ℕ)
      (left : Leaves c d rs p (room_for actions 0)) (m : Metrics) (r : WalRecord) (w : Store)
    → open_wal c all_well d ≡ ok w
    → All IsClean actions
    → Any (λ x. x ≡ r) (past p rs)
    → weight (is_number r.seq) (map requeued (past p rs)) ≤ 1
    → 0 < standing r.seq (run c size room actions (restarted w m))
    → (log : Store) × ((run c size room actions (restarted w m)).processor.wal ≡ some log)
      × Replays c r log.disk
unfolding restarted-InOrder
restarted-Replays {c} laws size room actions d rs p left m r w starts clean a once =
    let k = room_for actions 0 in
    subst
      (λ t.
        0 < standing r.seq (run c size room actions (restarted t m))
        → (log : Store) × ((run c size room actions (restarted t m)).processor.wal ≡ some log)
          × Replays c r log.disk)
      (opens_as laws d rs p k left m starts)
      (λ h.
        let (log, on, holds) =
          run-Held laws size room r actions (restarted (opened d rs p) m)
            (restarted-InOrder laws d rs p k left m) clean
            (restarted-Holds laws d rs p k left m r a once) in
        (log, on, Protects-Replays (holds.kept h)))
