-- ===== src/Wal/Recovery/Ack.antt =====
-- `ack` (internal/storage/loki/wal.go) against the invariant of the log.
use alertsnitch.Base.{
  ℕ, ◌≤◌, ◌<◌, ◌≡◌, refl, inl, inr, some, true, false, List, [], ◌∷◌, arith, ok, ltb, Bool-cases,
  All, Any, lt→ltb,
}
use alertsnitch.Wal.{WalRecord, Store, Codec, CodecLaws}
use alertsnitch.Wal.Frame.RoundTrip.{IsLog}
use alertsnitch.Wal.Checkpoint.{is_acked, read_checkpoint}
use alertsnitch.Wal.Compaction.{IsReadable}
use alertsnitch.Wal.Recovery.{IsSound, Protects}
use alertsnitch.Wal.Ops.{AckIo, contents, ack, past}
use alertsnitch.Wal.Recovery.Moves.{
  Acknowledges, ack-Acknowledges, t_below, t_above, t_known, t_unacked,
}

module _ {c : Codec} (laws : CodecLaws c) (io : AckIo) (readable : IsReadable io.compaction)
    (seqs : List ℕ) (s : Store) (fits : All (λ x. x ≤ s.wal.seq) seqs) (k : IsSound c s)
    {s' : Store} (a : Acknowledges c k.records seqs s s') where
  open a use {middle, moves, persists}

  ckpt_after : (p : ℕ) × (read_checkpoint c true s'.disk.ckpt ≡ ok p) × (p ≤ s'.wal.checkpoint)
  ckpt_after = elim persists.ckpt [
    | inl same ↦ (
      k.persisted,
      rw (same, moves.disk) k.ckpt,
      omega (arith, k.lags, moves.advances.grows, persists.checkpoint),
    )
    | inr new ↦ (
      middle.wal.checkpoint,
      rw new (scanned middle.wal.checkpoint (laws.scans _ moves.advances.below)),
      omega (arith, persists.checkpoint),
    )
  ]
    where
      scanned :
          (n : ℕ) → c.scan (c.format n) ≡ some n → read_checkpoint c true (some (c.format n)) ≡ ok n
      scanned n e = unfold read_checkpoint in rw e

  sound_with : (rs : List WalRecord) → IsLog c (contents s'.disk.log) rs → IsSound c s'
  sound_with rs l = record {
    records = rs;
    persisted = ckpt_after.0;
    log = l;
    ckpt = ckpt_after.1;
    lags = ckpt_after.2;
    below = rw (persists.checkpoint, persists.seq) (t_below laws s k seqs middle moves fits);
    bound = rw (persists.seq, moves.seq) k.bound;
    above = λ q. rw (persists.acked, persists.checkpoint) (t_above laws s k seqs middle moves q);
    known = λ q. rw (persists.acked, persists.seq) (t_known laws s k seqs middle moves fits q);
    gap = rw (persists.acked, persists.checkpoint) moves.advances.stopped;
  }

  Acknowledges-IsSound : IsSound c s'
  Acknowledges-IsSound = elim persists.log [ inl l ↦ sound_with _ l | inr l ↦ sound_with _ l ]

pub past-Any :
    (k : ℕ) (r : WalRecord) (rs : List WalRecord)
    → k < r.seq
    → Any (λ x. x ≡ r) rs
    → Any (λ x. x ≡ r) (past k rs)
unfolding past
past-Any k r [] h a = a
past-Any k r (x ∷ xs) h (inl e) = rw (e, lt→ltb k r.seq h) (inl refl)
past-Any k r (x ∷ xs) h (inr a) = elim (Bool-cases (ltb k x.seq)) [
  | inl b ↦ rw b (inr (past-Any k r xs h a))
  | inr b ↦ rw b (past-Any k r xs h a)
]

module _ {c : Codec} (laws : CodecLaws c) (io : AckIo) (readable : IsReadable io.compaction)
    (seqs : List ℕ) (s : Store) (fits : All (λ x. x ≤ s.wal.seq) seqs) where
  -- An acknowledgement of numbers that were given out keeps the invariant, whether its writes and its
  -- compaction succeed or fail, so long as no I/O error meets the compaction's read.
  pub ack-IsSound : IsSound c s → IsSound c (ack c io seqs s).1
  ack-IsSound k =
      Acknowledges-IsSound laws io readable seqs s fits k
        (ack-Acknowledges laws io readable seqs s k)

  Acknowledges-Protects :
      (r : WalRecord) {s' : Store}
      → is_acked seqs r.seq ≡ false
      → (p : Protects c r s) → Acknowledges c p.sound.records seqs s s'
      → Protects c r s'
  unfolding Acknowledges-IsSound sound_with
  Acknowledges-Protects r {s'} other p a =
      let m = a.middle in
      let (unacked, waits) =
        t_unacked laws s p.sound seqs m a.moves r.seq other p.unacked p.waits in
      let given : r.seq ≤ s'.wal.seq = omega (arith, a.persists.seq, a.moves.seq, p.given) in
      let unacked' : is_acked s'.wal.acked r.seq ≡ false = rw a.persists.acked unacked in
      let waits' : s'.wal.checkpoint < r.seq = rw a.persists.checkpoint waits in
      elim a.persists.log [
        | inl l ↦ record {
          sound = sound_with laws io readable seqs s fits p.sound a _ l;
          present = p.present;
          unacked = unacked';
          waits = waits';
          given = given;
        }
        | inr l ↦ record {
          sound = sound_with laws io readable seqs s fits p.sound a _ l;
          present = past-Any m.wal.checkpoint r _ waits p.present;
          unacked = unacked';
          waits = waits';
          given = given;
        }
      ]

  -- Under the same conditions it keeps, in the log and unacknowledged, every record whose number it
  -- does not name.
  pub ack-Protects :
      (r : WalRecord)
      → is_acked seqs r.seq ≡ false
      → Protects c r s
      → Protects c r (ack c io seqs s).1
  ack-Protects r other p =
      Acknowledges-Protects r other p (ack-Acknowledges laws io readable seqs s p.sound)
