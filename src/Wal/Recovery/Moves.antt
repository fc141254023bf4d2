-- ===== src/Wal/Recovery/Moves.antt =====
-- What an acknowledgement (`ack` of internal/storage/loki/wal.go) does to the memory and to the files.
use alertsnitch.Base.{
  ℕ, ◌≤◌, ◌<◌, ◌≡◌, ◌⊎◌, refl, inl, inr, none, some, true, false, List, [], ◌∷◌, arith, Error, ltb,
  length, Bool-cases, All,
}
use alertsnitch.Wal.{WalRecord, Store, Disk, Codec, CodecLaws, compact_bytes}
use alertsnitch.Wal.Frame.RoundTrip.{IsLog}
use alertsnitch.Wal.Checkpoint.{is_acked, mark, advance, CkptIo, write_checkpoint}
use alertsnitch.Wal.Acked.{Advances, Advances-advance, is_acked-mark}
use alertsnitch.Wal.Compaction.{IsReadable, compact-Keeps}
use alertsnitch.Wal.Recovery.{IsSound}
use alertsnitch.Wal.Ops.{AckIo, contents, persist, ack, past}

-- The memory after `mark` and `advance`, before anything is written.
pub record Moves (seqs : List ℕ) (s t : Store) : Type 0 where
  pub advances :
      Advances s.wal.checkpoint
        (mark s.wal.checkpoint seqs s.wal.acked)
        t.wal.checkpoint
        t.wal.acked
  pub seq : t.wal.seq ≡ s.wal.seq
  pub disk : t.disk ≡ s.disk

-- What `persist` leaves.
pub record Persists (c : Codec) (rs : List WalRecord) (t t' : Store) : Type 0 where
  pub seq : t'.wal.seq ≡ t.wal.seq
  pub checkpoint : t'.wal.checkpoint ≡ t.wal.checkpoint
  pub acked : t'.wal.acked ≡ t.wal.acked
  pub ckpt : (t'.disk.ckpt ≡ t.disk.ckpt) ⊎ (t'.disk.ckpt ≡ some (c.format t.wal.checkpoint))
  pub log :
      IsLog c (contents t'.disk.log) rs ⊎ IsLog c (contents t'.disk.log) (past t.wal.checkpoint rs)

write_checkpoint_cases :
    (c : Codec) (io : CkptIo) (n : ℕ) (d : Disk)
    → ((e : Error) × ((write_checkpoint c io n d).0 ≡ some e) × ((write_checkpoint c io n d).1 ≡ d))
      ⊎ (((write_checkpoint c io n d).0 ≡ none)
          × ((write_checkpoint c io n d).1 ≡ record d { ckpt = some (c.format n) }))
unfolding write_checkpoint
write_checkpoint_cases c io n d = ground arith

persist-Persists :
    {c : Codec}
    → CodecLaws c
    → (io : AckIo) → IsReadable io.compaction
    → (rs : List WalRecord) (t : Store) → IsLog c (contents t.disk.log) rs
    → Persists c rs t (persist c io t).1
unfolding persist
persist-Persists {c} laws io readable rs t l =
    elim (write_checkpoint_cases c io.ckpt t.wal.checkpoint t.disk) [
      | inl (e, failed, same) ↦
          rw (failed, persist)
            (rw same (record {
              seq = refl;
              checkpoint = refl;
              acked = refl;
              ckpt = inl refl;
              log = inl l;
            }))
      | inr (written, new) ↦
          rw (written, persist)
            (rw new (elim (Bool-cases (ltb compact_bytes t.wal.size)) [
              | inr small ↦ rw small (record {
                seq = refl;
                checkpoint = refl;
                acked = refl;
                ckpt = inr refl;
                log = inl l;
              })
              | inl large ↦
                  let d : Disk = record t.disk { ckpt = some (c.format t.wal.checkpoint) } in
                  let k = compact-Keeps laws rs (record t { disk = d }) io.compaction readable l in
                  rw large (record {
                    seq = k.seq;
                    checkpoint = k.checkpoint;
                    acked = k.acked;
                    ckpt = inr k.ckpt;
                    log = k.log;
                  })
            ]))
    ]

le_of_acked : (n q : ℕ) (seqs : List ℕ) → All (λ x. x ≤ n) seqs → is_acked seqs q ≡ true → q ≤ n
unfolding is_acked
le_of_acked n q [] h a = absurd (ground arith)
le_of_acked n q (x ∷ xs) h a = ground (arith, le_of_acked n q xs h.1)

module _ {c : Codec} (laws : CodecLaws c) (s : Store) (k : IsSound c s) (seqs : List ℕ) where
  abbrev marked : List ℕ
  marked = mark s.wal.checkpoint seqs s.wal.acked

  marked_above : (q : ℕ) → is_acked marked q ≡ true → s.wal.checkpoint < q
  marked_above q a = ground (arith, is_acked-mark s.wal.checkpoint q seqs s.wal.acked, k.above q)

  marked_known : All (λ x. x ≤ s.wal.seq) seqs → (q : ℕ) → is_acked marked q ≡ true → q ≤ s.wal.seq
  marked_known fits q a = ground (
    arith,
    is_acked-mark s.wal.checkpoint q seqs s.wal.acked,
    k.known q,
    le_of_acked s.wal.seq q seqs fits,
  )

  -- The store that `ack` has in hand when it comes to write.
  abbrev moved : Store
  moved = record s {
    wal = record s.wal {
      checkpoint = (advance (length marked) false s.wal.checkpoint marked).0;
      acked = (advance (length marked) false s.wal.checkpoint marked).1;
    };
  }

  moved-Moves : Moves seqs s moved
  moved-Moves = record {
    advances =
        Advances-advance (length marked) false s.wal.checkpoint marked (omega arith)
          (omega (arith, k.below, k.bound)) marked_above;
    seq = refl;
    disk = refl;
  }

  module _ (t : Store) (m : Moves seqs s t) where
    pub t_below : All (λ x. x ≤ s.wal.seq) seqs → t.wal.checkpoint ≤ t.wal.seq
    t_below fits = elim (Bool-cases (ltb s.wal.checkpoint t.wal.checkpoint)) [
      | inl more ↦
          let a = m.advances.passed t.wal.checkpoint (ground arith) (omega arith) in
          rw m.seq (marked_known fits t.wal.checkpoint a)
      | inr stays ↦
          let e : t.wal.checkpoint ≤ s.wal.checkpoint = ground arith in
          omega (arith, m.seq, k.below)
    ]

    pub t_above : (q : ℕ) → is_acked t.wal.acked q ≡ true → t.wal.checkpoint < q
    t_above q a = ground (arith, m.advances.kept q)

    pub t_known :
        All (λ x. x ≤ s.wal.seq) seqs → (q : ℕ) → is_acked t.wal.acked q ≡ true → q ≤ t.wal.seq
    t_known fits q a =
        let b : is_acked marked q ≡ true = ground (arith, m.advances.kept q) in
        rw m.seq (marked_known fits q b)

    pub t_unacked :
        (q : ℕ)
        → is_acked seqs q ≡ false
        → is_acked s.wal.acked q ≡ false
        → s.wal.checkpoint < q
        → (is_acked t.wal.acked q ≡ false) × (t.wal.checkpoint < q)
    t_unacked q no_ old h =
        let b : is_acked marked q ≡ false =
          ground (arith, is_acked-mark s.wal.checkpoint q seqs s.wal.acked) in
        (
          ground (arith, m.advances.kept q),
          elim (Bool-cases (ltb t.wal.checkpoint q)) [
            | inl lt ↦ ground arith
            | inr le ↦ absurd (ground (arith, m.advances.passed q h))
          ],
        )

-- What an `ack` does to memory and files, in two parts.
pub record Acknowledges (c : Codec) (rs : List WalRecord) (seqs : List ℕ) (s s' : Store)
    : Type 0 where
  pub middle : Store
  pub moves : Moves seqs s middle
  pub persists : Persists c rs middle s'

Moves-none : {c : Codec} (s : Store) → IsSound c s → Moves [] s s
Moves-none s k = record {
  advances = record {
    grows = omega arith;
    below = omega (arith, k.below, k.bound);
    passed = λ q lo hi. absurd (omega arith);
    kept = λ q.
        unfold mark in
        elim (Bool-cases (is_acked s.wal.acked q)) [
          | inl a ↦ ground (arith, k.above q a)
          | inr a ↦ ground arith
        ];
    stopped = k.gap;
  };
  seq = refl;
  disk = refl;
}

pub ack-Acknowledges :
    {c : Codec}
    → CodecLaws c
    → (io : AckIo) → IsReadable io.compaction
    → (seqs : List ℕ) (s : Store) (k : IsSound c s)
    → Acknowledges c k.records seqs s (ack c io seqs s).1
unfolding ack
ack-Acknowledges laws io readable [] s k = record {
  middle = s;
  moves = Moves-none s k;
  persists = record {
    seq = refl;
    checkpoint = refl;
    acked = refl;
    ckpt = inl refl;
    log = inl k.log;
  };
}
ack-Acknowledges {c} laws io readable (q ∷ qs) s k =
    let n = length (mark s.wal.checkpoint (q ∷ qs) s.wal.acked) in
    elim (Bool-cases
      (advance n false s.wal.checkpoint (mark s.wal.checkpoint (q ∷ qs) s.wal.acked)).2) [
        | inl go ↦ rw go (record {
          middle = moved laws s k (q ∷ qs);
          moves = moved-Moves laws s k (q ∷ qs);
          persists = persist-Persists laws io readable k.records (moved laws s k (q ∷ qs)) k.log;
        })
        | inr stay ↦ rw stay (record {
          middle = moved laws s k (q ∷ qs);
          moves = moved-Moves laws s k (q ∷ qs);
          persists = record {
            seq = refl;
            checkpoint = refl;
            acked = refl;
            ckpt = inl refl;
            log = inl k.log;
          };
        })
      ]
