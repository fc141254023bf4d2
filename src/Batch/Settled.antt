-- ===== src/Batch/Settled.antt =====
-- What a flush (internal/storage/loki/batch.go) acknowledges, whatever becomes of its delivery.
use alertsnitch.Base.{
  ℕ, ◌≤◌, ◌≡◌, ◌≢◌, ◌⊎◌, refl, inl, inr, some, true, List, [], ◌∷◌, arith, ltb, Any, Bool-cases,
}
use alertsnitch.Wal.{Store, CodecLaws}
use alertsnitch.Wal.Checkpoint.{is_acked}
use alertsnitch.Wal.Acked.{is_acked-mark}
use alertsnitch.Wal.Compaction.{IsReadable}
use alertsnitch.Wal.Recovery.{IsSound}
use alertsnitch.Wal.Recovery.Moves.{ack-Acknowledges}
use alertsnitch.Wal.Ops.{ack}
use alertsnitch.Batch.{QueuedAlert}
use alertsnitch.Batch.Flush.{FlushEnv, Processor, seqs_of, ack_batch, flush}

-- The number is acknowledged: the checkpoint has reached it, or it waits for that.
abbrev pub IsSettled : ℕ → Store → Type 0
IsSettled q w = (q ≤ w.wal.checkpoint) ⊎ (is_acked w.wal.acked q ≡ true)

is_acked-seqs_of :
    (qa : QueuedAlert) (batch : List QueuedAlert)
    → Any (λ x. x ≡ qa) batch
    → qa.seq ≢ 0
    → is_acked (seqs_of batch) qa.seq ≡ true
unfolding is_acked seqs_of
is_acked-seqs_of qa [] a h = elim a [ ]
is_acked-seqs_of qa (x ∷ batch) (inl e) h = rw e (ground (arith, h))
is_acked-seqs_of qa (x ∷ batch) (inr a) h = ground (arith, is_acked-seqs_of qa batch a h)

module _ (env : FlushEnv) (laws : CodecLaws env.codec) (readable : IsReadable env.ack_io.compaction)
    (w : Store) (sound : IsSound env.codec w) where
  ack-IsSettled :
      (seqs : List ℕ) (q : ℕ)
      → is_acked seqs q ≡ true
      → IsSettled q (ack env.codec env.ack_io seqs w).1
  ack-IsSettled seqs q named =
      let a = ack-Acknowledges laws env.ack_io readable seqs w sound in
      let m = a.moves.advances in
      let marked = is_acked-mark w.wal.checkpoint q seqs w.wal.acked in
      elim (Bool-cases (ltb a.middle.wal.checkpoint q)) [
        | inl past ↦ inr (rw a.persists.acked (ground (arith, m.kept q, m.grows, marked, named)))
        | inr low ↦ inl (ground (arith, a.persists.checkpoint, low))
      ]

  -- With the log on and satisfying its invariant, a flush acknowledges every alert of its batch that has
  -- a number, however its conversions and its delivery end, also where every attempt fails or the
  -- delivery is aborted at shutdown, unless a compaction meets an I/O error while it reads.
  pub flush-IsSettled :
      (batch : List QueuedAlert) (p : Processor)
      → p.wal ≡ some w
      → (qa : QueuedAlert) → Any (λ x. x ≡ qa) batch
      → qa.seq ≢ 0
      → (w' : Store) × ((flush env batch p).wal ≡ some w') × IsSettled qa.seq w'
  unfolding flush ack_batch
  flush-IsSettled [] p on qa a h = elim a [ ]
  flush-IsSettled (x ∷ batch) p on qa a h = (
    (ack env.codec env.ack_io (seqs_of (x ∷ batch)) w).1,
    rw on refl,
    ack-IsSettled (seqs_of (x ∷ batch)) qa.seq (is_acked-seqs_of qa (x ∷ batch) a h),
  )
