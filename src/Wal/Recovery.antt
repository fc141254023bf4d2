-- ===== src/Wal/Recovery.antt =====
-- The invariants of the log of internal/storage/loki/wal.go between calls.
pub mod Moves
pub mod Ack
pub mod Replay
use mathlib.Core.Path.{subst}
use alertsnitch.Base.{
  ℕ, suc, ◌+◌, ◌≤◌, ◌<◌, ◌≡◌, refl, sym, inl, inr, Bool, true, false, List, [], ◌∷◌, ◌++◌, arith,
  Result, ok, u64_mod, inc_u64, Bool-cases, Any, Any-append_left, Any-append_right,
}
use alertsnitch.Wal.{WalRecord, Store, Codec, CodecLaws}
use alertsnitch.Wal.Frame.RoundTrip.{IsLog, IsLog-append}
use alertsnitch.Wal.Checkpoint.{is_acked, read_checkpoint}
use alertsnitch.Wal.Durable.{Effect, nothing, logged}
use alertsnitch.Wal.Ops.{contents, append, persist, ack, past}

-- The invariant of a log in use: the file is a sequence of whole entries, the checkpoint on disk is
-- not ahead of the memory's, the acknowledged numbers lie between the checkpoint and the last number
-- given out, and the number behind the checkpoint is not among them.
pub record IsSound (c : Codec) (s : Store) : Type 0 where
  pub records : List WalRecord
  pub persisted : ℕ
  pub log : IsLog c (contents s.disk.log) records
  pub ckpt : read_checkpoint c true s.disk.ckpt ≡ ok persisted
  pub lags : persisted ≤ s.wal.checkpoint
  pub below : s.wal.checkpoint ≤ s.wal.seq
  pub bound : s.wal.seq < u64_mod
  pub above : (q : ℕ) → is_acked s.wal.acked q ≡ true → s.wal.checkpoint < q
  pub known : (q : ℕ) → is_acked s.wal.acked q ≡ true → q ≤ s.wal.seq
  pub gap : is_acked s.wal.acked (inc_u64 s.wal.checkpoint) ≡ false

-- Record `r` is in the log and not acknowledged.
pub record Protects (c : Codec) (r : WalRecord) (s : Store) : Type 0 where
  pub sound : IsSound c s
  pub present : Any (λ x. x ≡ r) sound.records
  pub unacked : is_acked s.wal.acked r.seq ≡ false
  pub waits : s.wal.checkpoint < r.seq
  pub given : r.seq ≤ s.wal.seq

-- An append keeps the invariant, and it keeps a record of the log.
pub Effect-IsSound :
    {c : Codec} {s s' : Store} {r : WalRecord} {n : Result ℕ}
    → s.wal.seq + 1 < u64_mod
    → Effect c s r s' n
    → IsSound c s
    → IsSound c s'
Effect-IsSound {c} room (nothing same log size seq no_) k = record {
  records = k.records;
  persisted = k.persisted;
  log = subst (λ b. IsLog c b k.records) (sym log) k.log;
  ckpt = rw same.ckpt k.ckpt;
  lags = rw same.checkpoint k.lags;
  below = rw (same.checkpoint, seq) k.below;
  bound = rw seq k.bound;
  above = λ q. rw (same.acked, same.checkpoint) (k.above q);
  known = λ q. rw (same.acked, seq) (k.known q);
  gap = rw (same.acked, same.checkpoint) k.gap;
}
Effect-IsSound {c} {s} {s'} {r} room (logged body same e log seq) k = record {
  records = k.records ++ c.stored r ∷ [];
  persisted = k.persisted;
  log = subst (λ b. IsLog c b (k.records ++ c.stored r ∷ [])) (sym log) (IsLog-append k.log e);
  ckpt = rw same.ckpt k.ckpt;
  lags = rw same.checkpoint k.lags;
  below = omega (arith, k.below, same.checkpoint, grows);
  bound = limit;
  above = λ q. rw (same.acked, same.checkpoint) (k.above q);
  known = λ q. rw same.acked (λ a. omega (arith, k.known q a, grows));
  gap = rw (same.acked, same.checkpoint) k.gap;
}
  where
    grows : s.wal.seq ≤ s'.wal.seq
    grows = elim seq [ inl p ↦ omega (arith, p.0) | inr p ↦ omega (arith, p.0) ]

    limit : s'.wal.seq < u64_mod
    limit = elim seq [ inl p ↦ omega (arith, p.0) | inr p ↦ omega (arith, p.0) ]

pub Effect-Protects :
    {c : Codec} {s s' : Store} {r x : WalRecord} {n : Result ℕ}
    → s.wal.seq + 1 < u64_mod
    → Effect c s r s' n
    → Protects c x s
    → Protects c x s'
unfolding Effect-IsSound
Effect-Protects {r = r} {n = n} room (nothing same log size seq no_) p = record {
  sound = Effect-IsSound {r = r} {n = n} room (nothing same log size seq no_) p.sound;
  present = p.present;
  unacked = rw same.acked p.unacked;
  waits = rw same.checkpoint p.waits;
  given = rw seq p.given;
}
Effect-Protects {c} {s} {s'} {r} room (logged body same e log seq) p = record {
  sound = Effect-IsSound room (logged body same e log seq) p.sound;
  present = Any-append_left _ _ _ p.present;
  unacked = rw same.acked p.unacked;
  waits = rw same.checkpoint p.waits;
  given = elim seq [ inl q ↦ omega (arith, q.0, p.given) | inr q ↦ omega (arith, q.0, p.given) ];
}

-- A number past the last one given out is not acknowledged.
unacked_new :
    {c : Codec} {s : Store} → IsSound c s → (q : ℕ) → s.wal.seq < q → is_acked s.wal.acked q ≡ false
unacked_new {s = s} k q h = elim (Bool-cases (is_acked s.wal.acked q)) [
  | inr e ↦ e
  | inl e ↦ absurd (omega (arith, k.known q e))
]

-- The record of a successful append is protected.
pub Effect-Protects_new :
    {c : Codec}
    → CodecLaws c
    → {s s' : Store} {r : WalRecord} {n : Result ℕ} (q : ℕ) → s.wal.seq + 1 < u64_mod
    → r.seq ≡ inc_u64 s.wal.seq
    → n ≡ ok q
    → Effect c s r s' n
    → IsSound c s
    → Protects c (c.stored r) s'
unfolding Effect-IsSound
Effect-Protects_new laws q room num done (nothing same log size seq no_) k = absurd (no_ q done)
Effect-Protects_new {c} laws {s} {s'} {r} q room num done (logged body same e log (inl (eq, no_)))
      k =
    absurd (no_ q done)
Effect-Protects_new {c} laws {s} {s'} {r} q room num done (logged body same e log (inr (eq, r_ok)))
      k =
    let next : (c.stored r).seq ≡ s.wal.seq + 1 = omega (arith, laws.keeps_seq r, num) in
    record {
      sound = Effect-IsSound room (logged body same e log (inr (eq, r_ok))) k;
      present = Any-append_right _ k.records _ (inl refl);
      unacked = rw (same.acked, next) (unacked_new k _ (omega arith));
      waits = rw (same.checkpoint, next) (omega (arith, k.below));
      given = omega (arith, next, eq);
    }
