-- ===== src/Batch/Live/Logged.antt =====
-- The write-ahead log under a running batch processor (internal/storage/loki/batch.go and wal.go): what
-- one action does to the log and to the numbers of the alerts.
pub mod Steps
pub mod Durable
pub mod Restart
use alertsnitch.Base.{
  ℕ, suc, ◌+◌, ◌≤◌, ◌<◌, ◌≡◌, refl, Bool, true, false, some, List, [], ◌∷◌, arith, ◌==◌,
  if◌then◌else◌, u64_mod, All, inl, inr, Bool-cases,
}
use alertsnitch.Wal.{WalRecord, Store, Codec, CodecLaws}
use alertsnitch.Wal.Checkpoint.{is_acked}
use alertsnitch.Wal.Compaction.{IsReadable}
use alertsnitch.Wal.Durable.{IsWhole}
use alertsnitch.Wal.Recovery.{IsSound, Protects}
use alertsnitch.Batch.{QueuedAlert}
use alertsnitch.Batch.Flush.{seqs_of}
use alertsnitch.Batch.Live.{
  Live, Action, arrives, sends, cancels, drops, replays, abandons, takes, dispatches, stops,
  delivers, acknowledges, closes,
}
use alertsnitch.Batch.Live.Weights.{weight, held}

abbrev pub is_number : ℕ → QueuedAlert → ℕ
is_number n qa = if qa.seq == n then 1 else 0

-- How many alerts have the number and are on their way, delivered and not acknowledged, or given up.
abbrev pub standing : ℕ → Live → ℕ
standing n s = held (is_number n) s + weight (is_number n) s.delivered

-- The log is on and in order, with room for `k` more numbers, and no alert has a number that was not
-- given out.
pub record InOrder (c : Codec) (k : ℕ) (s : Live) : Type 0 where
  pub log : Store
  pub logged : s.processor.wal ≡ some log
  pub sound : IsSound c log
  pub room : log.wal.seq + k < u64_mod
  pub fits : (n : ℕ) → log.wal.seq < n → standing n s ≡ 0

-- At most one alert has the record's number, and as long as one has it the log has the record, not
-- acknowledged.
pub record Holds (c : Codec) (r : WalRecord) (log : Store) (s : Live) : Type 0 where
  pub given : r.seq ≤ log.wal.seq
  pub positive : 0 < r.seq
  pub once : standing r.seq s ≤ 1
  pub kept : 0 < standing r.seq s → Protects c r log

-- No torn frame, and no I/O error while a compaction reads.
abbrev pub IsClean : Action → Type 0
IsClean (arrives io qa) = IsWhole io
IsClean (sends i) = Unit
IsClean (cancels i) = Unit
IsClean (drops i env) = IsReadable env.ack_io.compaction
IsClean replays = Unit
IsClean abandons = Unit
IsClean takes = Unit
IsClean dispatches = Unit
IsClean stops = Unit
IsClean (delivers env) = Unit
IsClean (acknowledges env) = IsReadable env.ack_io.compaction
IsClean (closes synced closed) = Unit

-- What an action does to a log in order.
pub record Change (c : Codec) (w : Store) (s s' : Live) : Type 0 where
  pub log : Store
  pub logged : s'.processor.wal ≡ some log
  pub sound : IsSound c log
  pub grows : w.wal.seq ≤ log.wal.seq
  pub slowly : log.wal.seq ≤ w.wal.seq + 1
  pub old : (n : ℕ) → n ≤ w.wal.seq → standing n s' ≤ standing n s
  pub ungiven : (n : ℕ) → log.wal.seq < n → standing n s' ≤ standing n s
  pub kept :
      (r : WalRecord)
      → standing r.seq s ≤ 1
      → 0 < r.seq
      → 0 < standing r.seq s'
      → Protects c r w
      → Protects c r log

unfoldable pub Change-InOrder :
    {c : Codec} {k : ℕ} {s s' : Live} (o : InOrder c (suc k) s)
    → Change c o.log s s'
    → InOrder c k s'
Change-InOrder {k = k} o ch = record {
  log = ch.log;
  logged = ch.logged;
  sound = ch.sound;
  room = omega (arith, o.room, ch.slowly);
  fits = λ n new. omega (arith, ch.ungiven n new, o.fits n (omega (arith, ch.grows)));
}

pub Change-Holds :
    {c : Codec} {r : WalRecord} {w : Store} {s s' : Live} (ch : Change c w s s')
    → Holds c r w s
    → Holds c r ch.log s'
Change-Holds {r = r} ch h = record {
  given = omega (arith, h.given, ch.grows);
  positive = h.positive;
  once = omega (arith, ch.old r.seq h.given, h.once);
  kept = λ some_. ch.kept r h.once h.positive some_ (h.kept (omega (arith, ch.old r.seq h.given)));
}

-- The numbers that a batch acknowledges.
pub seqs_of-fits :
    (w : ℕ) (batch : List QueuedAlert)
    → ((n : ℕ) → w < n → weight (is_number n) batch ≡ 0)
    → All (λ x. x ≤ w) (seqs_of batch)
unfolding seqs_of
seqs_of-fits w [] h = _
seqs_of-fits w (qa ∷ batch) h =
    let rest : All (λ x. x ≤ w) (seqs_of batch) =
      seqs_of-fits w batch (λ n new. omega (arith, h n new)) in
    let first : qa.seq ≤ w = ground (arith, h qa.seq) in
    elim (Bool-cases (qa.seq == 0)) [ inl e ↦ rw e rest | inr e ↦ rw e (first, rest) ]

pub is_acked-seqs_of :
    (n : ℕ) (batch : List QueuedAlert)
    → weight (is_number n) batch ≡ 0
    → is_acked (seqs_of batch) n ≡ false
unfolding seqs_of is_acked
is_acked-seqs_of n [] h = refl
is_acked-seqs_of n (qa ∷ batch) h = ground (arith, is_acked-seqs_of n batch)
