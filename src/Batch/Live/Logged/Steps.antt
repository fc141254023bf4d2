-- ===== src/Batch/Live/Logged/Steps.antt =====
-- Each action of a running batch processor (internal/storage/loki/batch.go) on a log in order.
use alertsnitch.Base.{
  ℕ, suc, ◌+◌, ◌<◌, ◌≡◌, refl, sym, ◌∙◌, Bool, some, List, arith, Result, ok, err, Error, u64_mod,
  inc_u64, inl, inr,
}
use alertsnitch.Wal.{WalRecord, Store, Codec, CodecLaws}
use alertsnitch.Wal.Compaction.{IsReadable}
use alertsnitch.Wal.Ops.{AppendIo, AckIo, append, ack, close}
use alertsnitch.Wal.Durable.{IsWhole, Effect, nothing, logged as entered, record_of, append-Effect}
use alertsnitch.Wal.Recovery.{Effect-IsSound, Effect-Protects, Effect-Protects_new}
use alertsnitch.Wal.Recovery.Moves.{ack-Acknowledges}
use alertsnitch.Wal.Recovery.Ack.{ack-IsSound, ack-Protects}
use alertsnitch.Wal.Recovery.Replay.{close-Protects, close-IsSound, seq-close}
use alertsnitch.Batch.{QueuedAlert}
use alertsnitch.Batch.Flush.{FlushEnv, Processor, ack_batch, seqs_of}
use alertsnitch.Batch.Live.{Live, logged}
use alertsnitch.Batch.Live.Weights.{weight}
use alertsnitch.Batch.Live.Logged.{
  is_number, standing, InOrder, Holds, Change, seqs_of-fits, is_acked-seqs_of,
}

-- The number of the last append, after one that succeeds or fails.
seq_ok :
    {c : Codec} {w w' : Store} {r : WalRecord} {n : Result ℕ} {q : ℕ}
    → Effect c w r w' n
    → n ≡ ok q
    → (w'.wal.seq ≡ inc_u64 w.wal.seq) × (q ≡ inc_u64 w.wal.seq)
seq_ok {q = q} (nothing same log size seq no_) h = absurd (no_ q h)
seq_ok {q = q} (entered body same e log (inl (seq, no_))) h = absurd (no_ q h)
seq_ok (entered body same e log (inr (seq, done))) h = (seq, cc (h, done))

seq_err :
    {c : Codec} {w w' : Store} {r : WalRecord} {n : Result ℕ} {e : Error}
    → Effect c w r w' n
    → n ≡ err e
    → w'.wal.seq ≡ w.wal.seq
seq_err (nothing same log size seq no_) h = seq
seq_err (entered body same entry log (inl (seq, no_))) h = seq
seq_err (entered body same entry log (inr (seq, done))) h = absurd (cc (h, done))

module _ {c : Codec} {k : ℕ} {s : Live} (o : InOrder c (suc k) s) where
  -- The log is not touched.
  pub Change-quiet :
      (s' : Live)
      → s'.processor.wal ≡ s.processor.wal
      → ((n : ℕ) → standing n s' ≡ standing n s)
      → Change c o.log s s'
  Change-quiet s' same alike = record {
    log = o.log;
    logged = same ∙ o.logged;
    sound = o.sound;
    grows = omega arith;
    slowly = omega arith;
    old = λ n h. omega (arith, alike n);
    ungiven = λ n h. omega (arith, alike n);
    kept = λ r once positive some_ p. p;
  }

  module _ (laws : CodecLaws c) where
    seq-ack :
        (io : AckIo)
        → IsReadable io.compaction
        → (seqs : List ℕ) → (ack c io seqs o.log).1.wal.seq ≡ o.log.wal.seq
    seq-ack io readable seqs =
        let a = ack-Acknowledges laws io readable seqs o.log o.sound in a.persists.seq ∙ a.moves.seq

    wal-ack_batch :
        (env : FlushEnv) (batch : List QueuedAlert) (p : Processor) (w : Store)
        → p.wal ≡ some w
        → (ack_batch env batch p).wal ≡ some (ack env.codec env.ack_io (seqs_of batch) w).1
    unfolding ack_batch
    wal-ack_batch env batch p w h = rw (h, ack_batch) refl

    -- A batch is acknowledged and left behind.
    pub Change-acks :
        (env : FlushEnv) (batch : List QueuedAlert) (p : Processor) (s' : Live)
        → IsReadable env.ack_io.compaction
        → p.wal ≡ s.processor.wal
        → s'.processor.wal ≡ (ack_batch (record env { codec = c }) batch p).wal
        → ((n : ℕ) → standing n s' + weight (is_number n) batch ≡ standing n s)
        → Change c o.log s s'
    Change-acks env batch p s' readable before after parts =
        let fits =
          seqs_of-fits o.log.wal.seq batch (λ n new. omega (arith, parts n, o.fits n new)) in
        let seq = seq-ack env.ack_io readable (seqs_of batch) in
        record {
          log = (ack c env.ack_io (seqs_of batch) o.log).1;
          logged =
              after ∙ wal-ack_batch (record env { codec = c }) batch p o.log (before ∙ o.logged);
          sound = ack-IsSound laws env.ack_io readable (seqs_of batch) o.log fits o.sound;
          grows = omega (arith, seq);
          slowly = omega (arith, seq);
          old = λ n h. omega (arith, parts n);
          ungiven = λ n h. omega (arith, parts n);
          kept = λ r once positive some_ p.
              ack-Protects laws env.ack_io readable (seqs_of batch) o.log fits r
                (is_acked-seqs_of r.seq batch (omega (arith, parts r.seq))) p;
        }

    pub Change-closes :
        (synced closed : Bool) (s' : Live)
        → s'.processor.wal ≡ some (close synced closed o.log).1
        → ((n : ℕ) → standing n s' ≡ standing n s)
        → Change c o.log s s'
    Change-closes synced closed s' after alike =
        let seq = seq-close synced closed o.log in
        record {
          log = (close synced closed o.log).1;
          logged = after;
          sound = close-IsSound synced closed o.log o.sound;
          grows = omega (arith, seq);
          slowly = omega (arith, seq);
          old = λ n h. omega (arith, alike n);
          ungiven = λ n h. omega (arith, alike n);
          kept = λ r once positive some_ p. close-Protects laws r synced closed o.log p;
        }

    module _ (io : AppendIo) (qa : QueuedAlert) (whole : IsWhole io) where
      abbrev appended : Result ℕ × Store
      appended = append c io qa.group qa.extra_labels qa.received_at o.log

      abbrev written : WalRecord
      written = record_of o.log qa.group qa.extra_labels qa.received_at

      one_more : o.log.wal.seq + 1 < u64_mod
      one_more = omega (arith, o.room)

      effect : Effect c o.log written appended.1 appended.0
      effect =
          append-Effect laws io whole qa.group qa.extra_labels qa.received_at o.log o.sound.bound

      -- The append fails.
      Change-refused :
          (e : Error)
          → appended.0 ≡ err e
          → (s' : Live) → s'.processor.wal ≡ some appended.1
          → ((n : ℕ) → standing n s' ≡ standing n s)
          → Change c o.log s s'
      Change-refused e failed s' after alike = record {
        log = appended.1;
        logged = after;
        sound = Effect-IsSound one_more effect o.sound;
        grows = omega (arith, seq_err effect failed);
        slowly = omega (arith, seq_err effect failed);
        old = λ n h. omega (arith, alike n);
        ungiven = λ n h. omega (arith, alike n);
        kept = λ r once positive some_ p. Effect-Protects one_more effect p;
      }

      -- The append succeeds, and the caller waits with an alert of its number.
      Change-accepted :
          (q : ℕ)
          → appended.0 ≡ ok q
          → (s' : Live) → s'.processor.wal ≡ some appended.1
          → ((n : ℕ) → standing n s' ≡ is_number n (record qa { seq = q }) + standing n s)
          → Change c o.log s s'
      Change-accepted q done s' after more =
          let (grown, number) = seq_ok effect done in
          let next : appended.1.wal.seq ≡ o.log.wal.seq + 1 = omega (arith, grown, one_more) in
          record {
            log = appended.1;
            logged = after;
            sound = Effect-IsSound one_more effect o.sound;
            grows = omega arith;
            slowly = omega arith;
            old = λ n h. ground (arith, more n);
            ungiven = λ n h. ground (arith, more n);
            kept = λ r once positive some_ p. Effect-Protects one_more effect p;
          }

      pub Change-logged :
          (result : Result ℕ)
          → appended.0 ≡ result
          → Change c o.log s (logged qa s.processor.metrics (result, appended.1) s)
      Change-logged (err e) h = Change-refused e h _ refl (λ n. refl)
      Change-logged (ok q) h = Change-accepted q h _ refl (λ n. omega arith)

      pub number-accepted : (q : ℕ) → appended.0 ≡ ok q → (c.stored written).seq ≡ q
      number-accepted q done = laws.keeps_seq written ∙ sym (seq_ok effect done).1

      -- What holds of the record of an append that succeeds.
      pub Holds-accepted :
          (q : ℕ)
          → appended.0 ≡ ok q
          → (s' : Live)
          → ((n : ℕ) → standing n s' ≡ is_number n (record qa { seq = q }) + standing n s)
          → Holds c (c.stored written) appended.1 s'
      Holds-accepted q done s' more =
          let (grown, number) = seq_ok effect done in
          let next : appended.1.wal.seq ≡ o.log.wal.seq + 1 = omega (arith, grown, one_more) in
          let same : (c.stored written).seq ≡ o.log.wal.seq + 1 =
            omega (arith, laws.keeps_seq written, one_more) in
          record {
            given = omega arith;
            positive = omega arith;
            once = ground (arith, more (c.stored written).seq, o.fits (c.stored written).seq);
            kept = λ some_. Effect-Protects_new laws q one_more refl done effect o.sound;
          }
