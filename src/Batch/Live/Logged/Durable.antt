-- ===== src/Batch/Live/Logged/Durable.antt =====
-- What a crash of a running batch processor (internal/storage/loki/batch.go) leaves to the next start.
use mathlib.Core.Path.{subst}
use alertsnitch.Base.{
  ℕ, suc, ◌+◌, ◌<◌, ◌≡◌, refl, ap, Option, none, some, List, [], ◌∷◌, arith, Result, ok, length,
  ltb, inl, inr, Bool-cases, All,
}
use alertsnitch.Wal.{WalRecord, Store, Codec, CodecLaws}
use alertsnitch.Wal.Compaction.{IsReadable}
use alertsnitch.Wal.Ops.{AppendIo, append}
use alertsnitch.Wal.Durable.{IsWhole, record_of}
use alertsnitch.Wal.Recovery.Replay.{Replays, Protects-Replays}
use alertsnitch.Batch.{QueuedAlert}
use alertsnitch.Batch.Accumulate.{concat}
use alertsnitch.Batch.Enqueue.{queue_full}
use alertsnitch.Batch.Flush.{FlushEnv, ack_batch, record_outcome}
use alertsnitch.Batch.Run.{close_wal}
use alertsnitch.Batch.Live.{
  Live, Action, arrives, sends, cancels, drops, replays, abandons, takes, dispatches, stops,
  delivers, acknowledges, closes, pick, picked, arrive_alert, deliver_next, act, run,
}
use alertsnitch.Batch.Live.Weights.{
  weight, weight-append, Picks, Picks-pick, IsMove, IsMove-act, sending, cancelling, resending,
  abandoning, taking, dispatching, stopping,
}
use alertsnitch.Batch.Live.Logged.{
  is_number, standing, InOrder, Holds, IsClean, Change, Change-InOrder, Change-Holds,
}
use alertsnitch.Batch.Live.Logged.Steps.{
  Change-quiet, Change-acks, Change-closes, Change-logged, Holds-accepted, number-accepted,
}

-- A number for each action, and `k` more.
abbrev pub room_for : List Action → ℕ → ℕ
room_for [] k = k
room_for (a ∷ actions) k = suc (room_for actions k)

module _ {c : Codec} (laws : CodecLaws c) (size room : ℕ) where
  module _ {k : ℕ} {s : Live} (o : InOrder c (suc k) s) where
    Change-IsMove : (s' : Live) → IsMove s s' → Change c o.log s s'
    Change-IsMove s' m =
        Change-quiet o s' (ap (λ p. p.wal) m.processor)
          (λ n. omega (arith, m.kept (is_number n), ap (weight (is_number n)) m.delivered))

    Change-arrives :
        (io : AppendIo) (qa : QueuedAlert)
        → IsWhole io
        → (w : Option Store) → w ≡ some o.log
        → Change c o.log s (arrive_alert c io qa w s)
    Change-arrives io qa whole w h = rw h (
        Change-logged o laws io qa whole
          (append c io qa.group qa.extra_labels qa.received_at o.log).0 refl)

    Change-drops :
        (env : FlushEnv) (q : Option (QueuedAlert × List QueuedAlert))
        → IsReadable env.ack_io.compaction
        → ((f : QueuedAlert → ℕ) → Picks f s.waiting q)
        → Change c o.log s (
            picked q
              (λ qa rest. record s {
                waiting = rest;
                processor =
                    ack_batch
                      (record env { codec = c })
                      (qa ∷ [])
                      (record s.processor {
                        metrics = record_outcome qa.group (some queue_full) s.processor.metrics;
                      });
              })
              s)
    Change-drops env none readable h = Change-quiet o s refl (λ n. refl)
    Change-drops env (some (qa, rest)) readable h =
        Change-acks o laws env (qa ∷ []) _ _ readable refl refl
          (λ n. omega (arith, h (is_number n)))

    Change-deliver_next :
        (env : FlushEnv) (sent : List (List QueuedAlert)) (delivered : List QueuedAlert)
        → s.sent ≡ sent
        → s.delivered ≡ delivered
        → Change c o.log s (deliver_next env sent delivered s)
    Change-deliver_next env (batch ∷ sent) [] h e = Change-quiet o _ refl (λ n. omega (
      arith,
      ap (λ l. weight (is_number n) (concat l)) h,
      ap (weight (is_number n)) e,
      weight-append (is_number n) batch (concat sent),
    ))
    Change-deliver_next env [] delivered h e = Change-quiet o s refl (λ n. refl)
    Change-deliver_next env (batch ∷ sent) (qa ∷ delivered) h e = Change-quiet o s refl (λ n. refl)

    -- Every action on a log in order.
    act-Change : (a : Action) → IsClean a → Change c o.log s (act c size room a s)
    unfolding act
    act-Change (arrives io qa) clean = Change-arrives io qa clean s.processor.wal o.logged
    act-Change (sends i) _ = Change-IsMove _ (IsMove-act c size room (sending i) s)
    act-Change (cancels i) _ = Change-IsMove _ (IsMove-act c size room (cancelling i) s)
    act-Change (drops i env) clean = elim (Bool-cases (ltb (length s.queue) room)) [
      | inl fits ↦ rw fits (Change-quiet o s refl (λ n. refl))
      | inr full ↦
          rw full (Change-drops env (pick i s.waiting) clean (λ f. Picks-pick f i s.waiting))
    ]
    act-Change replays _ = Change-IsMove _ (IsMove-act c size room resending s)
    act-Change abandons _ = Change-IsMove _ (IsMove-act c size room abandoning s)
    act-Change takes _ = Change-IsMove _ (IsMove-act c size room taking s)
    act-Change dispatches _ = Change-IsMove _ (IsMove-act c size room dispatching s)
    act-Change stops _ = Change-IsMove _ (IsMove-act c size room stopping s)
    act-Change (delivers env) _ =
        Change-deliver_next (record env { codec = c }) s.sent s.delivered refl refl
    act-Change (acknowledges env) clean =
        Change-acks o laws env s.delivered s.processor _ clean refl refl (λ n. omega arith)
    act-Change (closes synced closed) _ =
        Change-closes o laws synced closed _ (unfold close_wal in rw o.logged refl) (λ n. refl)

  -- Over any schedule without torn frames and read errors, a log that is on and in order stays so, if
  -- it has room for one number for each action and `k` more; then it still has room for these.
  pub run-InOrder :
      (actions : List Action) (k : ℕ) (s : Live)
      → InOrder c (room_for actions k) s
      → All IsClean actions
      → InOrder c k (run c size room actions s)
  unfolding run
  run-InOrder [] k s o clean = o
  run-InOrder (a ∷ actions) k s o clean =
      run-InOrder actions k (act c size room a s) (Change-InOrder o (act-Change o a clean.0))
        clean.1

  -- What holds of a record at the end of a schedule.
  abbrev pub Held : WalRecord → Live → Type 0
  Held r s = (log : Store) × (s.processor.wal ≡ some log) × Holds c r log s

  pub run-Held :
      (r : WalRecord) (actions : List Action) (s : Live) (o : InOrder c (room_for actions 0) s)
      → All IsClean actions
      → Holds c r o.log s
      → Held r (run c size room actions s)
  unfolding run Change-InOrder
  run-Held r [] s o clean h = (o.log, o.logged, h)
  run-Held r (a ∷ actions) s o clean h =
      let ch = act-Change o a clean.0 in
      run-Held r actions (act c size room a s) (Change-InOrder o ch) clean.1 (Change-Holds ch h)

  module _ (io : AppendIo) (qa : QueuedAlert) (q : ℕ) (actions : List Action) (s : Live)
      (o : InOrder c (suc (room_for actions 0)) s) where
    abbrev after : Result ℕ × Store
    after = append c io qa.group qa.extra_labels qa.received_at o.log

    wal-arrives :
        (w : Option Store)
        → w ≡ some o.log
        → after.0 ≡ ok q
        → (arrive_alert c io qa w s).processor.wal ≡ some after.1
    wal-arrives w h done = rw h (rw done refl)

    standing-arrives :
        (n : ℕ) (w : Option Store)
        → w ≡ some o.log
        → after.0 ≡ ok q
        → standing n (arrive_alert c io qa w s) ≡ is_number n (record qa { seq = q }) + standing n s
    standing-arrives n w h done = rw h (rw done (omega arith))

    Held-arrives :
        IsWhole io
        → after.0 ≡ ok q
        → All IsClean actions
        → Held
            (c.stored (record_of o.log qa.group qa.extra_labels qa.received_at))
            (run c size room (arrives io qa ∷ actions) s)
    unfolding act run Change-InOrder
    Held-arrives whole done clean =
        let ch = act-Change o (arrives io qa) whole in
        let same : after.1 ≡ ch.log = cc (ch.logged, wal-arrives s.processor.wal o.logged done) in
        run-Held _ actions _ (Change-InOrder o ch) clean (
          subst
            (λ w.
              Holds c (c.stored (record_of o.log qa.group qa.extra_labels qa.received_at)) w
                (act c size room (arrives io qa) s))
            same
            (Holds-accepted o laws io qa whole q done _
              (λ n. standing-arrives n s.processor.wal o.logged done)))

    -- What a crash leaves of an alert, when it is not acknowledged: its record, for the next start.
    pub arrives-Replays :
        IsWhole io
        → after.0 ≡ ok q
        → All IsClean actions
        → 0 < standing q (run c size room (arrives io qa ∷ actions) s)
        → (log : Store) × ((run c size room (arrives io qa ∷ actions) s).processor.wal ≡ some log)
          × Replays c (c.stored (record_of o.log qa.group qa.extra_labels qa.received_at)) log.disk
    arrives-Replays whole done clean h =
        let (log, on, held_) = Held-arrives whole done clean in
        (log, on, Protects-Replays (held_.kept (rw (number-accepted o laws io qa whole q done) h)))
