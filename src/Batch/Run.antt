-- ===== src/Batch/Run.antt =====
-- The goroutines of the batch processor from its start to its end (`accumulate`, `flusher`, `stop` and
-- `closeWAL` of internal/storage/loki/batch.go).
use alertsnitch.Base.{
  ℕ, suc, ◌+◌, ◌≡◌, refl, sym, ◌∙◌, ap, Option, none, some, List, [], ◌∷◌, ◌++◌, append-nil,
  append_assoc, Bool, String, Error, wrap, take, drop, take-append-drop, arith, leb, length,
  Bool-cases, inl, inr, Option-cases,
}
use alertsnitch.Metrics.{accounted}
use alertsnitch.Wal.Ops.{close}
use alertsnitch.Batch.{QueuedAlert, Event, arrive, tick, stop, dispatch, accumulate}
use alertsnitch.Batch.Accumulate.{arrivals, concat, accumulate-fifo}
use alertsnitch.Batch.Flush.{FlushEnv, Processor, flush, alerts_for, accounted-flush}

-- `flusher`, from the batch `n` on: each flush has its own clock and outcomes.
unfoldable pub flusher : (ℕ → FlushEnv) → ℕ → List (List QueuedAlert) → Processor → Processor
flusher env n [] p = p
flusher env n (batch ∷ batches) p = flusher env (suc n) batches (flush (env n) batch p)

-- `closeWAL`; the flags say whether the sync and the close of the file succeed.
unfoldable pub close_wal : Bool → Bool → Processor → Processor
unfolding close
close_wal synced closed p = elim p.wal [
  | none ↦ p
  | some w ↦ record p { wal = some (close synced closed w).1 }
]

-- How `stop` ends: the drain is complete, or the deadline comes when so many batches are flushed.
pub data Stopped : Type 0 where
  complete : Stopped
  deadline : ℕ → Error → Stopped

-- What is left when both goroutines have ended: `events` and then the stop signal with `rest` in the
-- queue. At the deadline the log is closed while the other batches are still to be flushed.
unfoldable pub run_to_stop :
    (ℕ → FlushEnv)
    → ℕ
    → List Event
    → List QueuedAlert
    → Bool
    → Bool
    → Stopped
    → Processor
    → Option Error × Processor
unfolding flusher close_wal
run_to_stop env size events rest synced closed complete p = (
  none,
  close_wal synced closed (flusher env 0 (accumulate size (events ++ stop rest ∷ []) []).0 p),
)
run_to_stop env size events rest synced closed (deadline k e) p =
    let batches = (accumulate size (events ++ stop rest ∷ []) []).0 in
    (
      some (wrap "loki batch shutdown did not complete within the deadline" e),
      flusher env k (drop k batches) (close_wal synced closed (flusher env 0 (take k batches) p)),
    )

in_hand-dispatch :
    (batch : List QueuedAlert) (r : List (List QueuedAlert) × List QueuedAlert)
    → (dispatch batch r).1 ≡ r.1
in_hand-dispatch [] r = refl
in_hand-dispatch (q ∷ batch) r = refl

nothing_in_hand :
    (size : ℕ) (events : List Event) (rest batch : List QueuedAlert)
    → (accumulate size (events ++ stop rest ∷ []) batch).1 ≡ []
unfolding accumulate
nothing_in_hand size [] rest batch = in_hand-dispatch (batch ++ rest) ([], [])
nothing_in_hand size (tick ∷ events) rest batch =
    in_hand-dispatch batch _ ∙ nothing_in_hand size events rest []
nothing_in_hand size (stop queued ∷ events) rest batch = in_hand-dispatch (batch ++ queued) ([], [])
nothing_in_hand size (arrive qa ∷ events) rest batch =
    elim (Bool-cases (leb size (length (batch ++ qa ∷ [])))) [
      | inl full ↦
          rw full (in_hand-dispatch (batch ++ qa ∷ []) _ ∙ nothing_in_hand size events rest [])
      | inr room ↦ rw room (nothing_in_hand size events rest (batch ++ qa ∷ []))
    ]

-- The batches have exactly the alerts that were taken from the queue.
batches-arrivals :
    (size : ℕ) (events : List Event) (rest : List QueuedAlert)
    → concat (accumulate size (events ++ stop rest ∷ []) []).0 ≡ arrivals (events ++ stop rest ∷ [])
batches-arrivals size events rest =
    let run = accumulate size (events ++ stop rest ∷ []) [] in
    sym (append-nil (concat run.0))
    ∙ (ap (λ l. concat run.0 ++ l) (sym (nothing_in_hand size events rest []))
        ∙ accumulate-fifo size (events ++ stop rest ∷ []) [])

pub concat-append :
    (xss yss : List (List QueuedAlert)) → concat (xss ++ yss) ≡ concat xss ++ concat yss
concat-append [] yss = refl
concat-append (xs ∷ xss) yss =
    ap (λ l. xs ++ l) (concat-append xss yss) ∙ sym (append_assoc xs (concat xss) (concat yss))

module _ (r s : String) where
  pub alerts_for-append :
      (xs ys : List QueuedAlert) → alerts_for r s (xs ++ ys) ≡ alerts_for r s xs + alerts_for r s ys
  alerts_for-append [] ys = omega arith
  alerts_for-append (q ∷ xs) ys = omega (arith, alerts_for-append xs ys)

  accounted-flusher :
      (env : ℕ → FlushEnv) (n : ℕ) (batches : List (List QueuedAlert)) (p : Processor)
      → accounted (flusher env n batches p).metrics r s
        ≡ accounted p.metrics r s + alerts_for r s (concat batches)
  unfolding flusher
  accounted-flusher env n [] p = omega arith
  accounted-flusher env n (batch ∷ batches) p = omega (
    arith,
    accounted-flusher env (suc n) batches (flush (env n) batch p),
    accounted-flush r s (env n) batch p,
    alerts_for-append batch (concat batches),
  )

  pub accounted-close_wal :
      (synced closed : Bool) (p : Processor)
      → accounted (close_wal synced closed p).metrics r s ≡ accounted p.metrics r s
  unfolding close_wal
  accounted-close_wal synced closed p = elim (Option-cases p.wal) [
    | inl e ↦ rw (e, close_wal)
    | inr (w, e) ↦ rw (e, close_wal)
  ]

  -- Run in sequence from its start to its end, a batch processor counts every alert that it takes from the
  -- queue, what
  -- the stop drains included, exactly once, as saved or as failed, whatever its conversions and pushes
  -- do, and also when the deadline of the shutdown cuts the drain off.
  pub accounted-run_to_stop :
      (env : ℕ → FlushEnv) (size : ℕ) (events : List Event) (rest : List QueuedAlert)
      (synced closed : Bool) (how : Stopped) (p : Processor)
      → accounted (run_to_stop env size events rest synced closed how p).1.metrics r s
        ≡ accounted p.metrics r s + alerts_for r s (arrivals (events ++ stop rest ∷ []))
  unfolding run_to_stop
  accounted-run_to_stop env size events rest synced closed complete p =
      let batches = (accumulate size (events ++ stop rest ∷ []) []).0 in
      accounted-close_wal synced closed (flusher env 0 batches p)
      ∙ (accounted-flusher env 0 batches p
          ∙ ap (λ l. accounted p.metrics r s + alerts_for r s l)
              (batches-arrivals size events rest))
  accounted-run_to_stop env size events rest synced closed (deadline k e) p =
      let batches = (accumulate size (events ++ stop rest ∷ []) []).0 in
      let first = flusher env 0 (take k batches) p in
      let whole : alerts_for r s (concat (take k batches ++ drop k batches))
          ≡ alerts_for r s (arrivals (events ++ stop rest ∷ [])) =
        ap (λ b. alerts_for r s (concat b)) (take-append-drop k batches)
        ∙ ap (λ l. alerts_for r s l) (batches-arrivals size events rest) in
      omega (
        arith,
        accounted-flusher env k (drop k batches) (close_wal synced closed first),
        accounted-close_wal synced closed first,
        accounted-flusher env 0 (take k batches) p,
        ap (λ l. alerts_for r s l) (concat-append (take k batches) (drop k batches)),
        alerts_for-append (concat (take k batches)) (concat (drop k batches)),
        whole,
      )
