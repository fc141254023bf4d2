-- ===== src/Batch/Accumulate.antt =====
-- The batches of `accumulate` (internal/storage/loki/batch.go) against the alerts that arrive.
use alertsnitch.Base.{
  ℕ, ◌+◌, ◌≤◌, ◌<◌, ◌≡◌, refl, sym, ap, ◌∙◌, inl, inr, List, [], ◌∷◌, ◌++◌, append_assoc,
  append-nil, arith, leb, length, length-append, All, Bool-cases,
}
use alertsnitch.Batch.{QueuedAlert, Event, arrive, tick, stop, dispatch, accumulate}

-- The alerts that the accumulator takes from the queue, in order.
abbrev pub arrivals : List Event → List QueuedAlert
arrivals [] = []
arrivals (arrive qa ∷ events) = qa ∷ arrivals events
arrivals (tick ∷ events) = arrivals events
arrivals (stop queued ∷ events) = queued

abbrev pub concat {ℓ} : {A : Type ℓ} → List (List A) → List A
concat [] = []
concat (xs ∷ xss) = xs ++ concat xss

-- The alerts that are drained at the stop.
abbrev pub drained : List Event → ℕ
drained [] = 0
drained (arrive qa ∷ events) = drained events
drained (tick ∷ events) = drained events
drained (stop queued ∷ events) = length queued

-- The batches sent and what is in hand, put together.
abbrev pub together : List (List QueuedAlert) × List QueuedAlert → List QueuedAlert
together (sent, left) = concat sent ++ left

together-dispatch :
    (batch : List QueuedAlert) (r : List (List QueuedAlert) × List QueuedAlert)
    → together (dispatch batch r) ≡ batch ++ together r
together-dispatch [] r = refl
together-dispatch (q ∷ batch) (sent, left) = append_assoc (q ∷ batch) (concat sent) left

-- Nothing is lost, doubled or reordered: the batches sent, and then what is in hand, are what was in
-- hand before and then the arrivals.
pub accumulate-fifo :
    (size : ℕ) (events : List Event) (batch : List QueuedAlert)
    → together (accumulate size events batch) ≡ batch ++ arrivals events
unfolding accumulate
accumulate-fifo size [] batch = sym (append-nil batch)
accumulate-fifo size (tick ∷ events) batch =
    together-dispatch batch (accumulate size events [])
    ∙ ap (λ l. batch ++ l) (accumulate-fifo size events [])
accumulate-fifo size (stop queued ∷ events) batch =
    together-dispatch (batch ++ queued) ([], []) ∙ append-nil (batch ++ queued)
accumulate-fifo size (arrive qa ∷ events) batch =
    elim (Bool-cases (leb size (length (batch ++ qa ∷ [])))) [
      | inl full ↦ rw full (
          together-dispatch (batch ++ qa ∷ []) (accumulate size events [])
          ∙ (ap (λ l. (batch ++ qa ∷ []) ++ l) (accumulate-fifo size events [])
              ∙ append_assoc batch (qa ∷ []) (arrivals events)))
      | inr room ↦ rw room (
          accumulate-fifo size events (batch ++ qa ∷ [])
          ∙ append_assoc batch (qa ∷ []) (arrivals events))
    ]

-- A batch is not empty, and has at most `limit` alerts.
abbrev pub Fits : ℕ → List QueuedAlert → Type 0
Fits limit b = (0 < length b) × (length b ≤ limit)

Fits-dispatch :
    (limit : ℕ) (batch : List QueuedAlert) (r : List (List QueuedAlert) × List QueuedAlert)
    → length batch ≤ limit
    → All (Fits limit) r.0
    → All (Fits limit) (dispatch batch r).0
Fits-dispatch limit [] r h a = a
Fits-dispatch limit (q ∷ batch) r h a = ((omega arith, h), a)

-- From a batch that is not full, with a positive size, no batch that is sent is empty, and none has
-- more than `size` alerts beside those drained at the stop.
pub accumulate-Fits :
    (size : ℕ) (events : List Event) (batch : List QueuedAlert)
    → length batch < size
    → All (Fits (size + drained events)) (accumulate size events batch).0
unfolding accumulate
accumulate-Fits size [] batch h = tt
accumulate-Fits size (tick ∷ events) batch h =
    Fits-dispatch (size + drained events) batch (accumulate size events []) (omega arith)
      (accumulate-Fits size events [] (omega arith))
accumulate-Fits size (stop queued ∷ events) batch h =
    Fits-dispatch (size + length queued) (batch ++ queued) ([], [])
      (omega (arith, length-append batch queued)) tt
accumulate-Fits size (arrive qa ∷ events) batch h =
    elim (Bool-cases (leb size (length (batch ++ qa ∷ [])))) [
      | inl full ↦ rw full (
          Fits-dispatch (size + drained events) (batch ++ qa ∷ []) (accumulate size events [])
            (omega (arith, length-append batch (qa ∷ [])))
            (accumulate-Fits size events [] (omega arith)))
      | inr room ↦ rw room (accumulate-Fits size events (batch ++ qa ∷ []) (ground arith))
    ]
