-- ===== src/Batch/Live/Weights.antt =====
-- Where the alerts of a running batch processor (internal/storage/loki/batch.go) are: sums over its
-- channels, and what each action moves.
use alertsnitch.Base.{
  ℕ, zero, suc, ◌+◌, ◌≡◌, refl, ap, Bool, true, false, ltb, Option, none, some, List, [], ◌∷◌, ◌++◌,
  arith, length, inl, inr, Bool-cases,
}
use alertsnitch.Labels.{is_empty}
use alertsnitch.Wal.{Codec}
use alertsnitch.Batch.{QueuedAlert}
use alertsnitch.Batch.Accumulate.{concat}
use alertsnitch.Batch.Live.{
  channel_room, Live, Action, sends, cancels, replays, abandons, takes, dispatches, stops, pick,
  behind, picked, take_alert, dispatch_batch, replay_next, wants_more, may_dispatch, is_running,
  act,
}

module _ (f : QueuedAlert → ℕ) where
  abbrev pub weight : List QueuedAlert → ℕ
  weight [] = 0
  weight (qa ∷ batch) = f qa + weight batch

  pub weight-append : (xs ys : List QueuedAlert) → weight (xs ++ ys) ≡ weight xs + weight ys
  weight-append [] ys = omega arith
  weight-append (qa ∷ xs) ys = omega (arith, weight-append xs ys)

  pub weight-concat :
      (sent : List (List QueuedAlert)) (batch : List QueuedAlert)
      → weight (concat (sent ++ batch ∷ [])) ≡ weight (concat sent) + weight batch
  weight-concat [] batch = omega (arith, weight-append batch [])
  weight-concat (b ∷ sent) batch = omega (
    arith,
    weight-append b (concat (sent ++ batch ∷ [])),
    weight-append b (concat sent),
    weight-concat sent batch,
  )

  -- On the way from a caller, or from the log, to the flusher.
  abbrev pub pending : Live → ℕ
  pending s =
      weight s.replaying
      + weight s.waiting
      + weight s.queue
      + weight s.in_hand
      + weight (concat s.sent)

  -- What is on the way, and what was given up.
  abbrev pub held : Live → ℕ
  held s = pending s + weight s.given_up

  -- One of the callers was picked, and the others are left.
  abbrev pub Picks : List QueuedAlert → Option (QueuedAlert × List QueuedAlert) → Type 0
  Picks waiting none = Unit
  Picks waiting (some (qa, rest)) = weight waiting ≡ f qa + weight rest

  Picks-behind :
      (q : QueuedAlert) (waiting : List QueuedAlert) (o : Option (QueuedAlert × List QueuedAlert))
      → Picks waiting o
      → Picks (q ∷ waiting) (behind q o)
  Picks-behind q waiting none h = h
  Picks-behind q waiting (some (qa, rest)) h = omega arith

  pub Picks-pick : (i : ℕ) (waiting : List QueuedAlert) → Picks waiting (pick i waiting)
  unfolding pick
  Picks-pick i [] = _
  Picks-pick zero (q ∷ waiting) = refl
  Picks-pick (suc i) (q ∷ waiting) = Picks-behind q waiting (pick i waiting) (Picks-pick i waiting)

-- A step that only moves alerts between the channels, or to those that are given up.
pub record IsMove (s s' : Live) : Type 0 where
  pub kept : (f : QueuedAlert → ℕ) → held f s' ≡ held f s
  pub delivered : s'.delivered ≡ s.delivered
  pub processor : s'.processor ≡ s.processor
  pub begun : s'.begun ≡ s.begun

IsMove-refl : (s : Live) → IsMove s s
IsMove-refl s = record { kept = λ f. refl; delivered = refl; processor = refl; begun = refl }

IsMove-take_alert :
    (may : Bool) (s : Live) (queue : List QueuedAlert)
    → s.queue ≡ queue
    → IsMove s (take_alert may queue s)
IsMove-take_alert true s [] h = IsMove-refl s
IsMove-take_alert true s (qa ∷ queue) h = record {
  kept = λ f. omega (arith, ap (weight f) h, weight-append f s.in_hand (qa ∷ []));
  delivered = refl;
  processor = refl;
  begun = refl;
}
IsMove-take_alert false s queue h = IsMove-refl s

IsMove-replay_next :
    (may : Bool) (s : Live) (replaying : List QueuedAlert)
    → s.replaying ≡ replaying
    → IsMove s (replay_next may replaying s)
IsMove-replay_next true s [] h = IsMove-refl s
IsMove-replay_next true s (qa ∷ replaying) h = record {
  kept = λ f. omega (arith, ap (weight f) h, weight-append f s.queue (qa ∷ []));
  delivered = refl;
  processor = refl;
  begun = refl;
}
IsMove-replay_next false s replaying h = IsMove-refl s

IsMove-sends :
    (s : Live) (o : Option (QueuedAlert × List QueuedAlert))
    → ((f : QueuedAlert → ℕ) → Picks f s.waiting o)
    → IsMove s (picked o (λ qa rest. record s { waiting = rest; queue = s.queue ++ qa ∷ [] }) s)
IsMove-sends s none h = IsMove-refl s
IsMove-sends s (some (qa, rest)) h = record {
  kept = λ f. omega (arith, h f, weight-append f s.queue (qa ∷ []));
  delivered = refl;
  processor = refl;
  begun = refl;
}

IsMove-cancels :
    (s : Live) (o : Option (QueuedAlert × List QueuedAlert))
    → ((f : QueuedAlert → ℕ) → Picks f s.waiting o)
    → IsMove s (picked o (λ qa rest. record s { waiting = rest; given_up = qa ∷ s.given_up }) s)
IsMove-cancels s none h = IsMove-refl s
IsMove-cancels s (some (qa, rest)) h = record {
  kept = λ f. omega (arith, h f);
  delivered = refl;
  processor = refl;
  begun = refl;
}

IsMove-dispatch_batch : (s : Live) → IsMove s (dispatch_batch s)
IsMove-dispatch_batch s = elim (Bool-cases (is_empty s.in_hand)) [
  | inl e ↦ rw e (record { kept = λ f. refl; delivered = refl; processor = refl; begun = refl })
  | inr e ↦ elim (Bool-cases (ltb (length s.sent) (channel_room s.delivered))) [
    | inl room ↦
        rw (e, room)
          (record {
            kept = λ f. omega (arith, weight-concat f s.sent s.in_hand);
            delivered = refl;
            processor = refl;
            begun = refl;
          })
    | inr full ↦ rw (e, full) (IsMove-refl s)
  ]
]

-- The actions that count nothing, append nothing and acknowledge nothing.
pub data IsMoving : Action → Type 0 where
  sending : (i : ℕ) → IsMoving (sends i)
  cancelling : (i : ℕ) → IsMoving (cancels i)
  resending : IsMoving replays
  abandoning : IsMoving abandons
  taking : IsMoving takes
  dispatching : IsMoving dispatches
  stopping : IsMoving stops

pub IsMove-act :
    (c : Codec) (size room : ℕ) {a : Action}
    → IsMoving a
    → (s : Live) → IsMove s (act c size room a s)
unfolding act
IsMove-act c size room (sending i) s = elim (Bool-cases (ltb (length s.queue) room)) [
  | inl fits ↦ rw fits (IsMove-sends s (pick i s.waiting) (λ f. Picks-pick f i s.waiting))
  | inr full ↦ rw full (IsMove-refl s)
]
IsMove-act c size room (cancelling i) s =
    IsMove-cancels s (pick i s.waiting) (λ f. Picks-pick f i s.waiting)
IsMove-act c size room resending s =
    IsMove-replay_next (ltb (length s.queue) room) s s.replaying refl
IsMove-act c size room abandoning s = elim (Bool-cases (is_running s.phase)) [
  | inl e ↦ rw e (IsMove-refl s)
  | inr e ↦ rw e (record {
    kept = λ f. omega (arith, weight-append f s.replaying s.given_up);
    delivered = refl;
    processor = refl;
    begun = refl;
  })
]
IsMove-act c size room taking s =
    IsMove-take_alert (wants_more s.phase size s.in_hand) s s.queue refl
IsMove-act c size room dispatching s = elim (Bool-cases (may_dispatch s.phase s.queue)) [
  | inl e ↦ rw e (IsMove-dispatch_batch s)
  | inr e ↦ rw e (IsMove-refl s)
]
IsMove-act c size room stopping s = record {
  kept = λ f. refl;
  delivered = refl;
  processor = refl;
  begun = refl;
}
