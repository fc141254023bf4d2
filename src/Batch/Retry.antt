-- ===== src/Batch/Retry.antt =====
-- `deliver` (internal/storage/loki/batch.go) and its attempts.
use alertsnitch.Base.{
  ℕ, zero, suc, ◌≤◌, ◌<◌, ◌≡◌, ◌≢◌, ◌↔◌, refl, inl, inr, false, ◌&&◌, Option, none, List, [], ◌∷◌,
  Error, arith, pos, ltb, Option-cases,
}
use alertsnitch.Timestamps.{Stream}
use alertsnitch.Batch.{Attempt, deliver_loop, deliver}

-- From attempt `i`, attempt `i + k` succeeds, the ones before it fail, and the run context ends
-- neither after one of these nor in the wait behind it.
abbrev pub SucceedsAfter : (ℕ → Attempt) → ℕ → ℕ → Type 0
SucceedsAfter env zero i = (env i).push ≡ none
SucceedsAfter env (suc k) i =
    ((env i).push ≢ none)
    × ((env i).cancelled_after ≡ false)
    × ((env (suc i)).cancelled_before ≡ false)
    × SucceedsAfter env k (suc i)

-- The first test of an attempt: no wait stands before attempt 0.
abbrev Starts : (ℕ → Attempt) → ℕ → Type 0
Starts env zero = Unit {0}
Starts env (suc i) = (env (suc i)).cancelled_before ≡ false

starts : (env : ℕ → Attempt) (i : ℕ) → Starts env i → (ltb 0 i && (env i).cancelled_before) ≡ false
starts env zero h = refl
starts env (suc i) h = ground arith

module _ (env : ℕ → Attempt) where
  loop_complete :
      (left k i : ℕ) (e : Option Error)
      → k < left
      → Starts env i
      → SucceedsAfter env k i
      → deliver_loop left i env e ≡ none
  unfolding deliver_loop
  loop_complete zero k i e' h s r = elim h [ ]
  loop_complete (suc left) zero i e' h s r = rw (starts env i s) (rw r)
  loop_complete (suc left) (suc k) i e' h s r =
      rw (starts env i s) (elim (Option-cases (env i).push) [
        | inl e ↦ absurd (r.0 e)
        | inr (x, e) ↦ rw e (rw r.1 (loop_complete left k (suc i) _ (omega arith) r.2 r.3))
      ])

  waited :
      (left i : ℕ) (e : Option Error)
      → deliver_loop (suc left) (suc i) env e ≡ none
      → (env (suc i)).cancelled_before ≡ false
  unfolding deliver_loop
  waited left i e h = ground arith

  loop_sound :
      (left i : ℕ) (e : Option Error)
      → deliver_loop (suc left) i env e ≡ none
      → (k : ℕ) × (k ≤ left) × SucceedsAfter env k i
  unfolding deliver_loop
  loop_sound zero i e h = elim (Option-cases (env i).push) [
    | inl p ↦ (0, omega arith, p)
    | inr (x, p) ↦ absurd (ground arith)
  ]
  loop_sound (suc left) i e h = elim (Option-cases (env i).push) [
    | inl p ↦ (0, omega arith, p)
    | inr (x, p) ↦
        let kept : (env i).cancelled_after ≡ false = ground arith in
        let failed : (env i).push ≢ none = λ q. cc (p, q) in
        let rest : deliver_loop (suc left) (suc i) env (env i).push ≡ none = ground arith in
        let (k, le, r) = loop_sound left (suc i) (env i).push rest in
        (suc k, omega arith, (failed, kept, waited left i (env i).push rest, r))
  ]

-- With a maximum of `n` retries, a delivery of at least one stream reports success exactly when one
-- of the first `n + 1` attempts succeeds, the run context having ended neither after a failure
-- before it nor in a wait up to it.
pub deliver_iff :
    (n : ℕ) (env : ℕ → Attempt) (streams : List Stream)
    → streams ≢ []
    → (deliver (pos n) env streams ≡ none) ↔ ((k : ℕ) × (k ≤ n) × SucceedsAfter env k 0)
unfolding deliver
deliver_iff n env [] h = absurd (h refl)
deliver_iff n env (s ∷ streams) h = (
  λ e. loop_sound env n 0 none e,
  λ (k, le, r). loop_complete env (suc n) k 0 none (omega arith) tt r,
)
