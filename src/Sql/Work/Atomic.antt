-- ===== src/Sql/Work/Atomic.antt =====
-- A unit of work as a whole (`unitOfWork` of internal/storage/sqlstore/sqlstore.go): its attempts, and
-- what is left of them.
use mathlib.Core.Path.{subst}
use alertsnitch.Base.{
  ℕ, ◌+◌, ◌<◌, ◌≡◌, refl, sym, ◌⊎◌, inl, inr, true, false, ◌==◌, Option, none, some, Result, ok,
  err, Error, arith, Bool-cases, suc, zero, ap, ◌∙◌,
}
use alertsnitch.Sql.{Driver, Tx}
use alertsnitch.Sql.Work.{
  Attempt, Rollback, Commit, committed, refused, lost, is_mysql_deadlock, commit_failed,
  mysql_number, commit_transaction, begun, after_attempt, ends_loop, end_transaction,
  run_unit_of_work, attempt_from, unit_of_work, mysql_deadlock_max_retries,
}

is_mysql_deadlock-commit_failed :
    (e : Error) → is_mysql_deadlock (commit_failed e) ≡ is_mysql_deadlock e
unfolding is_mysql_deadlock mysql_number
is_mysql_deadlock-commit_failed e = ground arith

-- What the attempt `n` finds when the ones before it have left nothing.
abbrev pub others_until : {S : Type 0} → (ℕ → Attempt S) → ℕ → S → S
others_until io zero s = s
others_until io (suc n) s = (io n).others (others_until io n s)

-- An error that comes with a lost commit is no deadlock.
abbrev pub LostIsNoDeadlock : {S : Type 0} → (ℕ → Attempt S) → Type 0
LostIsNoDeadlock io = (n : ℕ) (x : Error) → (io n).commit ≡ lost x → is_mysql_deadlock x ≡ false

module _ {S : Type 0} (f : Driver S → Tx S (Unit {0})) (io : ℕ → Attempt S) where
  -- The commit of an attempt went through although it returned an error.
  abbrev pub Lost : Attempt S → S → S → Type 0
  Lost a s t = (x : Error) × (a.commit ≡ lost x) × (f a.driver s ≡ (ok tt, t))

  -- What one attempt does: all of the work, or nothing unless its commit is lost.
  abbrev One : Commit → Driver S → S → Option Error × S → Type 0
  One c d s (none, t) = f d s ≡ (ok tt, t)
  One c d s (some e, t) =
      (t ≡ s)
      ⊎ ((x : Error) × (c ≡ lost x)
          × (f d s ≡ (ok tt, t))
          × (is_mysql_deadlock e ≡ is_mysql_deadlock x))

  committed-One :
      (c : Commit) (d : Driver S) (s t : S)
      → f d s ≡ (ok tt, t)
      → One c d s (commit_transaction c s t)
  unfolding commit_transaction
  committed-One committed d s t h = h
  committed-One (refused e) d s t h = inl refl
  committed-One (lost e) d s t h = inr (e, refl, h, is_mysql_deadlock-commit_failed e)

  ended-One :
      (b : Rollback) (c : Commit) (d : Driver S) (s : S) (r : Result (Unit {0}) × S)
      → f d s ≡ r
      → One c d s (end_transaction b c s r)
  unfolding end_transaction
  ended-One b c d s (err e, t) h = inl refl
  ended-One b c d s (ok u, t) h = committed-One c d s t h

  begun-One :
      (b : Option Error) (c : Commit) (d : Driver S) (s : S) (r : Option Error × S)
      → One c d s r
      → One c d s (begun b s r)
  begun-One none c d s r h = h
  begun-One (some e) c d s r h = inl refl

  run_unit_of_work-One : (a : Attempt S) (s : S) → One a.commit a.driver s (run_unit_of_work f a s)
  unfolding run_unit_of_work
  run_unit_of_work-One a s =
      begun-One a.begin a.commit a.driver s _
        (ended-One a.rollback a.commit a.driver s (f a.driver s) refl)

  -- How the unit of work, begun in `s`, ends with the attempt `n`.
  abbrev pub Ending : ℕ → S → Option Error × S → Type 0
  Ending n s (none, t) = f (io n).driver (others_until io n s) ≡ (ok tt, t)
  Ending n s (some e, t) = (t ≡ others_until io n s) ⊎ Lost (io n) (others_until io n s) t

  abbrev pub Ended : S → Option Error × S → Type 0
  Ended s r = (n : ℕ) × (n < mysql_deadlock_max_retries) × Ending n s r

  retried_deadlock :
      (a : Attempt S) (n : ℕ) (e : Error)
      → ends_loop a n e ≡ false
      → (is_mysql_deadlock e ≡ true) × ((n + 1 == mysql_deadlock_max_retries) ≡ false)
  unfolding ends_loop
  retried_deadlock a n e h = (ground arith, ground arith)

  after_end :
      (a : Attempt S) (n : ℕ) (again : Error → S → Option Error × S) (e : Error) (t : S)
      → ends_loop a n e ≡ true
      → after_attempt a n again (some e, t) ≡ (some e, t)
  after_end a n again e t h = ground (arith, h)

  after_retry :
      (a : Attempt S) (n : ℕ) (again : Error → S → Option Error × S) (e : Error) (t : S)
      → ends_loop a n e ≡ false
      → after_attempt a n again (some e, t) ≡ again e (a.others t)
  after_retry a n again e t h = ground (arith, h)

  Ended-after :
      (law : LostIsNoDeadlock io) (n : ℕ) (s : S) (again : Error → S → Option Error × S)
      (r : Option Error × S)
      → n < mysql_deadlock_max_retries
      → One (io n).commit (io n).driver (others_until io n s) r
      → ((e : Error) → ends_loop (io n) n e ≡ false → Ended s (again e (others_until io (suc n) s)))
      → Ended s (after_attempt (io n) n again r)
  Ended-after law n s again (none, t) h o next = (n, h, o)
  Ended-after law n s again (some e, t) h o next = elim (Bool-cases (ends_loop (io n) n e)) [
    | inl b ↦
        subst (Ended s) (sym (after_end (io n) n again e t b))
          (n, h, elim o [ inl same ↦ inl same | inr (x, c, w, _) ↦ inr (x, c, w) ])
    | inr b ↦ subst (Ended s) (sym (after_retry (io n) n again e t b)) (elim o [
      | inl same ↦ subst (λ u. Ended s (again e ((io n).others u))) (sym same) (next e b)
      | inr (x, c, w, d) ↦ absurd (cc (law n x c, d, (retried_deadlock (io n) n e b).0))
    ])
  ]

  attempt_from-Ended :
      LostIsNoDeadlock io
      → (left n : ℕ) (last : Option Error) (s : S) → n + suc left ≡ mysql_deadlock_max_retries
      → Ended s (attempt_from f io n (suc left) last (others_until io n s))
  unfolding attempt_from
  attempt_from-Ended law zero n last s h =
      Ended-after law n s (λ e t. attempt_from f io (suc n) zero (some e) t)
        (run_unit_of_work f (io n) (others_until io n s)) (omega arith)
        (run_unit_of_work-One (io n) (others_until io n s))
        (λ e b. absurd (ground (arith, retried_deadlock (io n) n e b, h)))
  attempt_from-Ended law (suc left) n last s h =
      Ended-after law n s (λ e t. attempt_from f io (suc n) (suc left) (some e) t)
        (run_unit_of_work f (io n) (others_until io n s)) (omega arith)
        (run_unit_of_work-One (io n) (others_until io n s))
        (λ e b. attempt_from-Ended law left (suc n) (some e) s (omega arith))

  -- A unit of work is all or nothing, however often it is tried: when it returns no error, one of its
  -- five attempts has done its whole work, once, on what the other transactions had left until then;
  -- when it returns an error, nothing but the work of those others is left, unless the commit of the
  -- last attempt went through and its answer was lost. The error of a lost commit is taken to be no
  -- deadlock.
  pub unit_of_work-Ended : LostIsNoDeadlock io → (s : S) → Ended s (unit_of_work f io s)
  unfolding unit_of_work
  unit_of_work-Ended law s = attempt_from-Ended law 4 0 none s refl

  -- The attempt fails with a deadlock, before the context is done.
  pub record Retried (n : ℕ) (s : S) : Type 0 where
    pub error : Error
    pub fails : run_unit_of_work f (io n) s ≡ (some error, s)
    pub deadlock : is_mysql_deadlock error ≡ true
    pub not_done : (io n).done_after ≡ false
    pub not_in_pause : (io n).done_in_pause ≡ false

  Retried-step :
      (n left : ℕ) (last : Option Error) (s : S)
      → (n + 1 == mysql_deadlock_max_retries) ≡ false
      → (r : Retried n s)
      → attempt_from f io n (suc left) last s
        ≡ attempt_from f io (suc n) left (some r.error) ((io n).others s)
  unfolding attempt_from
  Retried-step n left last s h r =
      ap (after_attempt (io n) n (λ e t. attempt_from f io (suc n) left (some e) t)) r.fails
      ∙ after_retry (io n) n (λ e t. attempt_from f io (suc n) left (some e) t) r.error s
          (unfold ends_loop in ground (arith, r.deadlock, r.not_done, r.not_in_pause, h))

  attempt_from-Retried :
      (k left n : ℕ) (last : Option Error) (s t : S)
      → n + suc left ≡ mysql_deadlock_max_retries
      → k < suc left
      → ((i : ℕ) → i < n + k → Retried i (others_until io i s))
      → ((m : ℕ) → m ≡ n + k → run_unit_of_work f (io m) (others_until io m s) ≡ (none, t))
      → attempt_from f io n (suc left) last (others_until io n s) ≡ (none, t)
  attempt_from-Retried zero left n last s t h lt retried done =
      unfold attempt_from in
      ap (after_attempt (io n) n (λ e t. attempt_from f io (suc n) left (some e) t))
        (done n (omega arith))
  attempt_from-Retried (suc k) (suc left) n last s t h lt retried done =
      let r = retried n (omega arith) in
      Retried-step n (suc left) last (others_until io n s) (ground arith) r
      ∙ attempt_from-Retried k left (suc n) (some r.error) s t (omega arith) (omega arith)
          (λ i b. retried i (omega arith)) (λ m b. done m (omega arith))
  attempt_from-Retried (suc k) zero n last s t h lt retried done = absurd (omega arith)

  -- Deadlocks are ridden out: when an attempt succeeds and the ones before it, of at most four, have
  -- all failed with a deadlock, each before the context is done, the unit of work returns no error and
  -- leaves what that attempt has done.
  pub unit_of_work-Retried :
      (n : ℕ) (s t : S)
      → n < mysql_deadlock_max_retries
      → ((i : ℕ) → i < n → Retried i (others_until io i s))
      → run_unit_of_work f (io n) (others_until io n s) ≡ (none, t)
      → unit_of_work f io s ≡ (none, t)
  unfolding unit_of_work
  unit_of_work-Retried n s t lt retried done =
      attempt_from-Retried n 4 0 none s t refl (omega arith) (λ i b. retried i (omega arith))
        (λ m b.
          let same : n ≡ m = omega arith in
          subst (λ i. run_unit_of_work f (io i) (others_until io i s) ≡ (none, t)) same done)
