-- ===== src/Sql/Work.antt =====
-- Units of work (`unitOfWork` and `runUnitOfWork` of internal/storage/sqlstore/sqlstore.go,
-- `isMySQLDeadlock` of kv.go), and `Save` of both dialects. What database/sql and the context do in an
-- attempt is a parameter: an `Attempt`.
pub mod Atomic
pub mod Saved
pub mod Committed
use alertsnitch.Base.{
  ℕ, zero, suc, ◌+◌, Bool, true, false, ◌||◌, not, ◌==◌, Option, none, some, String, Labels, Result,
  ok, err, Error, message, external, too_large, mysql_error, wrap, wrap_both, panicked,
  if◌then◌else◌, length,
}
use alertsnitch.Alert.{AlertGroup}
use alertsnitch.Metrics.{record_save_outcome}
use alertsnitch.Server.{World, Save}
use alertsnitch.Sql.{Driver, Tx}
use alertsnitch.Sql.Mysql.{save_group_mysql}
use alertsnitch.Sql.Postgres.{save_group_postgres}

-- `Tx.Rollback`: done, done already by the driver (`sql.ErrTxDone`), or failed. In each case nothing of
-- the transaction stays.
pub data Rollback : Type 0 where
  rolled_back already_done : Rollback
  rollback_fails : Error → Rollback

-- `Tx.Commit`: done, refused, or done while the answer was lost.
pub data Commit : Type 0 where
  committed : Commit
  refused lost : Error → Commit

-- What an attempt meets: the error of `BeginTx`, the statements, how the transaction ends, whether
-- `ctx` is done after the attempt or in the pause after it, and what other transactions commit before
-- the next attempt.
pub record Attempt (S : Type 0) : Type 0 where
  pub begin : Option Error
  pub driver : Driver S
  pub rollback : Rollback
  pub commit : Commit
  pub done_after : Bool
  pub done_in_pause : Bool
  pub others : S → S

abbrev or_else : Option ℕ → Option ℕ → Option ℕ
or_else none b = b
or_else (some a) b = some a

-- `errors.As(err, &me)`: the number of the first `*mysql.MySQLError` of the tree, in depth-first order.
unfoldable pub mysql_number : Error → Option ℕ
mysql_number (message m) = none
mysql_number (external m) = none
mysql_number (too_large n) = none
mysql_number (mysql_error n) = some n
mysql_number (wrap c e) = mysql_number e
mysql_number (panicked c) = none
mysql_number (wrap_both c e f) = or_else (mysql_number e) (mysql_number f)

-- `isMySQLDeadlock`
unfoldable pub is_mysql_deadlock : Error → Bool
unfolding mysql_number
is_mysql_deadlock e = elim (mysql_number e) [ none ↦ false | some n ↦ n == 1213 ]

abbrev pub mysql_deadlock_max_retries : ℕ
mysql_deadlock_max_retries = 5

-- What `runUnitOfWork` returns when the work has failed.
abbrev pub execution_failed : Rollback → Error → Error
execution_failed rolled_back e = wrap "failed execution" e
execution_failed already_done e = wrap "failed execution" e
execution_failed (rollback_fails r) e =
    wrap_both "failed to rollback transaction (%w) after failing execution" r e

-- What it returns when the commit has failed.
abbrev pub commit_failed : Error → Error
commit_failed e =
    if is_mysql_deadlock e then wrap "failed execution" e else wrap "failed to commit transaction" e

module _ {S : Type 0} where
  -- `tx.Commit()`, from the state before the transaction and the one after its work.
  unfoldable pub commit_transaction : Commit → (before after : S) → Option Error × S
  unfolding is_mysql_deadlock
  commit_transaction committed before after = (none, after)
  commit_transaction (refused e) before after = (some (commit_failed e), before)
  commit_transaction (lost e) before after = (some (commit_failed e), after)

  -- How the transaction ends, from the state before it and what the work returns.
  unfoldable pub end_transaction : Rollback → Commit → S → Result (Unit {0}) × S → Option Error × S
  unfolding commit_transaction
  end_transaction b c before (err e, after) = (some (execution_failed b e), before)
  end_transaction b c before (ok u, after) = commit_transaction c before after

  -- `b.db.BeginTx(ctx, nil)`
  abbrev pub begun : Option Error → S → Option Error × S → Option Error × S
  begun (some e) before r = (some (wrap "failed to begin transaction" e), before)
  begun none before r = r

  -- `runUnitOfWork`
  unfoldable pub run_unit_of_work : (Driver S → Tx S (Unit {0})) → Attempt S → S → Option Error × S
  unfolding end_transaction
  run_unit_of_work f a s = begun a.begin s (end_transaction a.rollback a.commit s (f a.driver s))

  -- The loop ends with the error of the attempt `n`: at the tests after the attempt or in the pause.
  unfoldable pub ends_loop : Attempt S → ℕ → Error → Bool
  unfolding is_mysql_deadlock
  ends_loop a n e =
      (a.done_after || not (is_mysql_deadlock e))
      || ((n + 1 == mysql_deadlock_max_retries) || a.done_in_pause)

  -- What the loop does with the result of the attempt `n`.
  abbrev pub after_attempt :
      Attempt S → ℕ → (Error → S → Option Error × S) → Option Error × S → Option Error × S
  after_attempt a n again (none, t) = (none, t)
  after_attempt a n again (some e, t) = elim (ends_loop a n e) [
    | true ↦ (some e, t)
    | false ↦ again e (a.others t)
  ]

  -- The loop of `unitOfWork`, from the attempt `n` on, with `left` attempts left. `last` is the error of
  -- the attempt before.
  unfoldable pub attempt_from :
      (Driver S → Tx S (Unit {0}))
      → (ℕ → Attempt S)
      → (n left : ℕ) → Option Error
      → S
      → Option Error × S
  unfolding run_unit_of_work ends_loop
  attempt_from f io n zero last s = (last, s)
  attempt_from f io n (suc left) last s =
      after_attempt (io n) n (λ e t. attempt_from f io (suc n) left (some e) t)
        (run_unit_of_work f (io n) s)

  -- `unitOfWork`
  unfoldable pub unit_of_work :
      (Driver S → Tx S (Unit {0})) → (ℕ → Attempt S) → S → Option Error × S
  unfolding attempt_from
  unit_of_work f io s = attempt_from f io 0 mysql_deadlock_max_retries none s

  -- What both `Save`s do around their transaction: metrics.RecordSaveOutcome(...) and return.
  unfoldable pub save_in_unit :
      (Driver S → Tx S (Unit {0})) → (ℕ → Attempt S) → AlertGroup → World S → Option Error × World S
  unfolding unit_of_work
  save_in_unit f io g w =
      let (e, s) = unit_of_work f io w.backend in
      (
        e,
        record {
          metrics = record_save_outcome g.receiver g.status (length g.alerts) e w.metrics;
          backend = s;
        },
      )

  -- `MySQL.Save`
  unfoldable pub save_mysql : (String → String) → (ℕ → Attempt S) → Save S
  unfolding save_in_unit
  save_mysql digest io g extra_labels w = save_in_unit (λ d. save_group_mysql d digest g) io g w

  -- `Postgres.Save`
  unfoldable pub save_postgres : (String → String) → (ℕ → Attempt S) → Save S
  unfolding save_in_unit
  save_postgres digest io g extra_labels w =
      save_in_unit (λ d. save_group_postgres d digest g) io g w
