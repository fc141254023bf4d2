-- ===== src/Sql/Work/Committed.antt =====
-- Saves that go through (`Save` of internal/storage/sqlstore/mysql.go and postgres.go).
use mathlib.Core.Path.{subst, sym}
use alertsnitch.Base.{Error, ◌<◌, ℕ, ◌≡◌, ap, Option, none, String, Labels, ok, arith}
use alertsnitch.Alert.{AlertGroup}
use alertsnitch.Server.{World}
use alertsnitch.Sql.{Driver, Tx}
use alertsnitch.Sql.Succeeds.{Succeeds, NeverFails}
use alertsnitch.Sql.View.{View, Lawful, Stored}
use alertsnitch.Sql.Mysql.{save_group_mysql}
use alertsnitch.Sql.Mysql.Stored.{save_group_mysql-Stored}
use alertsnitch.Sql.Mysql.Total.{Succeeds-save_group_mysql}
use alertsnitch.Sql.Postgres.{save_group_postgres}
use alertsnitch.Sql.Postgres.Stored.{save_group_postgres-Stored}
use alertsnitch.Sql.Postgres.Total.{Succeeds-save_group_postgres}
use alertsnitch.Sql.Work.{
  Attempt, committed, commit_transaction, end_transaction, run_unit_of_work, save_in_unit,
  save_mysql, save_postgres, mysql_deadlock_max_retries,
}
use alertsnitch.Sql.Work.Atomic.{others_until, Retried, unit_of_work-Retried}

module _ {S : Type 0} (view : View S) (digest : String → String) (io : ℕ → Attempt S) where
  -- An attempt in which nothing fails.
  pub record GoesThrough (n : ℕ) : Type 0 where
    pub lawful : Lawful view (io n).driver
    pub never_fails : NeverFails (io n).driver
    pub begins : (io n).begin ≡ none
    pub commits : (io n).commit ≡ committed

  run_unit_of_work_committed :
      (f : Driver S → Tx S (Unit {0})) (n : ℕ) (s t : S)
      → GoesThrough n
      → f (io n).driver s ≡ (ok tt, t)
      → run_unit_of_work f (io n) s ≡ (none, t)
  unfolding run_unit_of_work end_transaction commit_transaction
  run_unit_of_work_committed f n s t well h = ground (arith, well.begins, well.commits, h)

  -- The save returns no error and leaves the rows of the group stored.
  abbrev pub Saves : AlertGroup → S → Option Error × World S → Type 0
  Saves g s r = (r.0 ≡ none) × Stored view digest g s r.1.backend

  save_in_unit-Saves :
      (f : Driver S → Tx S (Unit {0})) (g : AlertGroup)
      → ((d : Driver S) → NeverFails d → Succeeds (f d))
      → ((d : Driver S) → Lawful view d → (s t : S) → f d s ≡ (ok tt, t) → Stored view digest g s t)
      → (w : World S) (n : ℕ) → n < mysql_deadlock_max_retries
      → ((i : ℕ) → i < n → Retried f io i (others_until io i w.backend))
      → GoesThrough n
      → Saves g (others_until io n w.backend) (save_in_unit f io g w)
  unfolding save_in_unit
  save_in_unit-Saves f g total stores w n lt retried well =
      let s = others_until io n w.backend in
      let (u, t, done) = total (io n).driver well.never_fails s in
      let e =
        unit_of_work-Retried f io n w.backend t lt retried
          (run_unit_of_work_committed f n s t well done) in
      (
        ap (λ r. r.0) e,
        subst (λ r. Stored view digest g s r.1) (sym e) (stores (io n).driver well.lawful s t done),
      )

  -- A MySQL save rides out deadlocks: when nothing fails in an attempt, and the ones before it, of at
  -- most four, have all failed with a deadlock, each before the context was done, the save returns no
  -- error, and the rows of the group are stored by that attempt.
  pub save_mysql-Saves :
      (g : AlertGroup) (extra_labels : Labels) (w : World S) (n : ℕ)
      → n < mysql_deadlock_max_retries
      → ((i : ℕ)
          → i < n
          → Retried (λ d. save_group_mysql d digest g) io i (others_until io i w.backend))
      → GoesThrough n
      → Saves g (others_until io n w.backend) (save_mysql digest io g extra_labels w)
  unfolding save_mysql
  save_mysql-Saves g extra_labels w =
      save_in_unit-Saves (λ d. save_group_mysql d digest g) g
        (λ d law. Succeeds-save_group_mysql d law digest g)
        (λ d law. save_group_mysql-Stored view d law digest g) w

  -- A Postgres save whose first attempt meets no failure returns no error, and the rows of the group are
  -- stored.
  pub save_postgres-Saves :
      (g : AlertGroup) (extra_labels : Labels) (w : World S)
      → GoesThrough 0
      → Saves g w.backend (save_postgres digest io g extra_labels w)
  unfolding save_postgres
  save_postgres-Saves g extra_labels w =
      save_in_unit-Saves (λ d. save_group_postgres d digest g) g
        (λ d law. Succeeds-save_group_postgres d law digest g)
        (λ d law. save_group_postgres-Stored view d law digest g) w 0 (omega arith)
        (λ i lt. absurd (omega arith))
