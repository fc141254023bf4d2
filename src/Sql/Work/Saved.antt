-- ===== src/Sql/Work/Saved.antt =====
-- `Save` of both SQL backends (internal/storage/sqlstore/mysql.go, postgres.go): the rows and the
-- counters after it.
use alertsnitch.Base.{
  ℕ, ◌+◌, ◌<◌, ◌≡◌, ◌⊎◌, inl, inr, Option, none, some, String, Labels, Error, ok, length, arith,
}
use alertsnitch.Alert.{AlertGroup}
use alertsnitch.Metrics.{accounted, accounted-record_save_outcome}
use alertsnitch.Server.{World}
use alertsnitch.Server.Counts.{counted, Accounts, received-record_save_outcome}
use alertsnitch.Sql.{Driver, Tx}
use alertsnitch.Sql.View.{View, Lawful, Stored}
use alertsnitch.Sql.Mysql.{save_group_mysql}
use alertsnitch.Sql.Mysql.Stored.{save_group_mysql-Stored}
use alertsnitch.Sql.Postgres.{save_group_postgres}
use alertsnitch.Sql.Postgres.Stored.{save_group_postgres-Stored}
use alertsnitch.Sql.Work.{
  Attempt, lost, unit_of_work, save_in_unit, save_mysql, save_postgres, mysql_deadlock_max_retries,
}
use alertsnitch.Sql.Work.Atomic.{others_until, LostIsNoDeadlock, Ending, unit_of_work-Ended}

module _ {S : Type 0} (view : View S) (digest : String → String) (io : ℕ → Attempt S) where
  -- The database from which the attempt `n` begins.
  abbrev pub seen : ℕ → World S → S
  seen n w = others_until io n w.backend

  -- The group is stored by one attempt and the save returns no error, or the save returns an error and
  -- nothing is stored, or the group is stored by a commit whose answer was lost.
  abbrev pub StoredOrNot : AlertGroup → World S → ℕ → Option Error × World S → Type 0
  StoredOrNot g w n (none, w') = Stored view digest g (seen n w) w'.backend
  StoredOrNot g w n (some e, w') =
      (w'.backend ≡ seen n w)
      ⊎ ((x : Error) × ((io n).commit ≡ lost x) × Stored view digest g (seen n w) w'.backend)

  -- What `Save` promises of the rows.
  abbrev pub AllOrNothing : AlertGroup → World S → Option Error × World S → Type 0
  AllOrNothing g w r = (n : ℕ) × (n < mysql_deadlock_max_retries) × StoredOrNot g w n r

  ended_StoredOrNot :
      (f : Driver S → Tx S (Unit {0})) (g : AlertGroup)
      → ((n : ℕ) (s t : S) → f (io n).driver s ≡ (ok tt, t) → Stored view digest g s t)
      → (w w' : World S) (n : ℕ) (e : Option Error) → Ending f io n w.backend (e, w'.backend)
      → StoredOrNot g w n (e, w')
  ended_StoredOrNot f g stores w w' n none h = stores n (seen n w) w'.backend h
  ended_StoredOrNot f g stores w w' n (some e) h = elim h [
    | inl same ↦ inl same
    | inr (x, c, done) ↦ inr (x, c, stores n (seen n w) w'.backend done)
  ]

  save_in_unit-AllOrNothing :
      (f : Driver S → Tx S (Unit {0})) (g : AlertGroup)
      → ((n : ℕ) (s t : S) → f (io n).driver s ≡ (ok tt, t) → Stored view digest g s t)
      → LostIsNoDeadlock io
      → (w : World S) → AllOrNothing g w (save_in_unit f io g w)
  unfolding save_in_unit
  save_in_unit-AllOrNothing f g stores law w =
      let (n, lt, h) = unit_of_work-Ended f io law w.backend in
      (n, lt, ended_StoredOrNot f g stores w _ n _ h)

  -- A MySQL save and a Postgres save are all or nothing: when one returns no error, one of its five
  -- attempts has stored exactly the rows of the group, each alert and each label and annotation related
  -- to the row of its hash, on what the other transactions had left until then; when it returns an
  -- error, it has stored nothing, unless the commit of its last attempt went through and its answer was
  -- lost. The database is taken to be lawful in each attempt, and the error of a lost commit to be no
  -- deadlock.
  pub saves-AllOrNothing :
      ((n : ℕ) → Lawful view (io n).driver)
      → LostIsNoDeadlock io
      → (g : AlertGroup) (extra_labels : Labels) (w : World S)
      → AllOrNothing g w (save_mysql digest io g extra_labels w)
        × AllOrNothing g w (save_postgres digest io g extra_labels w)
  unfolding save_mysql save_postgres
  saves-AllOrNothing lawful law g extra_labels w = (
    save_in_unit-AllOrNothing (λ d. save_group_mysql d digest g) g
        (λ n. save_group_mysql-Stored view (io n).driver (lawful n) digest g) law w,
    save_in_unit-AllOrNothing (λ d. save_group_postgres d digest g) g
        (λ n. save_group_postgres-Stored view (io n).driver (lawful n) digest g) law w,
  )

module _ {S : Type 0} (digest : String → String) (io : ℕ → Attempt S) where
  save_in_unit-once :
      (f : Driver S → Tx S (Unit {0})) (g : AlertGroup) (w : World S) (r s : String)
      → accounted (save_in_unit f io g w).1.metrics r s ≡ accounted w.metrics r s + counted g r s
  unfolding save_in_unit
  save_in_unit-once f g w r s = ground (
    arith,
    accounted-record_save_outcome g.receiver g.status r s (length g.alerts)
        (unit_of_work f io w.backend).0 w.metrics,
  )

  save_in_unit-received :
      (f : Driver S → Tx S (Unit {0})) (g : AlertGroup) (w : World S) (r s : String)
      → (save_in_unit f io g w).1.metrics.alerts_received r s ≡ w.metrics.alerts_received r s
  unfolding save_in_unit
  save_in_unit-received f g w r s =
      received-record_save_outcome g.receiver g.status r s (length g.alerts)
        (unit_of_work f io w.backend).0 w.metrics

  -- Both SQL backends account for what they are given, however the unit of work ends.
  pub saves-Accounts : Accounts (save_mysql digest io) × Accounts (save_postgres digest io)
  unfolding save_mysql save_postgres
  saves-Accounts = (
    record {
      once = λ g l w r s. save_in_unit-once (λ d. save_group_mysql d digest g) g w r s;
      received = λ g l w r s. save_in_unit-received (λ d. save_group_mysql d digest g) g w r s;
    },
    record {
      once = λ g l w r s. save_in_unit-once (λ d. save_group_postgres d digest g) g w r s;
      received = λ g l w r s. save_in_unit-received (λ d. save_group_postgres d digest g) g w r s;
    },
  )
