-- ===== src/Sql.antt =====
-- What the SQL backends share (internal/storage/sqlstore): the statements that they issue, and code
-- that runs in a transaction. The database is a parameter: what a statement returns and what it does
-- to the state that the transaction sees.
pub mod Pairs
pub mod Mysql
pub mod Postgres
pub mod View
pub mod Steps
pub mod Succeeds
pub mod Work
pub mod Health
use alertsnitch.Base.{ℕ, Option, String, Time, Result, ok, err, Error, wrap}

-- The tables that relate an alert group or an alert to a pair.
pub data LinkTable : Type 0 where
  group_label common_label common_annotation alert_label alert_annotation : LinkTable

-- The statements. An upsert returns the ID of its row, whether the row is new or not.
pub data Statement : Type 0 where
  upsert_receiver upsert_external_url upsert_key : String → Statement
  upsert_label_kv upsert_annotation_kv : (key value hash : String) → Statement
  insert_group : (status : String) (receiver_id external_url_id key_id : ℕ) → Statement
  insert_alert :
      (group_id : ℕ) (status : String) (starts_at : Time) (ends_at : Option Time)
      (generator_url fingerprint : String)
      → Statement
  insert_link : LinkTable → (owner kv_id : ℕ) → Statement

-- `tx.ExecContext`, whose result gives the last inserted ID or an error, and
-- `tx.QueryRowContext(...).Scan(&id)`.
pub record Driver (S : Type 0) : Type 0 where
  pub exec : Statement → S → Result (Result ℕ) × S
  pub query : Statement → S → Result ℕ × S

-- Code that runs in a transaction.
abbrev pub Tx : Type 0 → Type 0 → Type 0
Tx S A = S → Result A × S

module _ {S A B : Type 0} where
  abbrev pub and_then : Result A × S → (A → Tx S B) → Result B × S
  and_then (ok a, s) f = f a s
  and_then (err e, s) f = (err e, s)

  infixl 5 ◌>>=◌
  abbrev pub ◌>>=◌ : Tx S A → (A → Tx S B) → Tx S B
  m >>= f = λ s. and_then (m s) f

module _ {S A : Type 0} where
  abbrev pub pure : A → Tx S A
  pure a = λ s. (ok a, s)

  abbrev pub from_result : Result A → Tx S A
  from_result r = λ s. (r, s)

  abbrev pub name_error : String → Result A × S → Result A × S
  name_error what (ok a, s) = (ok a, s)
  name_error what (err e, s) = (err (wrap what e), s)

  -- `if err != nil { return fmt.Errorf("what: %w", err) }`
  abbrev pub failing : String → Tx S A → Tx S A
  failing what m = λ s. name_error what (m s)
