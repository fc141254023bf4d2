-- ===== src/Sql/Health/Checked.antt =====
-- When a database is ready, and when the program connects to it (internal/storage/sqlstore/sqlstore.go).
use text.Mathlib.Text.{◌==◌ as str_eq}
use text.Mathlib.TextEquality.{eq_iff}
use alertsnitch.Base.{
  ◌≡◌, ◌↔◌, refl, inl, inr, true, none, some, String, ok, arith, Bool-cases, Result-cases,
  Option-cases,
}
use alertsnitch.Server.{World, status_ok, ready_probe, healthy_probe}
use alertsnitch.Server.Probes.{probes_iff}
use alertsnitch.Sql.Health.{
  Config, Pool, Database, Format, ModelRead, no_rows, failed, version, supported_model,
  pool_settings, open_pool, check_model, check_liveness, check_readiness, verify_on_connect,
  connect, connect_mysql, connect_postgres,
}

module _ (fmt : Format) where
  -- The server answers and has the model that the program supports.
  abbrev pub IsServing : Database → Type 0
  IsServing db = (db.ping ≡ none) × (db.model ≡ version supported_model)

  check_model_iff : (m : ModelRead) → (check_model fmt m ≡ none) ↔ (m ≡ version supported_model)
  unfolding check_model
  check_model_iff no_rows = (λ h. absurd (cc (h)), λ h. absurd (cc (h)))
  check_model_iff (failed e) = (λ h. absurd (cc (h)), λ h. absurd (cc (h)))
  check_model_iff (version v) = (
    λ h. ground (arith, eq_iff v supported_model),
    λ h. (let e : v ≡ supported_model = cc (h) in ground (arith, eq_iff v supported_model)),
  )

  check_readiness-IsServing :
      (db : Database)
      → ((check_readiness fmt db).ready ≡ true) × ((check_readiness fmt db).healthy ≡ true)
        ↔ IsServing db
  unfolding check_readiness
  check_readiness-IsServing db = elim (Option-cases db.ping) [
    | inr (e, p) ↦ (ground (arith, p), ground (arith, p))
    | inl p ↦ elim (Option-cases (check_model fmt db.model)) [
      | inl m ↦ (λ h. (p, (check_model_iff db.model).0 m), ground (arith, p, m))
      | inr (e, m) ↦ (ground (arith, p, m), λ h. absurd (cc (m, (check_model_iff db.model).1 h.1)))
    ]
  ]

  verify_on_connect-IsServing :
      (name : String) (db : Database) → (verify_on_connect fmt name db ≡ none) ↔ IsServing db
  unfolding verify_on_connect
  verify_on_connect-IsServing name db =
      let (there, back) = check_readiness-IsServing db in
      (λ h. there (ground arith, ground arith), λ h. ground (arith, back h))

  check_liveness-ping : (db : Database) → ((check_liveness fmt db).ready ≡ true) ↔ (db.ping ≡ none)
  unfolding check_liveness
  check_liveness-ping db = elim (Option-cases db.ping) [
    | inr (e, p) ↦ (ground (arith, p), ground (arith, p))
    | inl p ↦ (λ h. p, ground (arith, p))
  ]

  open_pool_iff :
      (driver : String) (cfg : Config) (db : Database)
      → ((p : Pool) × (open_pool fmt driver cfg db ≡ ok p)) ↔ (¬ (cfg.dsn ≡ "") × (db.opens ≡ none))
  unfolding open_pool
  open_pool_iff driver cfg db = elim (Bool-cases (str_eq cfg.dsn "")) [
    | inl e ↦ (λ (p, h). absurd (cc (rw (e) at h)), λ (n, _). absurd (n ((eq_iff cfg.dsn "").0 e)))
    | inr n ↦ elim (Option-cases db.opens) [
      | inr (x, o) ↦ (λ (p, h). absurd (cc (rw (n, o) at h)), λ (_, o'). absurd (cc (o, o')))
      | inl o ↦ (
        λ (p, h). (λ e. absurd (cc (n, (eq_iff cfg.dsn "").1 e)), o),
        λ h. (pool_settings cfg, rw (n, o) refl),
      )
    ]
  ]

  connect_iff :
      (driver : String) (cfg : Config) (db : Database)
      → ((p : Pool) × (connect fmt driver cfg db ≡ ok p))
        ↔ (¬ (cfg.dsn ≡ "") × (db.opens ≡ none) × IsServing db)
  unfolding connect
  connect_iff driver cfg db =
      let (there, back) = open_pool_iff driver cfg db in
      let (serves, serves') = verify_on_connect-IsServing driver db in
      elim (Result-cases (open_pool fmt driver cfg db)) [
        | inr (e, o) ↦ (
          λ (p, h). absurd (ground (arith, o, h)),
          λ (n, opens, _). (let (p, h) = back (n, opens) in absurd (cc (o, h))),
        )
        | inl (pool, o) ↦ elim (Option-cases (verify_on_connect fmt driver db)) [
          | inr (e, v) ↦
              (λ (p, h). absurd (ground (arith, o, v, h)), λ (_, _, s). absurd (cc (v, serves' s)))
          | inl v ↦ (
            λ (p, h). (let (n, opens) = there (pool, o) in (n, opens, serves v)),
            λ h. (pool, ground (arith, o, v)),
          )
        ]
      ]

  -- The readiness probe of a server with an SQL backend answers 200 exactly when the database answers
  -- and has the supported model, the liveness probe exactly when it answers, and the program refuses to
  -- start on a database that is not ready: connecting succeeds exactly when there is a DSN, it can be
  -- opened, and the database answers and has the supported model.
  pub database_probes_iff :
      {B : Type 0} (cfg : Config) (db : Database) (w : World B)
      → (((ready_probe (some (check_readiness fmt db)) w).0 ≡ status_ok) ↔ IsServing db)
        × (((healthy_probe (some (check_liveness fmt db)) w).0 ≡ status_ok) ↔ (db.ping ≡ none))
        × (((p : Pool) × (connect_mysql fmt cfg db ≡ ok p))
            ↔ (¬ (cfg.dsn ≡ "") × (db.opens ≡ none) × IsServing db))
        × (((p : Pool) × (connect_postgres fmt cfg db ≡ ok p))
            ↔ (¬ (cfg.dsn ≡ "") × (db.opens ≡ none) × IsServing db))
  unfolding connect_mysql connect_postgres
  database_probes_iff cfg db w =
      let (ready, healthy, _, _) = probes_iff (some (check_readiness fmt db)) w in
      let (ready', live, _, _) = probes_iff (some (check_liveness fmt db)) w in
      let (there, back) = check_readiness-IsServing db in
      let (there', back') = check_liveness-ping db in
      (
        (λ h. there (ready.0 h), λ h. ready.1 (back h)),
        (λ h. there' (live.0 h), λ h. live.1 (back' h)),
        connect_iff "mysql" cfg db,
        connect_iff "postgres" cfg db,
      )
