-- ===== src/Examples/Sql.antt =====
-- The theorems of the SQL backends at concrete inputs.
use alertsnitch.Base.{
  ℕ, ◌<◌, ◌≡◌, ◌↔◌, refl, false, none, some, [], ◌∷◌, ok, List, String, mysql_error, arith, zero,
  suc, pos, negsuc, Labels,
}
use alertsnitch.Server.{World, status_ok, ready_probe, healthy_probe}
use alertsnitch.Server.Counts.{Accounts}
use alertsnitch.Sql.{Driver, Tx}
use alertsnitch.Sql.Pairs.{unique_sorted_kv_pairs, is_seen, kv_pair_hash}
use alertsnitch.Base.Sorted.{In}
use alertsnitch.Sql.Pairs.Seen.{hashes, all_hashes}
use alertsnitch.Sql.Pairs.Locks.{WaitsFor, WaitsFor-acyclic, unique_sorted_kv_pairs_canonical}
use alertsnitch.Sql.Health.{
  Config, Database, version, Format, Pool, check_readiness, check_liveness, connect_mysql,
  connect_postgres,
}
use alertsnitch.Sql.Health.Checked.{IsServing, database_probes_iff}
use alertsnitch.Sql.Mysql.{
  save_group_mysql, mysql_upsert_id, resolve_label_kv_cache, resolve_annotation_kv_cache,
  insert_group_labels_mysql, insert_links_mysql, insert_common_labels_mysql,
  insert_common_annotations_mysql, insert_alerts_mysql,
}
use alertsnitch.Sql.Work.{
  Attempt, rolled_back, committed, refused, run_unit_of_work, save_mysql, save_postgres,
}
use alertsnitch.Sql.Work.Atomic.{others_until, LostIsNoDeadlock, Retried}
use alertsnitch.Sql.Work.Saved.{AllOrNothing, saves-AllOrNothing, saves-Accounts}
use alertsnitch.Sql.Work.Committed.{GoesThrough, Saves, save_mysql-Saves}
use alertsnitch.Examples.Data.{group, zeros}
use alertsnitch.Examples.Tables.{Tables, tables, driver, driver-Lawful, driver-NeverFails}

abbrev empty : Tables
empty = record { names = []; facts = [] }

-- A digest that keeps all of its input.
abbrev digest : String → String
digest s = s

-- The first attempt ends with a deadlock, the next is committed.
abbrev io : ℕ → Attempt Tables
io n = record {
  begin = none;
  driver = driver;
  rollback = rolled_back;
  commit = elim n [ zero ↦ refused (mysql_error 1213) | suc k ↦ committed ];
  done_after = false;
  done_in_pause = false;
  others = λ s. s;
}

io-LostIsNoDeadlock : LostIsNoDeadlock io
io-LostIsNoDeadlock zero x h = absurd (cc (h))
io-LostIsNoDeadlock (suc n) x h = absurd (cc (h))

abbrev world : World Tables
world = record { metrics = zeros; backend = empty }

saves-AllOrNothing_example :
    AllOrNothing tables digest io group world (save_mysql digest io group [] world)
    × AllOrNothing tables digest io group world (save_postgres digest io group [] world)
saves-AllOrNothing_example =
    saves-AllOrNothing tables digest io (λ n. driver-Lawful) io-LostIsNoDeadlock group [] world

saves-Accounts_example : Accounts (save_mysql digest io) × Accounts (save_postgres digest io)
saves-Accounts_example = saves-Accounts digest io

abbrev work : Driver Tables → Tx Tables (Unit {0})
work d = save_group_mysql d digest group

first_Retried : (i : ℕ) → i < 1 → Retried work io i (others_until io i empty)
unfolding run_unit_of_work save_group_mysql mysql_upsert_id resolve_label_kv_cache
    resolve_annotation_kv_cache unique_sorted_kv_pairs is_seen kv_pair_hash
    insert_group_labels_mysql insert_links_mysql insert_common_labels_mysql
    insert_common_annotations_mysql insert_alerts_mysql
first_Retried zero h = record {
  error = _;
  fails = refl;
  deadlock = refl;
  not_done = refl;
  not_in_pause = refl;
}
first_Retried (suc i) h = absurd (omega arith)

second_GoesThrough : GoesThrough tables digest io 1
second_GoesThrough = record {
  lawful = driver-Lawful;
  never_fails = driver-NeverFails;
  begins = refl;
  commits = refl;
}

save_mysql-Saves_example : Saves tables digest io group empty (save_mysql digest io group [] world)
save_mysql-Saves_example =
    save_mysql-Saves tables digest io group [] world 1 (omega arith) first_Retried
      second_GoesThrough

WaitsFor-acyclic_example : ¬ WaitsFor digest "a" "a"
WaitsFor-acyclic_example = WaitsFor-acyclic digest "a"

abbrev one_map : List Labels
one_map = (("a", "1") ∷ ("b", "2") ∷ []) ∷ []

abbrev two_maps : List Labels
two_maps = (("b", "2") ∷ []) ∷ (("b", "2") ∷ ("a", "1") ∷ []) ∷ []

same_pairs : (h : String) → In h (all_hashes digest one_map) ↔ In h (all_hashes digest two_maps)
same_pairs h = ground arith

unique_sorted_kv_pairs_canonical_example :
    hashes (unique_sorted_kv_pairs digest one_map) ≡ hashes (unique_sorted_kv_pairs digest two_maps)
unique_sorted_kv_pairs_canonical_example =
    unique_sorted_kv_pairs_canonical digest one_map two_maps same_pairs

abbrev database : Database
database = record { opens = none; ping = none; model = version "0.2.0"; closes = none }

abbrev config : Config
config = record {
  dsn = "user@/alerts";
  max_idle_conns = pos 1;
  max_open_conns = pos 10;
  max_conn_lifetime_seconds = pos 600;
  max_conn_idle_time_seconds = negsuc 0;
}

abbrev fmt : Format
fmt = record { text = λ e. ""; sprintf = λ f args. f }

database_probes_iff_example :
    (((ready_probe (some (check_readiness fmt database)) world).0 ≡ status_ok)
      ↔ IsServing fmt database)
    × (((healthy_probe (some (check_liveness fmt database)) world).0 ≡ status_ok)
        ↔ (database.ping ≡ none))
    × (((p : Pool) × (connect_mysql fmt config database ≡ ok p))
        ↔ (¬ (config.dsn ≡ "") × (database.opens ≡ none) × IsServing fmt database))
    × (((p : Pool) × (connect_postgres fmt config database ≡ ok p))
        ↔ (¬ (config.dsn ≡ "") × (database.opens ≡ none) × IsServing fmt database))
database_probes_iff_example = database_probes_iff fmt config database world
