-- ===== src/Sql/Postgres.antt =====
-- The Postgres dialect (`Save` and the inserts of internal/storage/sqlstore/postgres.go, the `postgres`
-- functions of kv.go).
pub mod Stored
pub mod Total
use alertsnitch.Base.{ℕ, List, [], ◌∷◌, String, Labels}
use alertsnitch.Alert.{Alert, AlertGroup}
use alertsnitch.Sql.{
  LinkTable, group_label, common_label, common_annotation, alert_label, alert_annotation,
  upsert_receiver, upsert_external_url, upsert_key, upsert_label_kv, upsert_annotation_kv,
  insert_group, insert_link, Driver, Tx, ◌>>=◌, pure, failing,
}
use alertsnitch.Sql.Pairs.{kv_pair_hash}
use alertsnitch.Sql.Mysql.{alert_row}

module _ {S : Type 0} (d : Driver S) (digest : String → String) where
  -- `postgresGetLabelKVID` and `postgresGetAnnotationKVID`
  unfoldable pub postgres_get_label_kv_id : String → String → Tx S ℕ
  postgres_get_label_kv_id k v = d.query (upsert_label_kv k v (kv_pair_hash digest k v))

  unfoldable pub postgres_get_annotation_kv_id : String → String → Tx S ℕ
  postgres_get_annotation_kv_id k v = d.query (upsert_annotation_kv k v (kv_pair_hash digest k v))

  -- The loop of the five functions that insert links, which differ in the table, in the function that
  -- resolves a pair, and in the messages.
  unfoldable pub insert_links_postgres :
      (String → String → Tx S ℕ) → LinkTable → String → String → ℕ → Labels → Tx S (Unit {0})
  insert_links_postgres get_id table unresolved what owner [] = pure tt
  insert_links_postgres get_id table unresolved what owner ((k, v) ∷ kv) = do
    kv_id ← failing unresolved (get_id k v)
    _ ← failing what (d.exec (insert_link table owner kv_id))
    insert_links_postgres get_id table unresolved what owner kv

  unfoldable pub insert_group_labels_postgres : ℕ → Labels → Tx S (Unit {0})
  insert_group_labels_postgres =
      insert_links_postgres postgres_get_label_kv_id group_label
        "failed to resolve GroupLabel LabelKV" "failed to insert into GroupLabel"

  unfoldable pub insert_common_labels_postgres : ℕ → Labels → Tx S (Unit {0})
  insert_common_labels_postgres =
      insert_links_postgres postgres_get_label_kv_id common_label
        "failed to resolve CommonLabel LabelKV" "failed to insert into CommonLabel"

  unfoldable pub insert_common_annotations_postgres : ℕ → Labels → Tx S (Unit {0})
  insert_common_annotations_postgres =
      insert_links_postgres postgres_get_annotation_kv_id common_annotation
        "failed to resolve CommonAnnotation AnnotationKV" "failed to insert into CommonAnnotation"

  unfoldable pub insert_alert_labels_postgres : ℕ → Labels → Tx S (Unit {0})
  insert_alert_labels_postgres =
      insert_links_postgres postgres_get_label_kv_id alert_label
        "failed to resolve AlertLabel LabelKV" "failed to insert into AlertLabel"

  unfoldable pub insert_alert_annotations_postgres : ℕ → Labels → Tx S (Unit {0})
  insert_alert_annotations_postgres =
      insert_links_postgres postgres_get_annotation_kv_id alert_annotation
        "failed to resolve AlertAnnotation AnnotationKV" "failed to insert into AlertAnnotation"

  -- `insertAlertsPostgres`
  unfoldable pub insert_alerts_postgres : ℕ → List Alert → Tx S (Unit {0})
  insert_alerts_postgres group_id [] = pure tt
  insert_alerts_postgres group_id (a ∷ alerts) = do
    id ← failing "failed to insert into Alert" (d.query (alert_row group_id a))
    _ ← insert_alert_labels_postgres id a.labels
    _ ← insert_alert_annotations_postgres id a.annotations
    insert_alerts_postgres group_id alerts

  -- The function that `Save` runs in a transaction.
  unfoldable pub save_group_postgres : AlertGroup → Tx S (Unit {0})
  save_group_postgres g = do
    receiver_id ←
        failing "failed to resolve AlertGroup AlertGroupReceiver"
          (d.query (upsert_receiver g.receiver))
    external_url_id ←
        failing "failed to resolve AlertGroup AlertGroupExternalURL"
          (d.query (upsert_external_url g.external_url))
    group_key_id ←
        failing "failed to resolve AlertGroup AlertGroupKey" (d.query (upsert_key g.group_key))
    id ←
        failing "failed to insert into AlertGroups"
          (d.query (insert_group g.status receiver_id external_url_id group_key_id))
    _ ← insert_group_labels_postgres id g.group_labels
    _ ← insert_common_labels_postgres id g.common_labels
    _ ← insert_common_annotations_postgres id g.common_annotations
    insert_alerts_postgres id g.alerts
