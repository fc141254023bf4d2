-- ===== src/Sql/Mysql.antt =====
-- The MySQL dialect (`Save` and the inserts of internal/storage/sqlstore/mysql.go, the `mysql` functions
-- and the caches of kv.go).
pub mod Cache
pub mod Inserted
pub mod Linked
pub mod Stored
pub mod Total
use alertsnitch.Base.{
  ℕ, Option, none, some, List, [], ◌∷◌, String, Labels, Result, ok, err, ltb, if◌then◌else◌,
}
use alertsnitch.Base.Maps.{lookup, insert}
use alertsnitch.Alert.{Alert, AlertGroup}
use alertsnitch.Sql.{
  LinkTable, group_label, common_label, common_annotation, alert_label, alert_annotation, Statement,
  upsert_receiver, upsert_external_url, upsert_key, upsert_label_kv, upsert_annotation_kv,
  insert_group, insert_alert, insert_link, Driver, Tx, ◌>>=◌, pure, from_result, failing,
}
use alertsnitch.Sql.Pairs.{KvPair, kv_pair_hash, unique_sorted_kv_pairs}

abbrev pub Cache : Type 0
Cache = List (String × ℕ)

-- `kvIDFromCache`; a missing key gives 0.
unfoldable pub kv_id_from_cache : (String → String) → Cache → String → String → ℕ
unfolding lookup
kv_id_from_cache digest cache k v = elim (lookup (kv_pair_hash digest k v) cache) [
  | none ↦ 0
  | some id ↦ id
]

-- The statement that inserts an alert; an end before the start is left out.
unfoldable pub alert_row : ℕ → Alert → Statement
alert_row group_id a =
    insert_alert group_id a.status a.starts_at
      (if ltb a.ends_at a.starts_at then none else some a.ends_at) a.generator_url a.fingerprint

-- The maps whose pairs are resolved first.
abbrev pub alert_labels : List Alert → List Labels
alert_labels [] = []
alert_labels (a ∷ alerts) = a.labels ∷ alert_labels alerts

abbrev pub alert_annotations : List Alert → List Labels
alert_annotations [] = []
alert_annotations (a ∷ alerts) = a.annotations ∷ alert_annotations alerts

abbrev pub label_maps : AlertGroup → List Labels
label_maps g = g.group_labels ∷ g.common_labels ∷ alert_labels g.alerts

abbrev pub annotation_maps : AlertGroup → List Labels
annotation_maps g = g.common_annotations ∷ alert_annotations g.alerts

module _ {S : Type 0} (d : Driver S) (digest : String → String) where
  -- `mysqlUpsertID`, and every other `ExecContext` followed by `LastInsertId`.
  unfoldable pub mysql_upsert_id : Statement → Tx S ℕ
  mysql_upsert_id st = do r ← d.exec st; from_result r

  -- `mysqlGetLabelKVID` and `mysqlGetAnnotationKVID`
  unfoldable pub mysql_get_label_kv_id : String → String → Tx S ℕ
  unfolding mysql_upsert_id
  mysql_get_label_kv_id k v = mysql_upsert_id (upsert_label_kv k v (kv_pair_hash digest k v))

  unfoldable pub mysql_get_annotation_kv_id : String → String → Tx S ℕ
  unfolding mysql_upsert_id
  mysql_get_annotation_kv_id k v =
      mysql_upsert_id (upsert_annotation_kv k v (kv_pair_hash digest k v))

  -- The loop that both caches are filled by, with the function that resolves a pair.
  unfoldable pub resolve_pairs : (String → String → Tx S ℕ) → List KvPair → Cache → Tx S Cache
  unfolding insert
  resolve_pairs get_id [] cache = pure cache
  resolve_pairs get_id (p ∷ pairs) cache = do
    id ← get_id p.key p.value
    resolve_pairs get_id pairs (insert p.hash id cache)

  -- `resolveLabelKVCache` and `resolveAnnotationKVCache`
  unfoldable pub resolve_label_kv_cache : List Labels → Tx S Cache
  unfolding resolve_pairs mysql_get_label_kv_id
  resolve_label_kv_cache maps =
      resolve_pairs mysql_get_label_kv_id (unique_sorted_kv_pairs digest maps) []

  unfoldable pub resolve_annotation_kv_cache : List Labels → Tx S Cache
  unfolding resolve_pairs mysql_get_annotation_kv_id
  resolve_annotation_kv_cache maps =
      resolve_pairs mysql_get_annotation_kv_id (unique_sorted_kv_pairs digest maps) []

  -- The loop of the five functions that insert links, which differ in the table and the message.
  unfoldable pub insert_links_mysql : LinkTable → String → ℕ → Cache → Labels → Tx S (Unit {0})
  unfolding kv_id_from_cache
  insert_links_mysql table what owner cache [] = pure tt
  insert_links_mysql table what owner cache ((k, v) ∷ kv) = do
    _ ← failing what (d.exec (insert_link table owner (kv_id_from_cache digest cache k v)))
    insert_links_mysql table what owner cache kv

  unfoldable pub insert_group_labels_mysql : ℕ → Labels → Cache → Tx S (Unit {0})
  insert_group_labels_mysql id kv cache =
      insert_links_mysql group_label "failed to insert into GroupLabel" id cache kv

  unfoldable pub insert_common_labels_mysql : ℕ → Labels → Cache → Tx S (Unit {0})
  insert_common_labels_mysql id kv cache =
      insert_links_mysql common_label "failed to insert into CommonLabel" id cache kv

  unfoldable pub insert_common_annotations_mysql : ℕ → Labels → Cache → Tx S (Unit {0})
  insert_common_annotations_mysql id kv cache =
      insert_links_mysql common_annotation "failed to insert into CommonAnnotation" id cache kv

  unfoldable pub insert_alert_labels_mysql : ℕ → Labels → Cache → Tx S (Unit {0})
  insert_alert_labels_mysql id kv cache =
      insert_links_mysql alert_label "failed to insert into AlertLabel" id cache kv

  unfoldable pub insert_alert_annotations_mysql : ℕ → Labels → Cache → Tx S (Unit {0})
  insert_alert_annotations_mysql id kv cache =
      insert_links_mysql alert_annotation "failed to insert into AlertAnnotation" id cache kv

  -- `insertAlertsMySQL`
  unfoldable pub insert_alerts_mysql : ℕ → List Alert → Cache → Cache → Tx S (Unit {0})
  unfolding alert_row insert_links_mysql insert_alert_labels_mysql insert_alert_annotations_mysql
  insert_alerts_mysql group_id [] labels annotations = pure tt
  insert_alerts_mysql group_id (a ∷ alerts) labels annotations = do
    r ← failing "failed to insert into Alert" (d.exec (alert_row group_id a))
    id ← failing "failed to get Alert inserted id" (from_result r)
    _ ← insert_alert_labels_mysql id a.labels labels
    _ ← insert_alert_annotations_mysql id a.annotations annotations
    insert_alerts_mysql group_id alerts labels annotations

  -- The function that `Save` runs in a transaction.
  unfoldable pub save_group_mysql : AlertGroup → Tx S (Unit {0})
  save_group_mysql g = do
    receiver_id ←
        failing "failed to resolve AlertGroup AlertGroupReceiver"
          (mysql_upsert_id (upsert_receiver g.receiver))
    external_url_id ←
        failing "failed to resolve AlertGroup AlertGroupExternalURL"
          (mysql_upsert_id (upsert_external_url g.external_url))
    group_key_id ←
        failing "failed to resolve AlertGroup AlertGroupKey"
          (mysql_upsert_id (upsert_key g.group_key))
    labels ← failing "failed to resolve LabelKV" (resolve_label_kv_cache (label_maps g))
    annotations ←
        failing "failed to resolve AnnotationKV" (resolve_annotation_kv_cache (annotation_maps g))
    r ←
        failing "failed to insert into AlertGroups"
          (d.exec (insert_group g.status receiver_id external_url_id group_key_id))
    id ← failing "failed to get AlertGroups inserted id" (from_result r)
    _ ← insert_group_labels_mysql id g.group_labels labels
    _ ← insert_common_labels_mysql id g.common_labels labels
    _ ← insert_common_annotations_mysql id g.common_annotations annotations
    insert_alerts_mysql id g.alerts labels annotations
