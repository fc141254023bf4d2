-- ===== src/Sql/Mysql/Total.antt =====
-- A MySQL save in which no statement fails (internal/storage/sqlstore/mysql.go).
use alertsnitch.Base.{ℕ, ◌∙◌, ap, List, [], ◌∷◌, String, Labels, ok}
use alertsnitch.Alert.{Alert, AlertGroup}
use alertsnitch.Sql.{
  LinkTable, Statement, insert_group, Driver, Tx, ◌>>=◌, from_result, failing, and_then, name_error,
}
use alertsnitch.Sql.Pairs.{KvPair, unique_sorted_kv_pairs}
use alertsnitch.Sql.Mysql.{
  label_maps, annotation_maps, Cache, alert_row, mysql_upsert_id, mysql_get_label_kv_id,
  mysql_get_annotation_kv_id, resolve_pairs, resolve_label_kv_cache, resolve_annotation_kv_cache,
  insert_links_mysql, insert_group_labels_mysql, insert_common_labels_mysql,
  insert_common_annotations_mysql, insert_alert_labels_mysql, insert_alert_annotations_mysql,
  insert_alerts_mysql, save_group_mysql,
}
use alertsnitch.Base.Maps.{insert}
use alertsnitch.Sql.Succeeds.{Succeeds, Succeeds-bind, Succeeds-failing, Succeeds-pure, NeverFails}

module _ {S : Type 0} (d : Driver S) (law : NeverFails d) (digest : String → String) where
  executes : (st : Statement) → Succeeds (d.exec st)
  executes st s = let (id, t, e) = law.executes st s in (ok id, t, e)

  Succeeds-mysql_upsert_id : (st : Statement) → Succeeds (mysql_upsert_id d digest st)
  unfolding mysql_upsert_id
  Succeeds-mysql_upsert_id st s =
      let (id, t, e) = law.executes st s in (id, t, ap (λ r. and_then r from_result) e)

  Succeeds-inserted :
      (what what' : String) (st : Statement) (f : ℕ → Tx S (Unit {0}))
      → ((id : ℕ) → Succeeds (f id))
      → Succeeds (failing what (d.exec st) >>= λ r. (failing what' (from_result r) >>= f))
  Succeeds-inserted what what' st f k s =
      let (id, t, e) = law.executes st s in
      let (b, u, e') = k id t in
      (
        b,
        u,
        ap (λ x. and_then (name_error what x) (λ r. (failing what' (from_result r) >>= f))) e ∙ e',
      )

  Succeeds-resolve_pairs :
      (get_id : String → String → Tx S ℕ)
      → ((k v : String) → Succeeds (get_id k v))
      → (pairs : List KvPair) (cache : Cache) → Succeeds (resolve_pairs d digest get_id pairs cache)
  unfolding resolve_pairs
  Succeeds-resolve_pairs get_id h [] cache = Succeeds-pure cache
  Succeeds-resolve_pairs get_id h (p ∷ pairs) cache =
      Succeeds-bind (get_id p.key p.value) _ (h p.key p.value)
        (λ id. Succeeds-resolve_pairs get_id h pairs (insert p.hash id cache))

  Succeeds-insert_links_mysql :
      (table : LinkTable) (what : String) (owner : ℕ) (cache : Cache) (kv : Labels)
      → Succeeds (insert_links_mysql d digest table what owner cache kv)
  unfolding insert_links_mysql
  Succeeds-insert_links_mysql table what owner cache [] = Succeeds-pure tt
  Succeeds-insert_links_mysql table what owner cache ((k, v) ∷ kv) =
      Succeeds-bind _ _ (Succeeds-failing what (d.exec _) (executes _))
        (λ _. Succeeds-insert_links_mysql table what owner cache kv)

  Succeeds-insert_group_labels_mysql :
      (id : ℕ) (kv : Labels) (cache : Cache)
      → Succeeds (insert_group_labels_mysql d digest id kv cache)
  unfolding insert_group_labels_mysql
  Succeeds-insert_group_labels_mysql id kv cache = Succeeds-insert_links_mysql _ _ id cache kv

  Succeeds-insert_common_labels_mysql :
      (id : ℕ) (kv : Labels) (cache : Cache)
      → Succeeds (insert_common_labels_mysql d digest id kv cache)
  unfolding insert_common_labels_mysql
  Succeeds-insert_common_labels_mysql id kv cache = Succeeds-insert_links_mysql _ _ id cache kv

  Succeeds-insert_common_annotations_mysql :
      (id : ℕ) (kv : Labels) (cache : Cache)
      → Succeeds (insert_common_annotations_mysql d digest id kv cache)
  unfolding insert_common_annotations_mysql
  Succeeds-insert_common_annotations_mysql id kv cache = Succeeds-insert_links_mysql _ _ id cache kv

  Succeeds-insert_alert_labels_mysql :
      (id : ℕ) (kv : Labels) (cache : Cache)
      → Succeeds (insert_alert_labels_mysql d digest id kv cache)
  unfolding insert_alert_labels_mysql
  Succeeds-insert_alert_labels_mysql id kv cache = Succeeds-insert_links_mysql _ _ id cache kv

  Succeeds-insert_alert_annotations_mysql :
      (id : ℕ) (kv : Labels) (cache : Cache)
      → Succeeds (insert_alert_annotations_mysql d digest id kv cache)
  unfolding insert_alert_annotations_mysql
  Succeeds-insert_alert_annotations_mysql id kv cache = Succeeds-insert_links_mysql _ _ id cache kv

  Succeeds-resolve_label_kv_cache :
      (maps : List Labels) → Succeeds (resolve_label_kv_cache d digest maps)
  unfolding resolve_label_kv_cache mysql_get_label_kv_id
  Succeeds-resolve_label_kv_cache maps =
      Succeeds-resolve_pairs (mysql_get_label_kv_id d digest) (λ k v. Succeeds-mysql_upsert_id _)
        (unique_sorted_kv_pairs digest maps) []

  Succeeds-resolve_annotation_kv_cache :
      (maps : List Labels) → Succeeds (resolve_annotation_kv_cache d digest maps)
  unfolding resolve_annotation_kv_cache mysql_get_annotation_kv_id
  Succeeds-resolve_annotation_kv_cache maps =
      Succeeds-resolve_pairs (mysql_get_annotation_kv_id d digest)
        (λ k v. Succeeds-mysql_upsert_id _) (unique_sorted_kv_pairs digest maps) []

  Succeeds-insert_alerts_mysql :
      (group_id : ℕ) (alerts : List Alert) (labels annotations : Cache)
      → Succeeds (insert_alerts_mysql d digest group_id alerts labels annotations)
  unfolding insert_alerts_mysql
  Succeeds-insert_alerts_mysql group_id [] labels annotations = Succeeds-pure tt
  Succeeds-insert_alerts_mysql group_id (a ∷ alerts) labels annotations =
      Succeeds-inserted _ _ (alert_row group_id a) _ (λ id.
        Succeeds-bind _ _ (Succeeds-insert_alert_labels_mysql id a.labels labels) (λ _.
          Succeeds-bind _ _ (Succeeds-insert_alert_annotations_mysql id a.annotations annotations)
            (λ _. Succeeds-insert_alerts_mysql group_id alerts labels annotations)))

  pub Succeeds-save_group_mysql : (g : AlertGroup) → Succeeds (save_group_mysql d digest g)
  unfolding save_group_mysql
  Succeeds-save_group_mysql g =
      Succeeds-bind _ _ (Succeeds-failing _ _ (Succeeds-mysql_upsert_id _)) (λ receiver_id.
        Succeeds-bind _ _ (Succeeds-failing _ _ (Succeeds-mysql_upsert_id _)) (λ external_url_id.
          Succeeds-bind _ _ (Succeeds-failing _ _ (Succeeds-mysql_upsert_id _)) (λ group_key_id.
            Succeeds-bind _ _
              (Succeeds-failing _ _ (Succeeds-resolve_label_kv_cache (label_maps g)))
              (λ labels.
                Succeeds-bind _ _
                  (Succeeds-failing _ _ (Succeeds-resolve_annotation_kv_cache (annotation_maps g)))
                  (λ annotations.
                    Succeeds-inserted _ _
                      (insert_group g.status receiver_id external_url_id group_key_id) _
                      (λ id.
                        Succeeds-bind _ _
                          (Succeeds-insert_group_labels_mysql id g.group_labels labels)
                          (λ _.
                            Succeeds-bind _ _
                              (Succeeds-insert_common_labels_mysql id g.common_labels labels)
                              (λ _.
                                Succeeds-bind _ _
                                  (Succeeds-insert_common_annotations_mysql id g.common_annotations
                                    annotations)
                                  (λ _.
                                    Succeeds-insert_alerts_mysql id g.alerts labels
                                      annotations)))))))))
