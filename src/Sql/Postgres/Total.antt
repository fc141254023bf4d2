-- ===== src/Sql/Postgres/Total.antt =====
-- A Postgres save in which no statement fails (internal/storage/sqlstore/postgres.go).
use alertsnitch.Base.{ℕ, List, [], ◌∷◌, String, Labels, ok}
use alertsnitch.Alert.{Alert, AlertGroup}
use alertsnitch.Sql.{LinkTable, Statement, upsert_label_kv, upsert_annotation_kv, Driver, Tx}
use alertsnitch.Sql.Pairs.{kv_pair_hash}
use alertsnitch.Sql.Postgres.{
  postgres_get_label_kv_id, postgres_get_annotation_kv_id, insert_links_postgres,
  insert_group_labels_postgres, insert_common_labels_postgres, insert_common_annotations_postgres,
  insert_alert_labels_postgres, insert_alert_annotations_postgres, insert_alerts_postgres,
  save_group_postgres,
}
use alertsnitch.Sql.Succeeds.{Succeeds, Succeeds-bind, Succeeds-failing, Succeeds-pure, NeverFails}

module _ {S : Type 0} (d : Driver S) (law : NeverFails d) (digest : String → String) where
  executes : (st : Statement) → Succeeds (d.exec st)
  executes st s = let (id, t, e) = law.executes st s in (ok id, t, e)

  Succeeds-insert_links_postgres :
      (get_id : String → String → Tx S ℕ) (table : LinkTable) (unresolved what : String)
      → ((k v : String) → Succeeds (get_id k v))
      → (owner : ℕ) (kv : Labels)
      → Succeeds (insert_links_postgres d digest get_id table unresolved what owner kv)
  unfolding insert_links_postgres
  Succeeds-insert_links_postgres get_id table unresolved what h owner [] = Succeeds-pure tt
  Succeeds-insert_links_postgres get_id table unresolved what h owner ((k, v) ∷ kv) =
      Succeeds-bind _ _ (Succeeds-failing unresolved (get_id k v) (h k v)) (λ kv_id.
        Succeeds-bind _ _ (Succeeds-failing what (d.exec _) (executes _))
          (λ _. Succeeds-insert_links_postgres get_id table unresolved what h owner kv))

  label_Succeeds : (k v : String) → Succeeds (postgres_get_label_kv_id d digest k v)
  unfolding postgres_get_label_kv_id
  label_Succeeds k v = law.queries (upsert_label_kv k v (kv_pair_hash digest k v))

  annotation_Succeeds : (k v : String) → Succeeds (postgres_get_annotation_kv_id d digest k v)
  unfolding postgres_get_annotation_kv_id
  annotation_Succeeds k v = law.queries (upsert_annotation_kv k v (kv_pair_hash digest k v))

  Succeeds-insert_group_labels_postgres :
      (id : ℕ) (kv : Labels) → Succeeds (insert_group_labels_postgres d digest id kv)
  unfolding insert_group_labels_postgres
  Succeeds-insert_group_labels_postgres id kv =
      Succeeds-insert_links_postgres _ _ _ _ label_Succeeds id kv

  Succeeds-insert_common_labels_postgres :
      (id : ℕ) (kv : Labels) → Succeeds (insert_common_labels_postgres d digest id kv)
  unfolding insert_common_labels_postgres
  Succeeds-insert_common_labels_postgres id kv =
      Succeeds-insert_links_postgres _ _ _ _ label_Succeeds id kv

  Succeeds-insert_common_annotations_postgres :
      (id : ℕ) (kv : Labels) → Succeeds (insert_common_annotations_postgres d digest id kv)
  unfolding insert_common_annotations_postgres
  Succeeds-insert_common_annotations_postgres id kv =
      Succeeds-insert_links_postgres _ _ _ _ annotation_Succeeds id kv

  Succeeds-insert_alert_labels_postgres :
      (id : ℕ) (kv : Labels) → Succeeds (insert_alert_labels_postgres d digest id kv)
  unfolding insert_alert_labels_postgres
  Succeeds-insert_alert_labels_postgres id kv =
      Succeeds-insert_links_postgres _ _ _ _ label_Succeeds id kv

  Succeeds-insert_alert_annotations_postgres :
      (id : ℕ) (kv : Labels) → Succeeds (insert_alert_annotations_postgres d digest id kv)
  unfolding insert_alert_annotations_postgres
  Succeeds-insert_alert_annotations_postgres id kv =
      Succeeds-insert_links_postgres _ _ _ _ annotation_Succeeds id kv

  Succeeds-insert_alerts_postgres :
      (group_id : ℕ) (alerts : List Alert)
      → Succeeds (insert_alerts_postgres d digest group_id alerts)
  unfolding insert_alerts_postgres
  Succeeds-insert_alerts_postgres group_id [] = Succeeds-pure tt
  Succeeds-insert_alerts_postgres group_id (a ∷ alerts) =
      Succeeds-bind _ _ (Succeeds-failing _ (d.query _) (law.queries _)) (λ id.
        Succeeds-bind _ _ (Succeeds-insert_alert_labels_postgres id a.labels) (λ _.
          Succeeds-bind _ _ (Succeeds-insert_alert_annotations_postgres id a.annotations)
            (λ _. Succeeds-insert_alerts_postgres group_id alerts)))

  pub Succeeds-save_group_postgres : (g : AlertGroup) → Succeeds (save_group_postgres d digest g)
  unfolding save_group_postgres
  Succeeds-save_group_postgres g =
      Succeeds-bind _ _ (Succeeds-failing _ (d.query _) (law.queries _)) (λ receiver_id.
        Succeeds-bind _ _ (Succeeds-failing _ (d.query _) (law.queries _)) (λ external_url_id.
          Succeeds-bind _ _ (Succeeds-failing _ (d.query _) (law.queries _)) (λ group_key_id.
            Succeeds-bind _ _ (Succeeds-failing _ (d.query _) (law.queries _)) (λ id.
              Succeeds-bind _ _ (Succeeds-insert_group_labels_postgres id g.group_labels) (λ _.
                Succeeds-bind _ _ (Succeeds-insert_common_labels_postgres id g.common_labels) (λ _.
                  Succeeds-bind _ _
                    (Succeeds-insert_common_annotations_postgres id g.common_annotations)
                    (λ _. Succeeds-insert_alerts_postgres id g.alerts)))))))
