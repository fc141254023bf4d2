-- ===== src/Sql/Postgres/Stored.antt =====
-- The rows that the transaction of a Postgres save adds (internal/storage/sqlstore/postgres.go).
use alertsnitch.Base.{ℕ, ◌≡◌, refl, ap, List, [], ◌∷◌, String, Labels, ok}
use alertsnitch.Alert.{Alert, AlertGroup}
use alertsnitch.Sql.{
  LinkTable, group_label, common_label, common_annotation, alert_label, alert_annotation,
  upsert_receiver, upsert_external_url, upsert_key, upsert_label_kv, upsert_annotation_kv,
  insert_group, insert_link, Driver, Tx,
}
use alertsnitch.Sql.Pairs.{kv_pair_hash}
use alertsnitch.Sql.Mysql.{alert_row}
use alertsnitch.Sql.View.{
  View, Lawful, Adds, Adds-trans, Adds-quiet, Adds-nothing, AlertsStored, Stored, kv_ref,
  link_facts, alert_facts, link_fact, label_ref, annotation_ref,
}
use alertsnitch.Sql.Steps.{bind_ok, failing_step}
use alertsnitch.Sql.Postgres.{
  postgres_get_label_kv_id, postgres_get_annotation_kv_id, insert_links_postgres,
  insert_group_labels_postgres, insert_common_labels_postgres, insert_common_annotations_postgres,
  insert_alert_labels_postgres, insert_alert_annotations_postgres, insert_alerts_postgres,
  save_group_postgres,
}

module _ {S : Type 0} (view : View S) (d : Driver S) (law : Lawful view d)
    (digest : String → String) where
  -- `get_id` resolves the pairs of a table.
  abbrev Resolves : LinkTable → (String → String → Tx S ℕ) → Type 0
  Resolves table get_id =
      (k v : String) (s t : S) (id : ℕ)
      → get_id k v s ≡ (ok id, t)
      → Adds view [] s t × view.Means t (kv_ref table (kv_pair_hash digest k v)) id

  insert_links_postgres-Adds :
      (table : LinkTable) (get_id : String → String → Tx S ℕ) (unresolved what : String)
      → Resolves table get_id
      → (owner : ℕ) (kv : Labels) (s t : S)
      → insert_links_postgres d digest get_id table unresolved what owner kv s ≡ (ok tt, t)
      → Adds view (link_facts digest table owner kv) s t
  unfolding insert_links_postgres
  insert_links_postgres-Adds table get_id unresolved what resolves owner [] s t h =
      Adds-nothing view s t (ap (λ x. x.1) h)
  insert_links_postgres-Adds table get_id unresolved what resolves owner ((k, v) ∷ kv) s t h =
      let a = failing_step unresolved (get_id k v) _ s tt t h in
      let (quiet, means) = resolves k v s a.between a.value a.first in
      let b =
        failing_step what (d.exec (insert_link table owner a.value)) _ a.between tt t a.rest in
      let linked =
        law.linked table owner a.value a.between b.between b.value b.first (kv_pair_hash digest k v)
          means in
      Adds-quiet view _ quiet (
        Adds-trans view (link_fact table owner (kv_pair_hash digest k v) ∷ [])
          (link_facts digest table owner kv) linked
          (insert_links_postgres-Adds table get_id unresolved what resolves owner kv b.between t
            b.rest))

  label_resolves :
      (k v : String) (s t : S) (id : ℕ)
      → postgres_get_label_kv_id d digest k v s ≡ (ok id, t)
      → Adds view [] s t × view.Means t (label_ref (kv_pair_hash digest k v)) id
  unfolding postgres_get_label_kv_id
  label_resolves k v s t id h = law.queried (upsert_label_kv k v (kv_pair_hash digest k v)) s t id h

  annotation_resolves :
      (k v : String) (s t : S) (id : ℕ)
      → postgres_get_annotation_kv_id d digest k v s ≡ (ok id, t)
      → Adds view [] s t × view.Means t (annotation_ref (kv_pair_hash digest k v)) id
  unfolding postgres_get_annotation_kv_id
  annotation_resolves k v s t id h =
      law.queried (upsert_annotation_kv k v (kv_pair_hash digest k v)) s t id h

  insert_alerts_postgres-Stored :
      (group_id : ℕ) (alerts : List Alert) (s t : S)
      → insert_alerts_postgres d digest group_id alerts s ≡ (ok tt, t)
      → AlertsStored view digest group_id alerts s t
  unfolding insert_alerts_postgres insert_alert_labels_postgres insert_alert_annotations_postgres
      alert_row
  insert_alerts_postgres-Stored group_id [] s t h = record {
    rows = [];
    each = refl;
    adds = Adds-nothing view s t (ap (λ x. x.1) h);
  }
  insert_alerts_postgres-Stored group_id (al ∷ alerts) s t h =
      let a =
        failing_step "failed to insert into Alert" (d.query (alert_row group_id al)) _ s tt t h in
      let b =
        bind_ok (insert_alert_labels_postgres d digest a.value al.labels) _ a.between tt t a.rest in
      let c =
        bind_ok (insert_alert_annotations_postgres d digest a.value al.annotations) _ b.between tt t
          b.rest in
      let rest = insert_alerts_postgres-Stored group_id alerts c.between t c.rest in
      record {
        rows = (al, a.value) ∷ rest.rows;
        each = ap (λ xs. al ∷ xs) rest.each;
        adds =
            Adds-trans view _ _ (law.queried (alert_row group_id al) s a.between a.value a.first) (
              Adds-trans view (link_facts digest alert_label a.value al.labels) _
                (insert_links_postgres-Adds alert_label _ _ _ label_resolves a.value al.labels
                  a.between b.between b.first)
                (Adds-trans view (link_facts digest alert_annotation a.value al.annotations)
                  (alert_facts digest group_id rest.rows)
                  (insert_links_postgres-Adds alert_annotation _ _ _ annotation_resolves a.value
                    al.annotations b.between c.between c.first)
                  rest.adds));
      }

  -- A transaction that succeeds has added exactly the rows of the group, each of its alerts and each
  -- label and annotation related to the row of its hash.
  pub save_group_postgres-Stored :
      (g : AlertGroup) (s t : S)
      → save_group_postgres d digest g s ≡ (ok tt, t)
      → Stored view digest g s t
  unfolding save_group_postgres insert_group_labels_postgres insert_common_labels_postgres
      insert_common_annotations_postgres
  save_group_postgres-Stored g s t h =
      let a = failing_step _ (d.query (upsert_receiver g.receiver)) _ s tt t h in
      let b =
        failing_step _ (d.query (upsert_external_url g.external_url)) _ a.between tt t a.rest in
      let c = failing_step _ (d.query (upsert_key g.group_key)) _ b.between tt t b.rest in
      let i =
        failing_step _ (d.query (insert_group g.status a.value b.value c.value)) _ c.between tt t
          c.rest in
      let l =
        bind_ok (insert_group_labels_postgres d digest i.value g.group_labels) _ i.between tt t
          i.rest in
      let m =
        bind_ok (insert_common_labels_postgres d digest i.value g.common_labels) _ l.between tt t
          l.rest in
      let n =
        bind_ok (insert_common_annotations_postgres d digest i.value g.common_annotations) _
          m.between tt t m.rest in
      let alerts = insert_alerts_postgres-Stored i.value g.alerts n.between t n.rest in
      let (quiet_a, means_a) =
        law.queried (upsert_receiver g.receiver) s a.between a.value a.first in
      let (quiet_b, means_b) =
        law.queried (upsert_external_url g.external_url) a.between b.between b.value b.first in
      let (quiet_c, means_c) =
        law.queried (upsert_key g.group_key) b.between c.between c.value c.first in
      let row =
        law.queried (insert_group g.status a.value b.value c.value) c.between i.between i.value
          i.first g.receiver g.external_url g.group_key (quiet_c.1 _ _ (quiet_b.1 _ _ means_a))
          (quiet_c.1 _ _ means_b) means_c in
      record {
        id = i.value;
        rows = alerts.rows;
        each = alerts.each;
        adds = Adds-quiet view _ quiet_a (
            Adds-quiet view _ quiet_b (
              Adds-quiet view _ quiet_c (
                Adds-trans view _ _ row (
                  Adds-trans view (link_facts digest group_label i.value g.group_labels) _
                    (insert_links_postgres-Adds group_label _ _ _ label_resolves i.value
                      g.group_labels i.between l.between l.first)
                    (Adds-trans view (link_facts digest common_label i.value g.common_labels) _
                      (insert_links_postgres-Adds common_label _ _ _ label_resolves i.value
                        g.common_labels l.between m.between m.first)
                      (Adds-trans view
                        (link_facts digest common_annotation i.value g.common_annotations)
                        (alert_facts digest i.value alerts.rows)
                        (insert_links_postgres-Adds common_annotation _ _ _ annotation_resolves
                          i.value g.common_annotations m.between n.between n.first)
                        alerts.adds))))));
      }
