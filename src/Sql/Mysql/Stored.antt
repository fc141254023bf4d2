-- ===== src/Sql/Mysql/Stored.antt =====
-- The rows that the transaction of a MySQL save adds (`Save` of internal/storage/sqlstore/mysql.go).
use alertsnitch.Base.{ℕ, ◌≡◌, ◌∙◌, ap, [], ◌∷◌, String, ok}
use alertsnitch.Alert.{AlertGroup}
use alertsnitch.Sql.{
  Statement, upsert_receiver, upsert_external_url, upsert_key, insert_group, Driver, Tx, ◌>>=◌,
  from_result, failing,
}
use alertsnitch.Sql.View.{
  receiver_ref, external_url_ref, key_ref, group_fact, After, View, Lawful, Adds, Adds-trans,
  Adds-quiet, Kept, Stored, label_ref,
}
use alertsnitch.Sql.Steps.{failing_step}
use alertsnitch.Sql.Mysql.{
  Cache, label_maps, annotation_maps, mysql_upsert_id, insert_group_labels_mysql,
  insert_common_labels_mysql, insert_common_annotations_mysql, insert_alerts_mysql,
  save_group_mysql, resolve_label_kv_cache, resolve_annotation_kv_cache,
}
use alertsnitch.Sql.Mysql.Cache.{
  upserted, resolve_label_kv_cache-Resolved, resolve_annotation_kv_cache-Resolved,
}
use alertsnitch.Sql.Mysql.Inserted.{Kept-IsGood, Kept-Caches}
use alertsnitch.Sql.Mysql.Linked.{Prepared, GroupLinked, group_linked}

module _ {S : Type 0} (view : View S) (d : Driver S) (law : Lawful view d)
    (digest : String → String) where
  -- What follows the caches.
  record GroupAdded (g : AlertGroup) (s t : S) : Type 0 where
    id : ℕ
    linked_from : S
    row :
        Adds view (group_fact id g.status g.receiver g.external_url g.group_key ∷ []) s linked_from
    linked : GroupLinked view d law digest g id linked_from t

  group_added :
      (g : AlertGroup) (labels annotations : Cache) (receiver_id external_url_id key_id : ℕ)
      (s t : S)
      → Prepared view d law digest g labels annotations s
      → view.Means s (receiver_ref g.receiver) receiver_id
      → view.Means s (external_url_ref g.external_url) external_url_id
      → view.Means s (key_ref g.group_key) key_id
      → (do
        r ←
            failing "failed to insert into AlertGroups"
              (d.exec (insert_group g.status receiver_id external_url_id key_id))
        id ← failing "failed to get AlertGroups inserted id" (from_result r)
        _ ← insert_group_labels_mysql d digest id g.group_labels labels
        _ ← insert_common_labels_mysql d digest id g.common_labels labels
        _ ← insert_common_annotations_mysql d digest id g.common_annotations annotations
        insert_alerts_mysql d digest id g.alerts labels annotations)
          s
        ≡ (ok tt, t)
      → GroupAdded g s t
  group_added g labels annotations receiver_id external_url_id key_id s t ready mr mu mk h =
      let st = insert_group g.status receiver_id external_url_id key_id in
      let e = failing_step _ (d.exec st) _ s tt t h in
      let i = failing_step _ (from_result e.value) _ e.between tt t e.rest in
      let row =
        law.executed st s i.between i.value (e.first ∙ ap (λ r. (ok r.0, r.1)) i.first) g.receiver
          g.external_url g.group_key mr mu mk in
      record {
        id = i.value;
        linked_from = i.between;
        row = row;
        linked =
            group_linked view d law digest g i.value labels annotations i.between t
              (record {
                caches =
                    Kept-Caches view d law digest labels annotations s i.between ready.caches row.1;
                covers_labels = ready.covers_labels;
                covers_annotations = ready.covers_annotations;
              })
              i.rest;
      }

  -- Both caches are filled.
  record Filled (g : AlertGroup) (next : Cache → Cache → Tx S (Unit {0})) (s t : S) : Type 0 where
    labels : Cache
    annotations : Cache
    until : S
    quiet : Adds view [] s until
    ready : Prepared view d law digest g labels annotations until
    left : next labels annotations until ≡ (ok tt, t)

  filled :
      (g : AlertGroup) (next : Cache → Cache → Tx S (Unit {0})) (s t : S)
      → (do
        labels ←
            failing "failed to resolve LabelKV" (resolve_label_kv_cache d digest (label_maps g))
        annotations ←
            failing "failed to resolve AnnotationKV"
              (resolve_annotation_kv_cache d digest (annotation_maps g))
        next labels annotations)
          s
        ≡ (ok tt, t)
      → Filled g next s t
  filled g next s t h =
      let l = failing_step _ (resolve_label_kv_cache d digest (label_maps g)) _ s tt t h in
      let n =
        failing_step _ (resolve_annotation_kv_cache d digest (annotation_maps g)) (next l.value)
          l.between tt t l.rest in
      let ls =
        resolve_label_kv_cache-Resolved view d law digest (label_maps g) l.value s l.between
          l.first in
      let ns =
        resolve_annotation_kv_cache-Resolved view d law digest (annotation_maps g) n.value l.between
          n.between n.first in
      record {
        labels = l.value;
        annotations = n.value;
        until = n.between;
        quiet = Adds-quiet view [] ls.quiet ns.quiet;
        ready = record {
          caches = record {
            good_labels =
                Kept-IsGood view d law digest label_ref l.value l.between n.between ls.good
                  ns.quiet.1;
            good_annotations = ns.good;
          };
          covers_labels = ls.has;
          covers_annotations = ns.has;
        };
        left = n.rest;
      }

  -- A step that resolves one ID.
  record Upserted (st : Statement) (next : ℕ → Tx S (Unit {0})) (s t : S) : Type 0 where
    id : ℕ
    until : S
    after : After view st s id until
    left : next id until ≡ (ok tt, t)

  Upserted-step :
      (what : String) (st : Statement) (next : ℕ → Tx S (Unit {0})) (s t : S)
      → (do id ← failing what (mysql_upsert_id d digest st); next id) s ≡ (ok tt, t)
      → Upserted st next s t
  Upserted-step what st next s t h =
      let a = failing_step what (mysql_upsert_id d digest st) next s tt t h in
      record {
        id = a.value;
        until = a.between;
        after =
            law.executed st s a.between a.value
              (upserted view d law digest st s a.between a.value a.first);
        left = a.rest;
      }

  -- A transaction that succeeds has added exactly the rows of the group, each of its alerts and each
  -- label and annotation related to the row of its hash: no look into a cache misses.
  pub save_group_mysql-Stored :
      (g : AlertGroup) (s t : S)
      → save_group_mysql d digest g s ≡ (ok tt, t)
      → Stored view digest g s t
  unfolding save_group_mysql
  save_group_mysql-Stored g s t h =
      let a = Upserted-step _ (upsert_receiver g.receiver) _ s t h in
      let b = Upserted-step _ (upsert_external_url g.external_url) _ a.until t a.left in
      let c = Upserted-step _ (upsert_key g.group_key) _ b.until t b.left in
      let f = filled g _ c.until t c.left in
      let kept : Kept view b.until f.until = λ r n m. f.quiet.1 r n (c.after.0.1 r n m) in
      let added =
        group_added g f.labels f.annotations a.id b.id c.id f.until t f.ready
          (kept _ _ (b.after.0.1 _ _ a.after.1)) (kept _ _ b.after.1) (f.quiet.1 _ _ c.after.1)
          f.left in
      record {
        id = added.id;
        rows = added.linked.rows;
        each = added.linked.each;
        adds = Adds-quiet view _ a.after.0 (
            Adds-quiet view _ b.after.0 (
              Adds-quiet view _ c.after.0
                (Adds-quiet view _ f.quiet (Adds-trans view _ _ added.row added.linked.adds))));
      }
