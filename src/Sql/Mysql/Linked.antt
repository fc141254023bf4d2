-- ===== src/Sql/Mysql/Linked.antt =====
-- The rows that relate a group and its alerts to pairs in a MySQL save
-- (internal/storage/sqlstore/mysql.go).
use alertsnitch.Base.{ℕ, map, ◌≡◌, List, ◌++◌, String, ok, Any-append_left, Any-append_right}
use alertsnitch.Alert.{Alert, AlertGroup}
use alertsnitch.Sql.{group_label, common_label, common_annotation, Driver, ◌>>=◌}
use alertsnitch.Sql.Pairs.Seen.{map_hashes, all_hashes}
use alertsnitch.Sql.View.{View, Lawful, Adds, Adds-trans, link_facts, alert_facts}
use alertsnitch.Sql.Steps.{bind_ok}
use alertsnitch.Sql.Mysql.{
  Cache, label_maps, annotation_maps, insert_group_labels_mysql, insert_common_labels_mysql,
  insert_common_annotations_mysql, insert_alerts_mysql,
}
use alertsnitch.Sql.Mysql.Inserted.{
  Covers, Caches, Kept-Caches, insert_links_mysql-Adds, insert_alerts_mysql-Stored,
}

module _ {S : Type 0} (view : View S) (d : Driver S) (law : Lawful view d)
    (digest : String → String) where
  -- The caches have the IDs for a group.
  pub record Prepared (g : AlertGroup) (labels annotations : Cache) (s : S) : Type 0 where
    pub caches : Caches view d law digest labels annotations s
    pub covers_labels : Covers labels (all_hashes digest (label_maps g))
    pub covers_annotations : Covers annotations (all_hashes digest (annotation_maps g))

  -- What follows the insert of the group.
  pub record GroupLinked (g : AlertGroup) (id : ℕ) (s t : S) : Type 0 where
    pub rows : List (Alert × ℕ)
    pub each : map (λ r. r.0) rows ≡ g.alerts
    pub adds :
        Adds view
          (link_facts digest group_label id g.group_labels
            ++ (link_facts digest common_label id g.common_labels
                ++ (link_facts digest common_annotation id g.common_annotations
                    ++ alert_facts digest id rows)))
          s
          t

  pub group_linked :
      (g : AlertGroup) (id : ℕ) (labels annotations : Cache) (s t : S)
      → Prepared g labels annotations s
      → (do
        _ ← insert_group_labels_mysql d digest id g.group_labels labels
        _ ← insert_common_labels_mysql d digest id g.common_labels labels
        _ ← insert_common_annotations_mysql d digest id g.common_annotations annotations
        insert_alerts_mysql d digest id g.alerts labels annotations)
          s
        ≡ (ok tt, t)
      → GroupLinked g id s t
  unfolding insert_group_labels_mysql insert_common_labels_mysql insert_common_annotations_mysql
  group_linked g id labels annotations s t ready h =
      let l = bind_ok (insert_group_labels_mysql d digest id g.group_labels labels) _ s tt t h in
      let m =
        bind_ok (insert_common_labels_mysql d digest id g.common_labels labels) _ l.between tt t
          l.rest in
      let n =
        bind_ok (insert_common_annotations_mysql d digest id g.common_annotations annotations) _
          m.between tt t m.rest in
      let links =
        insert_links_mysql-Adds view d law digest group_label _ id labels g.group_labels s l.between
          ready.caches.good_labels (λ j o. ready.covers_labels j (Any-append_left _ _ _ o))
          l.first in
      let caches_l =
        Kept-Caches view d law digest labels annotations s l.between ready.caches links.1 in
      let common =
        insert_links_mysql-Adds view d law digest common_label _ id labels g.common_labels l.between
          m.between caches_l.good_labels
          (λ j o.
            ready.covers_labels j
              (Any-append_right _ (map_hashes digest g.group_labels) _ (Any-append_left _ _ _ o)))
          m.first in
      let caches_m =
        Kept-Caches view d law digest labels annotations l.between m.between caches_l common.1 in
      let notes =
        insert_links_mysql-Adds view d law digest common_annotation _ id annotations
          g.common_annotations m.between n.between caches_m.good_annotations
          (λ j o. ready.covers_annotations j (Any-append_left _ _ _ o)) n.first in
      let alerts =
        insert_alerts_mysql-Stored view d law digest id g.alerts labels annotations n.between t
          (Kept-Caches view d law digest labels annotations m.between n.between caches_m notes.1)
          (λ j o. ready.covers_labels j (
            Any-append_right _ (map_hashes digest g.group_labels) _
              (Any-append_right _ (map_hashes digest g.common_labels) _ o)))
          (λ j o.
            ready.covers_annotations j
              (Any-append_right _ (map_hashes digest g.common_annotations) _ o))
          n.rest in
      record {
        rows = alerts.rows;
        each = alerts.each;
        adds =
            Adds-trans view (link_facts digest group_label id g.group_labels)
              (link_facts digest common_label id g.common_labels
                ++ (link_facts digest common_annotation id g.common_annotations
                    ++ alert_facts digest id alerts.rows))
              links
              (Adds-trans view (link_facts digest common_label id g.common_labels)
                (link_facts digest common_annotation id g.common_annotations
                  ++ alert_facts digest id alerts.rows)
                common
                (Adds-trans view (link_facts digest common_annotation id g.common_annotations)
                  (alert_facts digest id alerts.rows) notes alerts.adds));
      }
