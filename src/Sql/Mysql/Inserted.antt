-- ===== src/Sql/Mysql/Inserted.antt =====
-- The rows that the inserts of a MySQL save add (internal/storage/sqlstore/mysql.go).
use alertsnitch.Base.{
  ℕ, if◌then◌else◌, ltb, none, ◌≡◌, refl, ◌∙◌, ap, inl, inr, List, [], ◌∷◌, ◌++◌, String, Labels,
  ok, some, Any-append_left, Any-append_right,
}
use alertsnitch.Alert.{Alert}
use alertsnitch.Sql.{
  LinkTable, alert_label, alert_annotation, insert_link, Driver, Tx, ◌>>=◌, from_result, failing,
}
use alertsnitch.Sql.Pairs.{kv_pair_hash}
use alertsnitch.Base.Sorted.{In}
use alertsnitch.Sql.Pairs.Seen.{map_hashes, all_hashes}
use alertsnitch.Sql.View.{
  View, Lawful, Ref, Fact, Adds, Adds-nothing, Adds-trans, Kept, AlertsStored, kv_ref, link_facts,
  alert_facts, link_fact, alert_fact, label_ref, annotation_ref,
}
use alertsnitch.Sql.Steps.{bind_ok, failing_step}
use alertsnitch.Sql.Mysql.{
  Cache, alert_row, alert_labels, alert_annotations, kv_id_from_cache, insert_links_mysql,
  insert_alert_labels_mysql, insert_alert_annotations_mysql, insert_alerts_mysql,
}
use alertsnitch.Sql.Mysql.Cache.{Has, IsGood}

-- The cache has an ID for every hash of the list.
abbrev pub Covers : Cache → List String → Type 0
Covers cache hs = (h : String) → In h hs → Has cache h

module _ {S : Type 0} (view : View S) (d : Driver S) (law : Lawful view d)
    (digest : String → String) where
  pub Kept-IsGood :
      (ref : String → Ref) (cache : Cache) (s t : S)
      → IsGood view ref cache s
      → Kept view s t
      → IsGood view ref cache t
  Kept-IsGood ref cache s t good kept h id e = kept (ref h) id (good h id e)

  -- A look into a cache that covers the pair finds the ID of its row.
  cached :
      (ref : String → Ref) (cache : Cache) (k v : String) (s : S)
      → IsGood view ref cache s
      → Has cache (kv_pair_hash digest k v)
      → view.Means s (ref (kv_pair_hash digest k v)) (kv_id_from_cache digest cache k v)
  unfolding kv_id_from_cache
  cached ref cache k v s good (id, e) = rw (e, kv_id_from_cache) (good _ id e)

  pub insert_links_mysql-Adds :
      (table : LinkTable) (what : String) (owner : ℕ) (cache : Cache) (kv : Labels) (s t : S)
      → IsGood view (kv_ref table) cache s
      → Covers cache (map_hashes digest kv)
      → insert_links_mysql d digest table what owner cache kv s ≡ (ok tt, t)
      → Adds view (link_facts digest table owner kv) s t
  unfolding insert_links_mysql
  insert_links_mysql-Adds table what owner cache [] s t good covers h =
      Adds-nothing view s t (ap (λ x. x.1) h)
  insert_links_mysql-Adds table what owner cache ((k, v) ∷ kv) s t good covers h =
      let id = kv_id_from_cache digest cache k v in
      let a = failing_step what (d.exec (insert_link table owner id)) _ s tt t h in
      let row =
        law.linked table owner id s a.between a.value a.first (kv_pair_hash digest k v)
          (cached (kv_ref table) cache k v s good (covers _ (inl refl))) in
      Adds-trans view (link_fact table owner (kv_pair_hash digest k v) ∷ [])
        (link_facts digest table owner kv) row
        (insert_links_mysql-Adds table what owner cache kv a.between t
          (Kept-IsGood (kv_ref table) cache s a.between good row.1) (λ j b. covers j (inr b))
          a.rest)

  -- What the links and the alerts of one alert are inserted with.
  pub record Caches (labels annotations : Cache) (s : S) : Type 0 where
    pub good_labels : IsGood view label_ref labels s
    pub good_annotations : IsGood view annotation_ref annotations s

  pub Kept-Caches :
      (labels annotations : Cache) (s t : S)
      → Caches labels annotations s
      → Kept view s t
      → Caches labels annotations t
  Kept-Caches labels annotations s t caches kept = record {
    good_labels = Kept-IsGood label_ref labels s t caches.good_labels kept;
    good_annotations = Kept-IsGood annotation_ref annotations s t caches.good_annotations kept;
  }

  -- The links of an alert, and what follows them.
  record AlertLinked (al : Alert) (id : ℕ) (next : Tx S (Unit {0})) (s t : S) : Type 0 where
    until : S
    kept : Kept view s until
    adds :
        (new : List Fact) (u : S)
        → Adds view new until u
        → Adds view
            (link_facts digest alert_label id al.labels
              ++ (link_facts digest alert_annotation id al.annotations ++ new))
            s
            u
    left : next until ≡ (ok tt, t)

  alert_linked :
      (al : Alert) (id : ℕ) (labels annotations : Cache) (next : Tx S (Unit {0})) (s t : S)
      → Caches labels annotations s
      → Covers labels (map_hashes digest al.labels)
      → Covers annotations (map_hashes digest al.annotations)
      → (do
        _ ← insert_alert_labels_mysql d digest id al.labels labels
        _ ← insert_alert_annotations_mysql d digest id al.annotations annotations
        next)
          s
        ≡ (ok tt, t)
      → AlertLinked al id next s t
  unfolding insert_alert_labels_mysql insert_alert_annotations_mysql
  alert_linked al id labels annotations next s t caches cl ca h =
      let b = bind_ok (insert_alert_labels_mysql d digest id al.labels labels) _ s tt t h in
      let c =
        bind_ok (insert_alert_annotations_mysql d digest id al.annotations annotations) (λ _. next)
          b.between tt t b.rest in
      let links =
        insert_links_mysql-Adds alert_label _ id labels al.labels s b.between caches.good_labels cl
          b.first in
      let notes =
        insert_links_mysql-Adds alert_annotation _ id annotations al.annotations b.between c.between
          (Kept-IsGood annotation_ref annotations s b.between caches.good_annotations links.1) ca
          c.first in
      record {
        until = c.between;
        kept = λ r n m. notes.1 r n (links.1 r n m);
        adds = λ new u more.
            Adds-trans view (link_facts digest alert_label id al.labels)
              (link_facts digest alert_annotation id al.annotations ++ new) links
              (Adds-trans view (link_facts digest alert_annotation id al.annotations) new notes
                more);
        left = c.rest;
      }

  -- An alert and its links, and what follows them.
  record AlertAdded (group_id : ℕ) (al : Alert) (next : Tx S (Unit {0})) (s t : S) : Type 0 where
    id : ℕ
    linked_from : S
    row :
        Adds view
          (alert_fact id group_id al.status al.starts_at
              (if ltb al.ends_at al.starts_at then none else some al.ends_at)
              al.generator_url
              al.fingerprint
            ∷ [])
          s
          linked_from
    linked : AlertLinked al id next linked_from t

  alert_added :
      (group_id : ℕ) (al : Alert) (labels annotations : Cache) (next : Tx S (Unit {0})) (s t : S)
      → Caches labels annotations s
      → Covers labels (map_hashes digest al.labels)
      → Covers annotations (map_hashes digest al.annotations)
      → (do
        r ← failing "failed to insert into Alert" (d.exec (alert_row group_id al))
        id ← failing "failed to get Alert inserted id" (from_result r)
        _ ← insert_alert_labels_mysql d digest id al.labels labels
        _ ← insert_alert_annotations_mysql d digest id al.annotations annotations
        next)
          s
        ≡ (ok tt, t)
      → AlertAdded group_id al next s t
  unfolding alert_row
  alert_added group_id al labels annotations next s t caches cl ca h =
      let a = failing_step _ (d.exec (alert_row group_id al)) _ s tt t h in
      let i = failing_step _ (from_result a.value) _ a.between tt t a.rest in
      let row =
        law.executed (alert_row group_id al) s i.between i.value
          (a.first ∙ ap (λ r. (ok r.0, r.1)) i.first) in
      record {
        id = i.value;
        linked_from = i.between;
        row = row;
        linked =
            alert_linked al i.value labels annotations next i.between t
              (Kept-Caches labels annotations s i.between caches row.1) cl ca i.rest;
      }

  pub insert_alerts_mysql-Stored :
      (group_id : ℕ) (alerts : List Alert) (labels annotations : Cache) (s t : S)
      → Caches labels annotations s
      → Covers labels (all_hashes digest (alert_labels alerts))
      → Covers annotations (all_hashes digest (alert_annotations alerts))
      → insert_alerts_mysql d digest group_id alerts labels annotations s ≡ (ok tt, t)
      → AlertsStored view digest group_id alerts s t
  unfolding insert_alerts_mysql
  insert_alerts_mysql-Stored group_id [] labels annotations s t caches cl ca h = record {
    rows = [];
    each = refl;
    adds = Adds-nothing view s t (ap (λ x. x.1) h);
  }
  insert_alerts_mysql-Stored group_id (al ∷ alerts) labels annotations s t caches cl ca h =
      let a =
        alert_added group_id al labels annotations
          (insert_alerts_mysql d digest group_id alerts labels annotations) s t caches
          (λ j o. cl j (Any-append_left _ _ _ o)) (λ j o. ca j (Any-append_left _ _ _ o)) h in
      let rest =
        insert_alerts_mysql-Stored group_id alerts labels annotations a.linked.until t
          (Kept-Caches labels annotations s a.linked.until caches
            (λ r n m. a.linked.kept r n (a.row.1 r n m)))
          (λ j o. cl j (Any-append_right _ (map_hashes digest al.labels) _ o))
          (λ j o. ca j (Any-append_right _ (map_hashes digest al.annotations) _ o)) a.linked.left in
      record {
        rows = (al, a.id) ∷ rest.rows;
        each = ap (λ xs. al ∷ xs) rest.each;
        adds =
            Adds-trans view _
              (link_facts digest alert_label a.id al.labels
                ++ (link_facts digest alert_annotation a.id al.annotations
                    ++ alert_facts digest group_id rest.rows))
              a.row (a.linked.adds (alert_facts digest group_id rest.rows) t rest.adds);
      }
