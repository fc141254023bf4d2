-- ===== src/Sql/View.antt =====
-- What a database of the schema holds, as the statements of internal/storage/sqlstore see it: facts, and
-- the rows that IDs stand for. `Lawful` is what the code relies on of the database.
use mathlib.Core.Path.{subst}
use alertsnitch.Base.{
  ℕ, ◌≡◌, sym, ◌∙◌, Option, List, [], ◌∷◌, ◌++◌, append-nil, append_assoc, String, Time, Labels,
  Result, ok, ltb, none, some, if◌then◌else◌, map,
}
use alertsnitch.Alert.{Alert, AlertGroup}
use alertsnitch.Sql.{
  LinkTable, group_label, common_label, common_annotation, alert_label, alert_annotation, Statement,
  upsert_receiver, upsert_external_url, upsert_key, upsert_label_kv, upsert_annotation_kv,
  insert_group, insert_alert, insert_link, Driver,
}
use alertsnitch.Sql.Pairs.{kv_pair_hash}

-- A row that other rows refer to by its ID. A pair is known by its hash.
pub data Ref : Type 0 where
  receiver_ref external_url_ref key_ref : String → Ref
  label_ref annotation_ref : (hash : String) → Ref

-- A row of the tables that record alerts, with the text of what it refers to.
pub data Fact : Type 0 where
  group_fact : (id : ℕ) (status receiver external_url key : String) → Fact
  alert_fact :
      (id group_id : ℕ) (status : String) (starts_at : Time) (ends_at : Option Time)
      (generator_url fingerprint : String)
      → Fact
  link_fact : LinkTable → (owner : ℕ) (hash : String) → Fact

-- The kind of pair that a table relates to.
abbrev pub kv_ref : LinkTable → String → Ref
kv_ref group_label = label_ref
kv_ref common_label = label_ref
kv_ref common_annotation = annotation_ref
kv_ref alert_label = label_ref
kv_ref alert_annotation = annotation_ref

pub record View (S : Type 0) : Type 1 where
  pub facts : S → List Fact
  pub Means : S → Ref → ℕ → Type 0

module _ {S : Type 0} (view : View S) where
  -- The IDs of `s` stand in `t` for what they stood for.
  abbrev pub Kept : S → S → Type 0
  Kept s t = (r : Ref) (id : ℕ) → view.Means s r id → view.Means t r id

  -- From `s` to `t` no ID changes and these facts are added.
  abbrev pub Adds : List Fact → S → S → Type 0
  Adds new s t = (view.facts t ≡ view.facts s ++ new) × Kept s t

  -- What a statement has done that returned `id`.
  abbrev pub After : Statement → S → ℕ → S → Type 0
  After (upsert_receiver r) s id t = Adds [] s t × view.Means t (receiver_ref r) id
  After (upsert_external_url u) s id t = Adds [] s t × view.Means t (external_url_ref u) id
  After (upsert_key k) s id t = Adds [] s t × view.Means t (key_ref k) id
  After (upsert_label_kv k v h) s id t = Adds [] s t × view.Means t (label_ref h) id
  After (upsert_annotation_kv k v h) s id t = Adds [] s t × view.Means t (annotation_ref h) id
  After (insert_group status receiver_id external_url_id key_id) s id t =
      (receiver external_url key : String)
      → view.Means s (receiver_ref receiver) receiver_id
      → view.Means s (external_url_ref external_url) external_url_id
      → view.Means s (key_ref key) key_id
      → Adds (group_fact id status receiver external_url key ∷ []) s t
  After (insert_alert group_id status starts_at ends_at generator_url fingerprint) s id t =
      Adds (alert_fact id group_id status starts_at ends_at generator_url fingerprint ∷ []) s t
  After (insert_link table owner kv_id) s id t =
      (hash : String)
      → view.Means s (kv_ref table hash) kv_id
      → Adds (link_fact table owner hash ∷ []) s t

  -- A statement that returns an ID has done its work, and one that inserts a link has done its work
  -- when it returns, whatever becomes of the ID.
  pub record Lawful (d : Driver S) : Type 0 where
    pub executed :
        (st : Statement) (s t : S) (id : ℕ) → d.exec st s ≡ (ok (ok id), t) → After st s id t
    pub queried : (st : Statement) (s t : S) (id : ℕ) → d.query st s ≡ (ok id, t) → After st s id t
    pub linked :
        (table : LinkTable) (owner kv_id : ℕ) (s t : S) (r : Result ℕ)
        → d.exec (insert_link table owner kv_id) s ≡ (ok r, t)
        → After (insert_link table owner kv_id) s 0 t

  pub Adds-refl : (s : S) → Adds [] s s
  Adds-refl s = (sym (append-nil (view.facts s)), λ r id m. m)

  pub Adds-nothing : (s t : S) → s ≡ t → Adds [] s t
  Adds-nothing s t e = subst (Adds [] s) e (Adds-refl s)

  pub Adds-trans :
      (new new' : List Fact) {s t u : S} → Adds new s t → Adds new' t u → Adds (new ++ new') s u
  Adds-trans new new' {s} (e, k) (e', k') = (
    e'
        ∙ (subst (λ l. l ++ new' ≡ view.facts s ++ (new ++ new')) (sym e)
            (append_assoc (view.facts s) new new')),
    λ r id m. k' r id (k r id m),
  )

  -- A step that only resolves IDs adds nothing in front.
  pub Adds-quiet : (new : List Fact) {s t u : S} → Adds [] s t → Adds new t u → Adds new s u
  Adds-quiet new q a = Adds-trans [] new q a

-- The rows that relate an owner to the pairs of a map.
abbrev pub link_facts : (String → String) → LinkTable → ℕ → Labels → List Fact
link_facts digest table owner [] = []
link_facts digest table owner ((k, v) ∷ kv) =
    link_fact table owner (kv_pair_hash digest k v) ∷ link_facts digest table owner kv

-- The rows of an alert, then those of the others; an end before the start is not recorded.
abbrev pub alert_facts : (String → String) → ℕ → List (Alert × ℕ) → List Fact
alert_facts digest group_id [] = []
alert_facts digest group_id ((a, id) ∷ alerts) =
    (alert_fact id group_id a.status a.starts_at
        (if ltb a.ends_at a.starts_at then none else some a.ends_at) a.generator_url a.fingerprint
      ∷ [])
    ++ (link_facts digest alert_label id a.labels
        ++ (link_facts digest alert_annotation id a.annotations
            ++ alert_facts digest group_id alerts))

-- The rows of an alert group: the specification of a save.
abbrev pub group_facts : (String → String) → AlertGroup → ℕ → List (Alert × ℕ) → List Fact
group_facts digest g id alerts =
    (group_fact id g.status g.receiver g.external_url g.group_key ∷ [])
    ++ (link_facts digest group_label id g.group_labels
        ++ (link_facts digest common_label id g.common_labels
            ++ (link_facts digest common_annotation id g.common_annotations
                ++ alert_facts digest id alerts)))

module _ {S : Type 0} (view : View S) (digest : String → String) where
  -- The rows of the alerts are added, under the IDs that they got.
  pub record AlertsStored (group_id : ℕ) (alerts : List Alert) (s t : S) : Type 0 where
    pub rows : List (Alert × ℕ)
    pub each : map (λ r. r.0) rows ≡ alerts
    pub adds : Adds view (alert_facts digest group_id rows) s t

  -- The rows of the group are added, under the IDs that it and its alerts got, and nothing else.
  pub record Stored (g : AlertGroup) (s t : S) : Type 0 where
    pub id : ℕ
    pub rows : List (Alert × ℕ)
    pub each : map (λ r. r.0) rows ≡ g.alerts
    pub adds : Adds view (group_facts digest g id rows) s t
