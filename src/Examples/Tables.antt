-- ===== src/Examples/Tables.antt =====
-- A database for the tests: a list of the rows that IDs stand for, and the facts.
use mathlib.Core.Path.{subst}
use alertsnitch.Base.{
  ℕ, zero, suc, ◌≡◌, refl, sym, ap, Option, none, some, List, [], ◌∷◌, ◌++◌, append-nil, String, ok,
  length,
}
use alertsnitch.Sql.{
  LinkTable, group_label, common_label, common_annotation, alert_label, alert_annotation, Statement,
  upsert_receiver, upsert_external_url, upsert_key, upsert_label_kv, upsert_annotation_kv,
  insert_group, insert_alert, insert_link, Driver,
}
use alertsnitch.Sql.View.{
  Ref, receiver_ref, external_url_ref, key_ref, label_ref, annotation_ref, Fact, group_fact,
  alert_fact, link_fact, kv_ref, View, Lawful, Adds, After,
}
use alertsnitch.Sql.Succeeds.{NeverFails}

pub record Tables : Type 0 where
  pub names : List Ref
  pub facts : List Fact

-- The row at a position.
abbrev pub get_elem? : List Ref → ℕ → Option Ref
get_elem? [] n = none
get_elem? (r ∷ rs) zero = some r
get_elem? (r ∷ rs) (suc n) = get_elem? rs n

get_elem?-append :
    (rs : List Ref) (n : ℕ) (x r : Ref)
    → get_elem? rs n ≡ some r
    → get_elem? (rs ++ x ∷ []) n ≡ some r
get_elem?-append [] n x r h = absurd (cc (h))
get_elem?-append (y ∷ rs) zero x r h = h
get_elem?-append (y ∷ rs) (suc n) x r h = get_elem?-append rs n x r h

get_elem?-length : (rs : List Ref) (x : Ref) → get_elem? (rs ++ x ∷ []) (length rs) ≡ some x
get_elem?-length [] x = refl
get_elem?-length (y ∷ rs) x = get_elem?-length rs x

abbrev text_of : Option Ref → String
text_of none = ""
text_of (some (receiver_ref s)) = s
text_of (some (external_url_ref s)) = s
text_of (some (key_ref s)) = s
text_of (some (label_ref s)) = s
text_of (some (annotation_ref s)) = s

text_of-kv_ref : (table : LinkTable) (h : String) → text_of (some (kv_ref table h)) ≡ h
text_of-kv_ref group_label h = refl
text_of-kv_ref common_label h = refl
text_of-kv_ref common_annotation h = refl
text_of-kv_ref alert_label h = refl
text_of-kv_ref alert_annotation h = refl

abbrev pub tables : View Tables
tables = record { facts = λ s. s.facts; Means = λ s r id. get_elem? s.names id ≡ some r }

abbrev with_row : Ref → Tables → Tables
with_row r s = record { names = s.names ++ r ∷ []; facts = s.facts }

abbrev with_fact : Fact → Tables → Tables
with_fact f s = record { names = s.names; facts = s.facts ++ f ∷ [] }

abbrev at : Tables → ℕ → String
at s id = text_of (get_elem? s.names id)

abbrev new_id : Statement → Tables → ℕ
new_id (insert_group status r u k) s = length s.facts
new_id (insert_alert g status starts ends url f) s = length s.facts
new_id (insert_link table owner id) s = length s.facts
new_id st s = length s.names

abbrev run : Statement → Tables → Tables
run (upsert_receiver r) s = with_row (receiver_ref r) s
run (upsert_external_url u) s = with_row (external_url_ref u) s
run (upsert_key k) s = with_row (key_ref k) s
run (upsert_label_kv k v h) s = with_row (label_ref h) s
run (upsert_annotation_kv k v h) s = with_row (annotation_ref h) s
run (insert_group status r u k) s =
    with_fact (group_fact (length s.facts) status (at s r) (at s u) (at s k)) s
run (insert_alert g status starts ends url f) s =
    with_fact (alert_fact (length s.facts) g status starts ends url f) s
run (insert_link table owner id) s = with_fact (link_fact table owner (at s id)) s

abbrev pub driver : Driver Tables
driver = record {
  exec = λ st s. (ok (ok (new_id st s)), run st s);
  query = λ st s. (ok (new_id st s), run st s);
}

with_row-After :
    (r : Ref) (s : Tables)
    → Adds tables [] s (with_row r s) × (get_elem? (s.names ++ r ∷ []) (length s.names) ≡ some r)
with_row-After r s = (
  (sym (append-nil s.facts), λ q id h. get_elem?-append s.names id r q h),
  get_elem?-length s.names r,
)

run-After : (st : Statement) (s : Tables) → After tables st s (new_id st s) (run st s)
run-After (upsert_receiver r) s = with_row-After (receiver_ref r) s
run-After (upsert_external_url u) s = with_row-After (external_url_ref u) s
run-After (upsert_key k) s = with_row-After (key_ref k) s
run-After (upsert_label_kv k v h) s = with_row-After (label_ref h) s
run-After (upsert_annotation_kv k v h) s = with_row-After (annotation_ref h) s
run-After (insert_group status r u k) s =
    λ receiver url key hr hu hk. (rw (hr, hu, hk) refl, λ q id h. h)
run-After (insert_alert g status starts ends url f) s = (refl, λ q id h. h)
run-After (insert_link table owner id) s =
    λ hash h. (rw (h, text_of-kv_ref table hash) refl, λ q i e. e)

pub driver-Lawful : Lawful tables driver
driver-Lawful = record {
  executed = λ st s t id h.
      let number : new_id st s ≡ id = cc (h) in
      subst (λ u. After tables st s id u) (ap (λ r. r.1) h)
        (subst (λ n. After tables st s n (run st s)) number (run-After st s));
  queried = λ st s t id h.
      let number : new_id st s ≡ id = cc (h) in
      subst (λ u. After tables st s id u) (ap (λ r. r.1) h)
        (subst (λ n. After tables st s n (run st s)) number (run-After st s));
  linked = λ table owner id s t r h.
      subst (λ u. After tables (insert_link table owner id) s 0 u) (ap (λ x. x.1) h)
        (run-After (insert_link table owner id) s);
}

pub driver-NeverFails : NeverFails driver
driver-NeverFails = record {
  executes = λ st s. (new_id st s, run st s, refl);
  queries = λ st s. (new_id st s, run st s, refl);
}
