-- ===== src/Labels.antt =====
-- Which labels become Loki stream labels and structured metadata (internal/storage/loki/labels.go
-- and metadata.go, `putStreamLabel` and `buildStreamLabels` of stream.go).
pub mod Valid
pub mod Priority
use Prim.Native.Char.{code}
use text.Mathlib.Text.{◌==◌ as str_eq}
use alertsnitch.Base.{
  ℕ, Bool, true, false, ◌&&◌, ◌||◌, Option, none, some, List, [], ◌∷◌, String, Labels, leb, ◌==◌,
  if◌then◌else◌,
}
use alertsnitch.Base.Maps.{lookup, insert, value_at}
use alertsnitch.Alert.{Alert, AlertGroup}

-- defaultAllowedLabels
abbrev pub default_allowed_labels : List String
default_allowed_labels =
    "severity" ∷ "priority" ∷ "level" ∷ "env" ∷ "team" ∷ "cluster" ∷ "namespace" ∷ "service" ∷ "job"
    ∷ []

-- [a-zA-Z_] and [a-zA-Z0-9_]
unfoldable pub is_name_start : ℕ → Bool
is_name_start c = (leb b'a' c && leb c b'z') || (leb b'A' c && leb c b'Z') || c == b'_'

unfoldable pub is_name_char : ℕ → Bool
unfolding is_name_start
is_name_char c = is_name_start c || (leb b'0' c && leb c b'9')

-- [a-zA-Z0-9_]*$
unfoldable pub all_name_chars : String → Bool
unfolding is_name_char
all_name_chars String.[] = true
all_name_chars (String.◌∷◌ c s) = is_name_char (code c) && all_name_chars s

-- `isValidLabelName`: labelNameRe matches the name.
unfoldable pub is_valid_label_name : String → Bool
unfolding all_name_chars
is_valid_label_name String.[] = false
is_valid_label_name (String.◌∷◌ c s) = is_name_start (code c) && all_name_chars s

abbrev pub is_empty {ℓ} : {A : Type ℓ} → List A → Bool
is_empty [] = true
is_empty (_ ∷ _) = false

-- `for _, l := range labels { set[l] = true }`
unfoldable pub set_all : List String → List (String × Bool) → List (String × Bool)
unfolding insert
set_all [] set = set
set_all (l ∷ labels) set = set_all labels (insert l true set)

-- `allowedLabelSet`
unfoldable pub allowed_label_set : List String → List (String × Bool)
unfolding set_all
allowed_label_set configured =
    set_all (if is_empty configured then default_allowed_labels else configured) []

-- c.allowedLabels[label]
unfoldable pub is_allowed : List (String × Bool) → String → Bool
unfolding lookup
is_allowed set label = elim (lookup label set) [ none ↦ false | some b ↦ b ]

-- `putStreamLabel`
unfoldable pub put_stream_label : Labels → String → String → Labels
unfolding is_valid_label_name insert
put_stream_label dst name value =
    if str_eq value "" then dst else if is_valid_label_name name then insert name value dst else dst

-- The loop over the labels of the request: no allow-list.
unfoldable pub put_all : Labels → Labels → Labels
unfolding put_stream_label
put_all [] dst = dst
put_all ((name, value) ∷ labels) dst = put_all labels (put_stream_label dst name value)

-- The loops over the labels of the group, which pass the allow-list.
unfoldable pub put_allowed : List (String × Bool) → Labels → Labels → Labels
unfolding put_stream_label is_allowed
put_allowed set [] dst = dst
put_allowed set ((name, value) ∷ labels) dst =
    put_allowed set labels (if is_allowed set name then put_stream_label dst name value else dst)

-- The labels that the group itself sets, over whatever stands under their names.
unfoldable pub put_fixed : AlertGroup → Labels → Labels
unfolding insert value_at
put_fixed g dst = insert "alert_name" (value_at "alertname" g.common_labels) (
    insert "status" g.status
      (insert "receiver" g.receiver (insert "service_name" "alertsnitch" dst)))

-- `buildStreamLabels`
unfoldable pub build_stream_labels : List (String × Bool) → AlertGroup → Labels → Labels
unfolding put_all put_allowed put_fixed
build_stream_labels set g extra_labels =
    put_fixed g
      (put_allowed set g.group_labels (put_allowed set g.common_labels (put_all extra_labels [])))

-- metadataLabelKeys
abbrev pub metadata_label_keys : List String
metadata_label_keys =
    "instance" ∷ "pod" ∷ "node" ∷ "container" ∷ "namespace" ∷ "job" ∷ "service" ∷ "alertname"
    ∷ "severity" ∷ []

-- The loop of `buildAlertMetadata`.
unfoldable pub copy_keys : List String → Labels → Labels → Labels
unfolding value_at insert
copy_keys [] labels meta = meta
copy_keys (key ∷ keys) labels meta =
    copy_keys keys labels
      (if str_eq (value_at key labels) "" then meta else insert key (value_at key labels) meta)

-- `buildAlertMetadata`; nil is the empty map.
unfoldable pub build_alert_metadata : Alert → Labels
unfolding copy_keys
build_alert_metadata a =
    let meta = copy_keys metadata_label_keys a.labels [] in
    if str_eq a.fingerprint "" then meta else insert "fingerprint" a.fingerprint meta
