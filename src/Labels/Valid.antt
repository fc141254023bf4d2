-- ===== src/Labels/Valid.antt =====
-- The names of the labels that `buildStreamLabels` (internal/storage/loki/stream.go) puts.
use alertsnitch.Base.{
  ◌≡◌, refl, Bool, true, List, [], ◌∷◌, String, Labels, All, Bool-cases, inl, inr,
}
use text.Mathlib.Text.{◌==◌ as str_eq}
use alertsnitch.Base.Maps.{insert}
use alertsnitch.Alert.{AlertGroup}
use alertsnitch.Labels.{
  is_valid_label_name, put_stream_label, put_all, put_allowed, put_fixed, build_stream_labels,
  is_allowed,
}

abbrev pub IsValidLabel : String × String → Type 0
IsValidLabel (name, value) = is_valid_label_name name ≡ true

-- Every name matches the label grammar.
abbrev pub AllValid : Labels → Type 0
AllValid = All IsValidLabel

pub AllValid-insert :
    (k v : String) (m : Labels)
    → is_valid_label_name k ≡ true
    → AllValid m
    → AllValid (insert k v m)
unfolding insert
AllValid-insert k v [] ok h = (ok, tt)
AllValid-insert k v ((j, w) ∷ m) ok h = elim (Bool-cases (str_eq j k)) [
  | inl e ↦ rw (e, insert) (ok, h.1)
  | inr e ↦ rw (e, insert) (h.0, AllValid-insert k v m ok h.1)
]

AllValid-put_stream_label :
    (dst : Labels) (k v : String) → AllValid dst → AllValid (put_stream_label dst k v)
unfolding put_stream_label
AllValid-put_stream_label dst k v h = elim (Bool-cases (str_eq v "")) [
  | inl e ↦ rw (e, put_stream_label) h
  | inr e ↦
      rw (e, put_stream_label)
        (elim (Bool-cases (is_valid_label_name k)) [
          | inl ok ↦ rw (ok, put_stream_label) (AllValid-insert k v dst ok h)
          | inr bad ↦ rw (bad, put_stream_label) h
        ])
]

AllValid-put_all : (m dst : Labels) → AllValid dst → AllValid (put_all m dst)
unfolding put_all
AllValid-put_all [] dst h = h
AllValid-put_all ((k, v) ∷ m) dst h =
    AllValid-put_all m (put_stream_label dst k v) (AllValid-put_stream_label dst k v h)

AllValid-put_allowed :
    (set : List (String × Bool)) (m dst : Labels) → AllValid dst → AllValid (put_allowed set m dst)
unfolding put_allowed
AllValid-put_allowed set [] dst h = h
AllValid-put_allowed set ((k, v) ∷ m) dst h = elim (Bool-cases (is_allowed set k)) [
  | inl a ↦
      rw a (
        AllValid-put_allowed set m (put_stream_label dst k v) (AllValid-put_stream_label dst k v h))
  | inr a ↦ rw a (AllValid-put_allowed set m dst h)
]

AllValid-put_fixed : (g : AlertGroup) (dst : Labels) → AllValid dst → AllValid (put_fixed g dst)
unfolding put_fixed is_valid_label_name
AllValid-put_fixed g dst h =
    AllValid-insert _ _ _ refl
      (AllValid-insert _ _ _ refl (AllValid-insert _ _ _ refl (AllValid-insert _ _ _ refl h)))

-- Whatever names the query parameters and the group's labels have, every name among the stream
-- labels of a group matches the label grammar.
pub build_stream_labels-AllValid :
    (set : List (String × Bool)) (g : AlertGroup) (extra_labels : Labels)
    → AllValid (build_stream_labels set g extra_labels)
unfolding build_stream_labels
build_stream_labels-AllValid set g extra_labels = AllValid-put_fixed g _ (
    AllValid-put_allowed set g.group_labels _
      (AllValid-put_allowed set g.common_labels _ (AllValid-put_all extra_labels [] tt)))
