-- ===== src/Examples/Entries.antt =====
-- The theorems of entries, labels and streams at concrete inputs.
use mathlib.Core.List.{Perm}
use text.Mathlib.Text.{◌==◌ as str_eq}
use alertsnitch.Base.{
  ◌≡◌, refl, sym, none, some, List, [], ◌∷◌, map, if◌then◌else◌, ℕ, zero, suc, String, Bytes,
  Labels, Result, ok, err, message, pos, ◌⊎◌, inl, inr,
}
use alertsnitch.Base.Maps.{lookup, value_at}
use alertsnitch.Timestamps.{Row, sort_rows, ensure_monotonic}
use alertsnitch.Timestamps.Order.{Increasing, Drifts, payload, ensure_monotonic_lem}
use alertsnitch.Labels.{build_stream_labels}
use alertsnitch.Labels.Priority.{or_else, offer, offer_allowed, lookup-build_stream_labels}
use alertsnitch.Stream.{data_to_stream}
use alertsnitch.Stream.Build.{Delivers, data_to_stream-Delivers}
use alertsnitch.Stream.Wire.{Wire, WireLaws, marshal_row, unmarshal_row, unmarshal_row-marshal_row}
use alertsnitch.Examples.Data.{group, converter, allowed}

abbrev rows : List Row
rows = record { at = 2; val = "b"; meta = [] } ∷ record { at = 2; val = "a"; meta = [] } ∷ []

abbrev rising : List Row
rising = record { at = 2; val = "b"; meta = [] } ∷ record { at = 3; val = "a"; meta = [] } ∷ []

ensure_monotonic_lem_example :
    Increasing (ensure_monotonic rows)
    × Perm (map payload (ensure_monotonic rows)) (map payload rows)
    × Drifts 0 (sort_rows rows) (ensure_monotonic rows)
ensure_monotonic_lem_example = ensure_monotonic_lem rows

lookup-build_stream_labels_example : lookup "severity" (build_stream_labels allowed group []) ≡ (
    if str_eq "alert_name" "severity"
    then some (value_at "alertname" group.common_labels)
    else if str_eq "status" "severity"
    then some group.status
    else if str_eq "receiver" "severity"
    then some group.receiver
    else if str_eq "service_name" "severity"
    then some "alertsnitch"
    else or_else (offer_allowed allowed group.group_labels "severity") (
        or_else
          (offer_allowed allowed group.common_labels "severity")
          (or_else (offer [] "severity") none)))
lookup-build_stream_labels_example =
    lookup-build_stream_labels allowed group [] "severity" tt
      (unfold lookup in refl, (unfold lookup in refl, tt)) (unfold lookup in refl, tt)

data_to_stream-Delivers_example :
    Delivers converter
      (λ f. f.alert.status)
      (λ f. refl)
      group
      (data_to_stream converter 7 group [] 5)
data_to_stream-Delivers_example =
    data_to_stream-Delivers converter (λ f. f.alert.status) (λ f. refl) group 7 [] 5 (λ h. cc (h))

-- JSON for two texts, one map and one time.
abbrev text_number : String → ℕ
text_number s = if str_eq s "5" then 0 else 1

abbrev text_of : Bytes → Result String
text_of (zero ∷ []) = ok "5"
text_of (suc n ∷ []) = ok "hi"
text_of bytes = err (message "json")

abbrev elements : Bytes → Result (List Bytes)
elements (a ∷ b ∷ []) = ok ((a ∷ []) ∷ (b ∷ []) ∷ [])
elements (a ∷ b ∷ c ∷ []) = ok ((a ∷ []) ∷ (b ∷ []) ∷ (c ∷ []) ∷ [])
elements bytes = err (message "json")

abbrev wire : Wire
wire = record {
  marshal_strings = λ a b. ok (text_number a ∷ text_number b ∷ []);
  marshal_tuple = λ a b m. ok (text_number a ∷ text_number b ∷ 0 ∷ []);
  unmarshal_array = elements;
  unmarshal_string = text_of;
  unmarshal_map = λ bytes. ok (("k", "hi") ∷ []);
  format_int = λ n. "5";
  parse_int = λ s. ok (pos 5);
  unix_nano = λ t. pos t;
  unix = λ n. 5;
}

-- The texts and the map that this JSON can write.
abbrev IsKnown : String → Type 0
IsKnown s = (s ≡ "5") ⊎ (s ≡ "hi")

text_of-text_number : (s : String) → IsKnown s → text_of (text_number s ∷ []) ≡ ok s
text_of-text_number s (inl e) = rw e refl
text_of-text_number s (inr e) = rw e refl

ok_inj : (b b' : Bytes) → ok b ≡ ok b' → b ≡ b'
ok_inj b b' h = cc (h)

wire-WireLaws : WireLaws wire IsKnown (λ m. m ≡ (("k", "hi") ∷ [])) (λ t. t ≡ 5)
wire-WireLaws = record {
  strings = λ a b bytes known known' h. (
    text_number a ∷ [],
    text_number b ∷ [],
    rw⁻¹ (ok_inj _ _ h) refl,
    text_of-text_number a known,
    text_of-text_number b known',
  );
  tuple = λ a b m bytes known known' e h. (
    text_number a ∷ [],
    text_number b ∷ [],
    0 ∷ [],
    ("k", "hi") ∷ [],
    rw⁻¹ (ok_inj _ _ h) refl,
    text_of-text_number a known,
    text_of-text_number b known',
    refl,
    λ key. rw e refl,
  );
  digits = λ t e. inl refl;
  parses = λ t e. rw e refl;
  instant = λ t e. sym e;
}

abbrev entry : Row
entry = record { at = 5; val = "hi"; meta = ("k", "hi") ∷ [] }

unmarshal_row-marshal_row_example :
    (meta : Labels) × (unmarshal_row wire (0 ∷ 1 ∷ 0 ∷ [])
      ≡ ok (record { at = 5; val = "hi"; meta = meta }))
    × ((key : String) → lookup key meta ≡ lookup key (("k", "hi") ∷ []))
unmarshal_row-marshal_row_example =
    unmarshal_row-marshal_row wire IsKnown (λ m. m ≡ (("k", "hi") ∷ [])) (λ t. t ≡ 5) wire-WireLaws
      entry (0 ∷ 1 ∷ 0 ∷ []) refl (inr refl) refl (unfold marshal_row in refl)
