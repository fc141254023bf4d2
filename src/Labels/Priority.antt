-- ===== src/Labels/Priority.antt =====
-- The sources of a stream label in `buildStreamLabels` (internal/storage/loki/stream.go).
use text.Mathlib.Text.{◌==◌ as str_eq}
use text.Mathlib.TextEquality.{eq_iff}
use alertsnitch.Base.{
  ◌≡◌, refl, Bool, Option, none, some, List, [], ◌∷◌, String, Labels, if◌then◌else◌, arith,
}
use alertsnitch.Base.Maps.{lookup, lookup-insert, value_at}
use alertsnitch.Alert.{AlertGroup}
use alertsnitch.Labels.{
  is_valid_label_name, put_stream_label, put_all, put_allowed, put_fixed, build_stream_labels,
  is_allowed,
}

-- A map: no key stands twice in its iteration order.
abbrev pub IsMap : Labels → Type 0
IsMap [] = Unit {0}
IsMap ((k, v) ∷ m) = (lookup k m ≡ none) × IsMap m

-- The value, if a label of that name and value may be put.
abbrev pub acceptable : String → Option String → Option String
acceptable k none = none
acceptable k (some v) = if str_eq v "" then none else if is_valid_label_name k then some v else none

abbrev pub or_else : Option String → Option String → Option String
or_else none o = o
or_else (some v) o = some v

-- What a source offers for a name.
unfoldable pub offer : Labels → String → Option String
offer m k = acceptable k (lookup k m)

-- What a source behind the allow-list offers.
unfoldable pub offer_allowed : List (String × Bool) → Labels → String → Option String
offer_allowed set m k = if is_allowed set k then offer m k else none

lookup-put_stream_label :
    (dst : Labels) (name v k : String)
    → lookup k (put_stream_label dst name v)
      ≡ (if str_eq name k then or_else (acceptable name (some v)) (lookup k dst) else lookup k dst)
unfolding put_stream_label
lookup-put_stream_label dst name v k =
    ground (arith, lookup-insert name k v dst, eq_iff name k, eq_iff v "")

lookup-put_all :
    (m dst : Labels) (k : String)
    → IsMap m
    → lookup k (put_all m dst) ≡ or_else (offer m k) (lookup k dst)
unfolding put_all offer lookup
lookup-put_all [] dst k h = refl
lookup-put_all ((name, v) ∷ m) dst k h = ground (
  arith,
  lookup-put_all m (put_stream_label dst name v) k h.1,
  lookup-put_stream_label dst name v k,
  eq_iff name k,
)

lookup-put_allowed :
    (set : List (String × Bool)) (m dst : Labels) (k : String)
    → IsMap m
    → lookup k (put_allowed set m dst) ≡ or_else (offer_allowed set m k) (lookup k dst)
unfolding put_allowed offer_allowed offer lookup
lookup-put_allowed set [] dst k h = ground arith
lookup-put_allowed set ((name, v) ∷ m) dst k h = ground (
  arith,
  lookup-put_allowed set m (if is_allowed set name then put_stream_label dst name v else dst) k h.1,
  lookup-put_stream_label dst name v k,
  eq_iff name k,
)

lookup-put_fixed :
    (g : AlertGroup) (dst : Labels) (k : String)
    → lookup k (put_fixed g dst) ≡ (
        if str_eq "alert_name" k
        then some (value_at "alertname" g.common_labels)
        else if str_eq "status" k
        then some g.status
        else if str_eq "receiver" k
        then some g.receiver
        else if str_eq "service_name" k
        then some "alertsnitch"
        else lookup k dst)
unfolding put_fixed
lookup-put_fixed g dst k = simp lookup-insert

-- The value of every stream label, in order of priority: the four names that the group sets itself;
-- then an allowed group label; then an allowed common label; then a label of the request, which
-- needs no permission. Empty values and invalid names count as absent.
pub lookup-build_stream_labels :
    (set : List (String × Bool)) (g : AlertGroup) (extra_labels : Labels) (k : String)
    → IsMap extra_labels
    → IsMap g.common_labels
    → IsMap g.group_labels
    → lookup k (build_stream_labels set g extra_labels) ≡ (
        if str_eq "alert_name" k
        then some (value_at "alertname" g.common_labels)
        else if str_eq "status" k
        then some g.status
        else if str_eq "receiver" k
        then some g.receiver
        else if str_eq "service_name" k
        then some "alertsnitch"
        else or_else
            (offer_allowed set g.group_labels k)
            (or_else (offer_allowed set g.common_labels k) (or_else (offer extra_labels k) none)))
unfolding build_stream_labels
lookup-build_stream_labels set g extra_labels k he hc hg = rw (
  lookup-put_fixed,
  lookup-put_allowed set g.group_labels _ k hg,
  lookup-put_allowed set g.common_labels _ k hc,
  lookup-put_all extra_labels [] k he,
)
