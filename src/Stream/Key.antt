-- ===== src/Stream/Key.antt =====
-- The identity of a label set (`streamKey` of internal/storage/loki/stream.go).
pub mod Canonical
pub mod Written
pub mod Injective
use Prim.Native.String.{◌++◌}
use alertsnitch.Base.{Bool, true, false, List, [], ◌∷◌, String, Labels, if◌then◌else◌}
use alertsnitch.Base.Maps.{value_at}
use alertsnitch.Base.Order.{str_leb}

unfoldable pub insert_key : String → List String → List String
insert_key k [] = k ∷ []
insert_key k (j ∷ keys) =
    let rest = j ∷ insert_key k keys in if str_leb k j then k ∷ j ∷ keys else rest

-- The keys of the map, sorted.
unfoldable pub sorted_keys : Labels → List String
unfolding insert_key
sorted_keys [] = []
sorted_keys ((k, v) ∷ labels) = insert_key k (sorted_keys labels)

-- The loop that writes the pairs; `first` says that no comma goes before. `quote` is strconv.Quote.
unfoldable pub write_pairs : (String → String) → Bool → List String → Labels → String
unfolding value_at
write_pairs quote first [] labels = ""
write_pairs quote first (k ∷ keys) labels =
    (if first then "" else ",")
    ++ (k ++ (":" ++ (quote (value_at k labels) ++ write_pairs quote false keys labels)))

-- `streamKey`; for the empty map the loop writes nothing between the braces.
unfoldable pub stream_key : (String → String) → Labels → String
unfolding sorted_keys write_pairs
stream_key quote [] = "{}"
stream_key quote (l ∷ labels) =
    "{" ++ (write_pairs quote true (sorted_keys (l ∷ labels)) (l ∷ labels) ++ "}")
