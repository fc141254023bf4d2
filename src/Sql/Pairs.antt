-- ===== src/Sql/Pairs.antt =====
-- The label and annotation pairs of a save, without repeats and in the order of their hashes
-- (`kvPairHash` and `uniqueSortedKVPairs` of internal/storage/sqlstore/kv.go).
pub mod Seen
pub mod Sorted
pub mod Locks
pub mod Hashed
pub mod Preimage
use Prim.Native.String.{◌++◌ as str_append}
use text.Mathlib.Text.{◌==◌ as str_eq}
use alertsnitch.Base.{Bool, false, ◌||◌, List, [], ◌∷◌, ◌++◌, String, Labels, if◌then◌else◌}
use alertsnitch.Base.Order.{str_leb}

-- The byte between the key and the value, ASCII SOH.
abbrev pub separator : String
separator = "\u{1}"

-- What is hashed for a pair.
unfoldable pub preimage : String → String → String
preimage k v = str_append k (str_append separator v)

-- `kvPairHash`; `digest` is md5.Sum and hex.EncodeToString.
unfoldable pub kv_pair_hash : (String → String) → String → String → String
unfolding preimage
kv_pair_hash digest k v = digest (preimage k v)

-- `kvPair`
pub record KvPair : Type 0 where
  pub key : String
  pub value : String
  pub hash : String

-- The variables `seen` and `pairs` of `uniqueSortedKVPairs`.
pub record Collected : Type 0 where
  pub seen : List String
  pub pairs : List KvPair

-- `_, ok := seen[h]`
unfoldable pub is_seen : String → List String → Bool
is_seen h [] = false
is_seen h (x ∷ seen) = str_eq x h || is_seen h seen

-- The body of the inner loop.
unfoldable pub collect_pair : (String → String) → String → String → Collected → Collected
collect_pair digest k v c =
    let h = kv_pair_hash digest k v in
    if is_seen h c.seen then c else record {
      seen = c.seen ++ h ∷ [];
      pairs = c.pairs ++ record { key = k; value = v; hash = h } ∷ [];
    }

unfoldable pub collect_map : (String → String) → Labels → Collected → Collected
unfolding collect_pair
collect_map digest [] c = c
collect_map digest ((k, v) ∷ m) c = collect_map digest m (collect_pair digest k v c)

unfoldable pub collect_maps : (String → String) → List Labels → Collected → Collected
unfolding collect_map
collect_maps digest [] c = c
collect_maps digest (m ∷ maps) c = collect_maps digest maps (collect_map digest m c)

-- slices.SortFunc by cmp.Compare of the hashes. No two pairs have the same hash, so every sort
-- gives the same list.
unfoldable pub insert_pair : KvPair → List KvPair → List KvPair
insert_pair p [] = p ∷ []
insert_pair p (q ∷ pairs) =
    let later = insert_pair p pairs in if str_leb p.hash q.hash then p ∷ q ∷ pairs else q ∷ later

unfoldable pub sort_pairs : List KvPair → List KvPair
unfolding insert_pair
sort_pairs [] = []
sort_pairs (p ∷ pairs) = insert_pair p (sort_pairs pairs)

-- `uniqueSortedKVPairs`
unfoldable pub unique_sorted_kv_pairs : (String → String) → List Labels → List KvPair
unfolding collect_maps sort_pairs
unique_sorted_kv_pairs digest maps =
    sort_pairs (collect_maps digest maps (record { seen = []; pairs = [] })).pairs
