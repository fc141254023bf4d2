-- ===== src/Sql/Pairs/Hashed.antt =====
-- The hash in a pair of `uniqueSortedKVPairs` (internal/storage/sqlstore/kv.go) is that of its key and value.
use alertsnitch.Base.{
  ◌≡◌, refl, inl, inr, List, [], ◌∷◌, String, Labels, All, All-append, Bool-cases,
}
use alertsnitch.Base.Order.{str_leb}
use alertsnitch.Sql.Pairs.{
  KvPair, Collected, kv_pair_hash, is_seen, collect_pair, collect_map, collect_maps, insert_pair,
  sort_pairs, unique_sorted_kv_pairs,
}

module _ (digest : String → String) where
  abbrev pub IsHashed : KvPair → Type 0
  IsHashed p = kv_pair_hash digest p.key p.value ≡ p.hash

  AllHashed-collect_pair :
      (k v : String) (c : Collected)
      → All IsHashed c.pairs
      → All IsHashed (collect_pair digest k v c).pairs
  unfolding collect_pair
  AllHashed-collect_pair k v c a = elim (Bool-cases (is_seen (kv_pair_hash digest k v) c.seen)) [
    | inl e ↦ rw (e, collect_pair) a
    | inr e ↦ rw (e, collect_pair) (All-append IsHashed c.pairs _ a (refl, tt))
  ]

  AllHashed-collect_map :
      (m : Labels) (c : Collected)
      → All IsHashed c.pairs
      → All IsHashed (collect_map digest m c).pairs
  unfolding collect_map
  AllHashed-collect_map [] c a = a
  AllHashed-collect_map ((k, v) ∷ m) c a =
      AllHashed-collect_map m (collect_pair digest k v c) (AllHashed-collect_pair k v c a)

  AllHashed-collect_maps :
      (maps : List Labels) (c : Collected)
      → All IsHashed c.pairs
      → All IsHashed (collect_maps digest maps c).pairs
  unfolding collect_maps
  AllHashed-collect_maps [] c a = a
  AllHashed-collect_maps (m ∷ maps) c a =
      AllHashed-collect_maps maps (collect_map digest m c) (AllHashed-collect_map m c a)

  AllHashed-insert_pair :
      (p : KvPair) (pairs : List KvPair)
      → IsHashed p
      → All IsHashed pairs
      → All IsHashed (insert_pair p pairs)
  unfolding insert_pair
  AllHashed-insert_pair p [] h a = (h, tt)
  AllHashed-insert_pair p (q ∷ pairs) h a = elim (Bool-cases (str_leb p.hash q.hash)) [
    | inl e ↦ rw e (h, a)
    | inr e ↦ rw e (a.0, AllHashed-insert_pair p pairs h a.1)
  ]

  AllHashed-sort_pairs :
      (pairs : List KvPair) → All IsHashed pairs → All IsHashed (sort_pairs pairs)
  unfolding sort_pairs
  AllHashed-sort_pairs [] a = tt
  AllHashed-sort_pairs (p ∷ pairs) a =
      AllHashed-insert_pair p (sort_pairs pairs) a.0 (AllHashed-sort_pairs pairs a.1)

  pub AllHashed-unique_sorted_kv_pairs :
      (maps : List Labels) → All IsHashed (unique_sorted_kv_pairs digest maps)
  unfolding unique_sorted_kv_pairs
  AllHashed-unique_sorted_kv_pairs maps =
      AllHashed-sort_pairs _ (AllHashed-collect_maps maps (record { seen = []; pairs = [] }) tt)
