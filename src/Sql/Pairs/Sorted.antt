-- ===== src/Sql/Pairs/Sorted.antt =====
-- The order of the hashes of `uniqueSortedKVPairs` (internal/storage/sqlstore/kv.go).
use mathlib.Core.Path.{subst}
use alertsnitch.Base.{
  ◌≡◌, ◌↔◌, ◌⊎◌, refl, sym, inl, inr, List, [], ◌∷◌, String, Labels, arith, Bool-cases,
}
use alertsnitch.Base.Order.{
  StrLt, StrLt-trans, StrLt-total, str_leb, StrLt-str_leb, StrLt-str_leb_after,
}
use alertsnitch.Base.Sorted.{In, Rising, Distinct, All-of_In, In_of_All}
use alertsnitch.Sql.Pairs.{
  KvPair, Collected, collect_maps, insert_pair, sort_pairs, unique_sorted_kv_pairs,
}
use alertsnitch.Sql.Pairs.Seen.{
  hashes, all_hashes, IsCollected, IsCollected-collect_maps, In-collect_maps,
}

pub In-insert_pair :
    (h : String) (p : KvPair) (pairs : List KvPair)
    → In h (hashes (insert_pair p pairs)) ↔ ((p.hash ≡ h) ⊎ In h (hashes pairs))
unfolding insert_pair
In-insert_pair h p [] = (λ a. a, λ a. a)
In-insert_pair h p (q ∷ pairs) = elim (Bool-cases (str_leb p.hash q.hash)) [
  | inl e ↦ rw e (λ a. a, λ a. a)
  | inr e ↦ rw e (ground (arith, In-insert_pair h p pairs))
]

pub In-sort_pairs :
    (h : String) (pairs : List KvPair) → In h (hashes (sort_pairs pairs)) ↔ In h (hashes pairs)
unfolding sort_pairs
In-sort_pairs h [] = (λ a. a, λ a. a)
In-sort_pairs h (p ∷ pairs) =
    ground (arith, In-insert_pair h p (sort_pairs pairs), In-sort_pairs h pairs)

Rising-insert_pair :
    (p : KvPair) (pairs : List KvPair)
    → Rising (hashes pairs)
    → (In p.hash (hashes pairs) → ⊥)
    → Rising (hashes (insert_pair p pairs))
unfolding insert_pair
Rising-insert_pair p [] r fresh = (tt, tt)
Rising-insert_pair p (q ∷ pairs) r fresh = elim (StrLt-total p.hash q.hash) [
  | inl before ↦ rw (StrLt-str_leb p.hash q.hash before) (
    (
      before,
      All-of_In (StrLt p.hash) (hashes pairs) (λ x a.
          StrLt-trans p.hash q.hash x before (In_of_All (StrLt q.hash) (hashes pairs) r.0 x a)),
    ),
    r,
  )
  | inr (inl same) ↦ absurd (fresh (inl (sym same)))
  | inr (inr after) ↦ rw (StrLt-str_leb_after p.hash q.hash after) (
    All-of_In (StrLt q.hash) (hashes (insert_pair p pairs)) (λ x a.
        elim ((In-insert_pair x p pairs).0 a) [
          | inl e ↦ subst (StrLt q.hash) e after
          | inr b ↦ In_of_All (StrLt q.hash) (hashes pairs) r.0 x b
        ]),
    Rising-insert_pair p pairs r.1 (λ a. fresh (inr a)),
  )
]

Rising-sort_pairs :
    (pairs : List KvPair) → Distinct (hashes pairs) → Rising (hashes (sort_pairs pairs))
unfolding sort_pairs
Rising-sort_pairs [] d = tt
Rising-sort_pairs (p ∷ pairs) d =
    Rising-insert_pair p (sort_pairs pairs) (Rising-sort_pairs pairs d.1)
      (λ a. d.0 ((In-sort_pairs p.hash pairs).0 a))

module _ (digest : String → String) (maps : List Labels) where
  abbrev nothing_yet : Collected
  nothing_yet = record { seen = []; pairs = [] }

  collected : IsCollected (collect_maps digest maps nothing_yet)
  collected =
      IsCollected-collect_maps digest maps nothing_yet (record { same = refl; distinct = tt })

  -- The pairs that a save resolves have strictly rising hashes.
  pub unique_sorted_kv_pairs-Rising : Rising (hashes (unique_sorted_kv_pairs digest maps))
  unfolding unique_sorted_kv_pairs
  unique_sorted_kv_pairs-Rising =
      Rising-sort_pairs (collect_maps digest maps nothing_yet).pairs
        (subst Distinct (sym collected.same) collected.distinct)

  -- They have the hashes of the maps' pairs, and no others.
  pub In-unique_sorted_kv_pairs :
      (h : String)
      → In h (hashes (unique_sorted_kv_pairs digest maps)) ↔ In h (all_hashes digest maps)
  unfolding unique_sorted_kv_pairs
  In-unique_sorted_kv_pairs h =
      let sorted = In-sort_pairs h (collect_maps digest maps nothing_yet).pairs in
      let seen = In-collect_maps digest maps h nothing_yet in
      (
        λ a. elim (seen.0 (subst (In h) collected.same (sorted.0 a))) [
          | inl n ↦ elim n [ ]
          | inr b ↦ b
        ],
        λ b. sorted.1 (subst (In h) (sym collected.same) (seen.1 (inr b))),
      )
