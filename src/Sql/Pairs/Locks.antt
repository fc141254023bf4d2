-- ===== src/Sql/Pairs/Locks.antt =====
-- The order in which MySQL saves lock the rows of a table of pairs (`uniqueSortedKVPairs` of
-- internal/storage/sqlstore/kv.go). Postgres saves resolve the pairs in the order of the maps.
use mathlib.Core.Path.{subst}
use alertsnitch.Base.{◌≡◌, ◌↔◌, ◌⊎◌, inl, inr, List, [], ◌∷◌, String, Labels, arith}
use alertsnitch.Base.Order.{StrLt, StrLt-trans, StrLt-asym}
use alertsnitch.Sql.Pairs.{unique_sorted_kv_pairs}
use alertsnitch.Base.Sorted.{In, Rising, In_of_All, Rising-unique}
use alertsnitch.Sql.Pairs.Seen.{hashes, all_hashes}
use alertsnitch.Sql.Pairs.Sorted.{unique_sorted_kv_pairs-Rising, In-unique_sorted_kv_pairs}

-- However the maps are iterated, and however the pairs are spread over them, two MySQL saves whose maps
-- have the same hashes of pairs resolve the same hashes in the same order.
pub unique_sorted_kv_pairs_canonical :
    (digest : String → String) (maps maps' : List Labels)
    → ((h : String) → In h (all_hashes digest maps) ↔ In h (all_hashes digest maps'))
    → hashes (unique_sorted_kv_pairs digest maps) ≡ hashes (unique_sorted_kv_pairs digest maps')
unique_sorted_kv_pairs_canonical digest maps maps' same =
    Rising-unique _ _ (unique_sorted_kv_pairs-Rising digest maps)
      (unique_sorted_kv_pairs-Rising digest maps')
      (λ h. ground (
        arith,
        same h,
        In-unique_sorted_kv_pairs digest maps h,
        In-unique_sorted_kv_pairs digest maps' h,
      ))

-- `y` is somewhere behind `x`.
abbrev pub Before : String → String → List String → Type 0
Before x y [] = ⊥
Before x y (z ∷ zs) = ((z ≡ x) × In y zs) ⊎ Before x y zs

-- A MySQL save resolves its pairs one after the other: while it waits for the row `y` it holds the rows
-- `x` before it. Chains of such waits, each of a save of its own. What else the database locks for an
-- upsert (gaps, index pages) is not among them.
pub data WaitsFor (digest : String → String) : String → String → Type 0 where
  direct :
      {x y : String} (maps : List Labels)
      → Before x y (hashes (unique_sorted_kv_pairs digest maps))
      → WaitsFor digest x y
  through : {x y z : String} → WaitsFor digest x y → WaitsFor digest y z → WaitsFor digest x z

StrLt-of_Before : (x y : String) (xs : List String) → Rising xs → Before x y xs → StrLt x y
StrLt-of_Before x y [] r b = elim b [ ]
StrLt-of_Before x y (z ∷ zs) r (inl (e, a)) =
    subst (λ w. StrLt w y) e (In_of_All (StrLt z) zs r.0 y a)
StrLt-of_Before x y (z ∷ zs) r (inr b) = StrLt-of_Before x y zs r.1 b

StrLt-of_WaitsFor : {digest : String → String} {x y : String} → WaitsFor digest x y → StrLt x y
StrLt-of_WaitsFor {digest} {x} {y} (direct maps b) =
    StrLt-of_Before x y _ (unique_sorted_kv_pairs-Rising digest maps) b
StrLt-of_WaitsFor (through {x} {y} {z} w w') =
    StrLt-trans x y z (StrLt-of_WaitsFor w) (StrLt-of_WaitsFor w')

-- No number of MySQL saves at the same time wait for each other in a circle over the rows of the pairs of
-- one table, in the order in which they resolve the pairs, whatever they save. This is about the locks of
-- these rows alone.
pub WaitsFor-acyclic : (digest : String → String) (x : String) → ¬ WaitsFor digest x x
WaitsFor-acyclic digest x w = StrLt-asym x x (StrLt-of_WaitsFor w) (StrLt-of_WaitsFor w)
