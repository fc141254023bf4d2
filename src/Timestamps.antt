-- ===== src/Timestamps.antt =====
-- Loki entries and their timestamps (internal/storage/loki/timestamps.go and the `row` and `stream`
-- types of encoding.go).
pub mod Order
use alertsnitch.Base.{ℕ, ◌+◌, Bool, List, [], ◌∷◌, String, Labels, Time, ltb, if◌then◌else◌, length}

-- One log entry; `meta` is nil when it is empty.
pub record Row : Type 0 where
  pub at : Time
  pub val : String
  pub meta : Labels

-- One stream: its labels and its entries.
pub record Stream : Type 0 where
  pub labels : Labels
  pub values : List Row

-- sort.SliceStable by `At`: an entry goes in front of the entries that are not before it.
unfoldable pub insert_row : Row → List Row → List Row
insert_row r [] = r ∷ []
insert_row r (x ∷ xs) = let rest = x ∷ insert_row r xs in if ltb x.at r.at then rest else r ∷ x ∷ xs

unfoldable pub sort_rows : List Row → List Row
unfolding insert_row
sort_rows [] = []
sort_rows (r ∷ rs) = insert_row r (sort_rows rs)

-- The body of the loop over `i`: the entry behind `previous`.
unfoldable pub nudge : Row → Row → Row
nudge previous r = if ltb previous.at r.at then r else record r { at = previous.at + 1 }

-- The loop, from the entry behind `previous` on.
unfoldable pub nudge_from : Row → List Row → List Row
unfolding nudge
nudge_from previous [] = []
nudge_from previous (r ∷ rs) = nudge previous r ∷ nudge_from (nudge previous r) rs

unfoldable pub nudge_all : List Row → List Row
unfolding nudge_from
nudge_all [] = []
nudge_all (r ∷ rs) = r ∷ nudge_from r rs

-- `ensureMonotonic`
unfoldable pub ensure_monotonic : List Row → List Row
unfolding sort_rows nudge_all
ensure_monotonic values = if ltb (length values) 2 then values else nudge_all (sort_rows values)
