-- ===== src/Timestamps/Order.antt =====
-- The entries that `ensureMonotonic` (internal/storage/loki/timestamps.go) returns, and their times.
use mathlib.Core.Path.{ap₂}
use mathlib.Core.List.{Perm}
use mathlib.Core.List.Perm
use alertsnitch.Base.{
  ℕ, suc, ◌+◌, ◌≤◌, ◌<◌, ◌≡◌, refl, ◌∙◌, inl, inr, false, List, [], ◌∷◌, arith, map, ap, String,
  Labels, ltb, length, Bool-cases, le→ltb, lt→ltb,
}
use alertsnitch.Timestamps.{
  Row, insert_row, sort_rows, nudge, nudge_from, nudge_all, ensure_monotonic,
}

-- Each entry is before the next.
abbrev pub Increasing : List Row → Type 0
Increasing [] = Unit {0}
Increasing (x ∷ []) = Unit {0}
Increasing (x ∷ y ∷ xs) = (x.at < y.at) × Increasing (y ∷ xs)

abbrev pub Ascending : List Row → Type 0
Ascending [] = Unit {0}
Ascending (x ∷ []) = Unit {0}
Ascending (x ∷ y ∷ xs) = (x.at ≤ y.at) × Ascending (y ∷ xs)

-- What an entry carries beside its timestamp.
abbrev pub payload : Row → String × Labels
payload r = (r.val, r.meta)

Ascending-insert_under :
    (r x : Row) (xs : List Row)
    → x.at ≤ r.at
    → Ascending (x ∷ xs)
    → Ascending (insert_row r xs)
    → Ascending (x ∷ insert_row r xs)
unfolding insert_row
Ascending-insert_under r x [] h a b = (h, tt)
Ascending-insert_under r x (y ∷ ys) h a b = elim (Bool-cases (ltb y.at r.at)) [
  | inl t ↦ rw t (a.0, rw t at b)
  | inr t ↦ rw t (h, rw t at b)
]

Ascending-insert_row : (r : Row) (xs : List Row) → Ascending xs → Ascending (insert_row r xs)
unfolding insert_row
Ascending-insert_row r [] a = tt
Ascending-insert_row r (x ∷ []) a = ground arith
Ascending-insert_row r (x ∷ y ∷ ys) a = elim (Bool-cases (ltb x.at r.at)) [
  | inl t ↦
      rw t
        (Ascending-insert_under r x (y ∷ ys) (ground arith) a (Ascending-insert_row r (y ∷ ys) a.1))
  | inr t ↦ rw t (ground arith, a)
]

pub Ascending-sort_rows : (rs : List Row) → Ascending (sort_rows rs)
unfolding sort_rows
Ascending-sort_rows [] = tt
Ascending-sort_rows (r ∷ rs) = Ascending-insert_row r (sort_rows rs) (Ascending-sort_rows rs)

insert_row-perm : (r : Row) (xs : List Row) → Perm (insert_row r xs) (r ∷ xs)
unfolding insert_row
insert_row-perm r [] = Perm.refl (r ∷ [])
insert_row-perm r (x ∷ xs) = elim (Bool-cases (ltb x.at r.at)) [
  | inl t ↦ rw t (Perm.trans (Perm.cons x (insert_row-perm r xs)) (Perm.swap r x xs))
  | inr t ↦ rw t (Perm.refl (r ∷ x ∷ xs))
]

sort_rows-perm : (rs : List Row) → Perm (sort_rows rs) rs
unfolding sort_rows
sort_rows-perm [] = Perm.refl []
sort_rows-perm (r ∷ rs) =
    Perm.trans (insert_row-perm r (sort_rows rs)) (Perm.cons r (sort_rows-perm rs))

Increasing-nudge_from : (p : Row) (rs : List Row) → Increasing (p ∷ nudge_from p rs)
unfolding nudge_from nudge
Increasing-nudge_from p [] = tt
Increasing-nudge_from p (r ∷ rs) = (ground arith, Increasing-nudge_from (nudge p r) rs)

payload-nudge : (p r : Row) → payload (nudge p r) ≡ payload r
unfolding nudge
payload-nudge p r = ground arith

payload-nudge_from : (p : Row) (rs : List Row) → map payload (nudge_from p rs) ≡ map payload rs
unfolding nudge_from
payload-nudge_from p [] = refl
payload-nudge_from p (r ∷ rs) = ap₂ ◌∷◌ (payload-nudge p r) (payload-nudge_from (nudge p r) rs)

payload-nudge_all : (rs : List Row) → map payload (nudge_all rs) ≡ map payload rs
unfolding nudge_all
payload-nudge_all [] = refl
payload-nudge_all (r ∷ rs) = ap (λ xs. payload r ∷ xs) (payload-nudge_from r rs)

Increasing-nudge_all : (rs : List Row) → Increasing (nudge_all rs)
unfolding nudge_all
Increasing-nudge_all [] = tt
Increasing-nudge_all (r ∷ rs) = Increasing-nudge_from r rs

-- Whatever the entries, the result is strictly increasing in time: no two share a timestamp.
pub ensure_monotonic-Increasing : (values : List Row) → Increasing (ensure_monotonic values)
unfolding ensure_monotonic
ensure_monotonic-Increasing [] = tt
ensure_monotonic-Increasing (r ∷ []) = tt
ensure_monotonic-Increasing (r ∷ r' ∷ rs) =
    let long : ltb (suc (suc (length rs))) 2 ≡ false = le→ltb _ _ (omega arith) in
    rw long (Increasing-nudge_all (sort_rows (r ∷ r' ∷ rs)))

-- No entry is lost, added or changed but for its time: the lines and their metadata are the same,
-- as often as they were.
pub ensure_monotonic-perm :
    (values : List Row) → Perm (map payload (ensure_monotonic values)) (map payload values)
unfolding ensure_monotonic
ensure_monotonic-perm values = elim (Bool-cases (ltb (length values) 2)) [
  | inl short ↦ rw (short, ensure_monotonic) (Perm.refl (map payload values))
  | inr long ↦
      rw (long, ensure_monotonic) (rw payload-nudge_all (Perm.map payload (sort_rows-perm values)))
]

-- The entries `xs` are the entries `rs` in order, and the one at position `i` of the whole list is
-- moved forward by at most `i` nanoseconds.
abbrev pub Drifts : ℕ → List Row → List Row → Type 0
Drifts i [] [] = Unit {0}
Drifts i (r ∷ rs) (x ∷ xs) =
    (payload x ≡ payload r) × (r.at ≤ x.at) × (x.at ≤ r.at + i) × Drifts (suc i) rs xs
Drifts i _ _ = ⊥

Drifts-nudge_from :
    (i : ℕ) (o p : Row) (rs : List Row)
    → Ascending (o ∷ rs)
    → p.at ≤ o.at + i
    → Drifts (suc i) rs (nudge_from p rs)
unfolding nudge_from
Drifts-nudge_from i o p [] a h = tt
Drifts-nudge_from i o p (r ∷ rs) a h =
    let lo : r.at ≤ (nudge p r).at = unfold nudge in ground arith in
    let hi : (nudge p r).at ≤ r.at + suc i = unfold nudge in ground arith in
    (payload-nudge p r, lo, hi, Drifts-nudge_from (suc i) r (nudge p r) rs a.1 hi)

Drifts-nudge_all : (rs : List Row) → Ascending rs → Drifts 0 rs (nudge_all rs)
unfolding nudge_all
Drifts-nudge_all [] a = tt
Drifts-nudge_all (r ∷ rs) a =
    (refl, omega arith, omega arith, Drifts-nudge_from 0 r r rs a (omega arith))

-- Against the entries in stable order of time, each entry is moved forward, never back, and by at
-- most as many nanoseconds as entries stand before it.
pub ensure_monotonic-Drifts :
    (values : List Row) → Drifts 0 (sort_rows values) (ensure_monotonic values)
unfolding ensure_monotonic
ensure_monotonic-Drifts [] = unfold sort_rows in tt
ensure_monotonic-Drifts (r ∷ []) =
    unfold sort_rows insert_row in (refl, omega arith, omega arith, tt)
ensure_monotonic-Drifts (r ∷ r' ∷ rs) =
    let long : ltb (suc (suc (length rs))) 2 ≡ false = le→ltb _ _ (omega arith) in
    rw long (Drifts-nudge_all (sort_rows (r ∷ r' ∷ rs)) (Ascending-sort_rows (r ∷ r' ∷ rs)))

-- The entries of a stream after `ensureMonotonic`: their times are strictly increasing; no entry is
-- lost, added or changed but for its time; and in the order of the sort an entry is moved forward by at
-- most one nanosecond for each entry before it.
pub ensure_monotonic_lem :
    (values : List Row)
    → Increasing (ensure_monotonic values)
      × Perm (map payload (ensure_monotonic values)) (map payload values)
      × Drifts 0 (sort_rows values) (ensure_monotonic values)
ensure_monotonic_lem values = (
  ensure_monotonic-Increasing values,
  ensure_monotonic-perm values,
  ensure_monotonic-Drifts values,
)

sort_rows-sorted : (rs : List Row) → Increasing rs → sort_rows rs ≡ rs
unfolding sort_rows insert_row
sort_rows-sorted [] h = refl
sort_rows-sorted (r ∷ []) h = refl
sort_rows-sorted (r ∷ r' ∷ rs) h =
    let first : ltb r'.at r.at ≡ false = le→ltb _ _ (omega arith) in
    ap (insert_row r) (sort_rows-sorted (r' ∷ rs) h.1) ∙ rw first

nudge_from-sorted : (p : Row) (rs : List Row) → Increasing (p ∷ rs) → nudge_from p rs ≡ rs
unfolding nudge_from nudge
nudge_from-sorted p [] h = refl
nudge_from-sorted p (r ∷ rs) h =
    rw (lt→ltb p.at r.at h.0) (ap (λ xs. r ∷ xs) (nudge_from-sorted r rs h.1))

nudge_all-sorted : (rs : List Row) → Increasing rs → nudge_all rs ≡ rs
unfolding nudge_all
nudge_all-sorted [] h = refl
nudge_all-sorted (r ∷ rs) h = ap (λ xs. r ∷ xs) (nudge_from-sorted r rs h)

-- Entries that are strictly increasing already are left as they are.
pub ensure_monotonic-sorted :
    (values : List Row) → Increasing values → ensure_monotonic values ≡ values
unfolding ensure_monotonic
ensure_monotonic-sorted values h = elim (Bool-cases (ltb (length values) 2)) [
  | inl short ↦ rw (short, ensure_monotonic)
  | inr long ↦
      rw (long, ensure_monotonic)
        (ap nudge_all (sort_rows-sorted values h) ∙ nudge_all-sorted values h)
]
