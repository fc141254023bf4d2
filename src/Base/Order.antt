-- ===== src/Base/Order.antt =====
-- The order of Go's strings (`cmp.Compare`, `sort.Strings`): lexicographic, and linear.
use Prim.Native.Nat.{ℕ, Ordering, compare as compare_ℕ}
use Prim.Native.Char.{Char, code}
use Prim.Native.String.{String, compare, then}
use Prim.Native.String.compare.{nil-nil, nil-cons, cons-nil, cons-cons}
use mathlib.Core.Path.{◌≡◌, refl, sym, ◌∙◌, ap, ap₂}
use mathlib.Core.Logic.{◌⊎◌, inl, inr}
use mathlib.Core.Bool.{Bool, true, false}
use native.Mathlib.Omega.{arith}
use text.Mathlib.TextEquality.{path_by_compare}

-- Strictly before.
abbrev pub StrLt : String → String → Type 0
StrLt s t = compare s t ≡ Ordering.lt

abbrev pub str_leb : String → String → Bool
str_leb s t = elim (compare s t) [ Ordering.gt ↦ false | _ ↦ true ]

abbrev flip : Ordering → Ordering
flip Ordering.lt = Ordering.gt
flip Ordering.eq = Ordering.eq
flip Ordering.gt = Ordering.lt

flip-compare_ℕ : (m n : ℕ) → compare_ℕ n m ≡ flip (compare_ℕ m n)
flip-compare_ℕ m n = ground arith

-- The order of the first characters decides, and after equal ones the rest.
compare_cons :
    (c d : Char) (s t : String)
    → compare (String.◌∷◌ c s) (String.◌∷◌ d t) ≡ then (compare_ℕ (code c) (code d)) (compare s t)
compare_cons = cons-cons

then-flip : (o r : Ordering) → then (flip o) (flip r) ≡ flip (then o r)
then-flip Ordering.lt r = refl
then-flip Ordering.eq r = refl
then-flip Ordering.gt r = refl

pub compare-flip : (s t : String) → compare t s ≡ flip (compare s t)
compare-flip String.[] String.[] = nil-nil ∙ ap flip (sym nil-nil)
compare-flip String.[] (String.◌∷◌ d t) = cons-nil d t ∙ ap flip (sym (nil-cons d t))
compare-flip (String.◌∷◌ c s) String.[] = nil-cons c s ∙ ap flip (sym (cons-nil c s))
compare-flip (String.◌∷◌ c s) (String.◌∷◌ d t) =
    compare_cons d c t s
    ∙ ap₂ then (flip-compare_ℕ (code c) (code d)) (compare-flip s t)
    ∙ then-flip (compare_ℕ (code c) (code d)) (compare s t)
    ∙ ap flip (sym (compare_cons c d s t))

then_lt_cases :
    (m n : ℕ) (r : Ordering)
    → then (compare_ℕ m n) r ≡ Ordering.lt
    → (compare_ℕ m n ≡ Ordering.lt) ⊎ ((m ≡ n) × (r ≡ Ordering.lt))
then_lt_cases m n r h = ground arith

then_lt_trans :
    (k m n : ℕ) (p q r : Ordering)
    → (p ≡ Ordering.lt → q ≡ Ordering.lt → r ≡ Ordering.lt)
    → then (compare_ℕ k m) p ≡ Ordering.lt
    → then (compare_ℕ m n) q ≡ Ordering.lt
    → then (compare_ℕ k n) r ≡ Ordering.lt
then_lt_trans k m n p q r step h h' = ground arith

none_before_empty : (s : String) → StrLt s "" → ⊥
none_before_empty String.[] h = cc (sym nil-nil ∙ h)
none_before_empty (String.◌∷◌ c s) h = cc (sym (cons-nil c s) ∙ h)

pub StrLt-trans : (s t u : String) → StrLt s t → StrLt t u → StrLt s u
StrLt-trans s String.[] u p q = absurd (none_before_empty s p)
StrLt-trans s (String.◌∷◌ d t) String.[] p q = absurd (none_before_empty (String.◌∷◌ d t) q)
StrLt-trans String.[] (String.◌∷◌ d t) (String.◌∷◌ e u) p q = nil-cons e u
StrLt-trans (String.◌∷◌ c s) (String.◌∷◌ d t) (String.◌∷◌ e u) p q =
    compare_cons c e s u
    ∙ then_lt_trans (code c) (code d) (code e) (compare s t) (compare t u) (compare s u)
        (StrLt-trans s t u) (sym (compare_cons c d s t) ∙ p) (sym (compare_cons d e t u) ∙ q)

pub StrLt-asym : (s t : String) → StrLt s t → StrLt t s → ⊥
StrLt-asym s t p q = cc (p, q, compare-flip s t)

-- Of two strings one is before the other, or they are the same.
pub StrLt-total : (s t : String) → StrLt s t ⊎ ((s ≡ t) ⊎ StrLt t s)
StrLt-total s t = by_order (compare s t) refl
  where
    by_order : (o : Ordering) → compare s t ≡ o → StrLt s t ⊎ ((s ≡ t) ⊎ StrLt t s)
    by_order Ordering.lt e = inl e
    by_order Ordering.eq e = inr (inl (path_by_compare s t e))
    by_order Ordering.gt e = inr (inr (compare-flip s t ∙ ap flip e))

pub StrLt-str_leb : (s t : String) → StrLt s t → str_leb s t ≡ true
StrLt-str_leb s t h = rw (h, str_leb) refl

pub StrLt-str_leb_after : (s t : String) → StrLt t s → str_leb s t ≡ false
StrLt-str_leb_after s t h =
    let e : compare s t ≡ Ordering.gt = compare-flip t s ∙ ap flip h in rw (e, str_leb) refl
