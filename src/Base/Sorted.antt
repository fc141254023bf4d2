-- ===== src/Base/Sorted.antt =====
-- Lists of strings: what is in them, and sorted lists without repeats.
use Prim.Native.String.{String}
use mathlib.Core.Path.{◌≡◌, refl, sym, ◌∙◌, subst, ap₂}
use mathlib.Core.Logic.{◌↔◌, inl, inr}
use mathlib.Core.List.{List, [], ◌∷◌}
use alertsnitch.Base.Lists.{All, Any}
use alertsnitch.Base.Order.{StrLt, StrLt-asym}

-- The string is in the list.
abbrev pub In : String → List String → Type 0
In h = Any (λ x. x ≡ h)

-- Each string is before all that follow: sorted, without repeats.
abbrev pub Rising : List String → Type 0
Rising [] = Unit {0}
Rising (x ∷ xs) = All (StrLt x) xs × Rising xs

abbrev pub Distinct : List String → Type 0
Distinct [] = Unit {0}
Distinct (x ∷ xs) = (In x xs → ⊥) × Distinct xs

pub All-of_In : (P : String → Type 0) (xs : List String) → ((x : String) → In x xs → P x) → All P xs
All-of_In P [] f = tt
All-of_In P (x ∷ xs) f = (f x (inl refl), All-of_In P xs (λ y a. f y (inr a)))

pub In_of_All : (P : String → Type 0) (xs : List String) → All P xs → (x : String) → In x xs → P x
In_of_All P [] all x a = elim a [ ]
In_of_All P (y ∷ xs) all x (inl e) = subst P e all.0
In_of_All P (y ∷ xs) all x (inr a) = In_of_All P xs all.1 x a

In-tail :
    (x y : String) (xs ys : List String)
    → Rising (x ∷ xs)
    → x ≡ y
    → ((h : String) → In h (x ∷ xs) → In h (y ∷ ys))
    → (h : String) → In h xs
    → In h ys
In-tail x y xs ys r first same h a = elim (same h (inr a)) [
  | inr b ↦ b
  | inl e ↦
      let before : StrLt x x = subst (StrLt x) (sym (first ∙ e)) (In_of_All (StrLt x) xs r.0 h a) in
      absurd (StrLt-asym x x before before)
]

-- A rising list is determined by what is in it.
pub Rising-unique :
    (xs ys : List String) → Rising xs → Rising ys → ((h : String) → In h xs ↔ In h ys) → xs ≡ ys
Rising-unique [] [] r t same = refl
Rising-unique [] (y ∷ ys) r t same = absurd ((same y).1 (inl refl))
Rising-unique (x ∷ xs) [] r t same = absurd ((same x).0 (inl refl))
Rising-unique (x ∷ xs) (y ∷ ys) r t same =
    let first : x ≡ y = least ((same x).0 (inl refl)) ((same y).1 (inl refl)) in
    let rest : xs ≡ ys = Rising-unique xs ys r.1 t.1 (λ h. (
      In-tail x y xs ys r first (λ z. (same z).0) h,
      In-tail y x ys xs t (sym first) (λ z. (same z).1) h,
    )) in
    ap₂ (λ z zs. z ∷ zs) first rest
  where
    least : In x (y ∷ ys) → In y (x ∷ xs) → x ≡ y
    least (inl e) b = sym e
    least (inr a) (inl e) = e
    least (inr a) (inr b) =
        absurd (StrLt-asym y x (In_of_All (StrLt y) ys t.0 x a) (In_of_All (StrLt x) xs r.0 y b))
