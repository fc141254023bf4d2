-- ===== src/Base/Texts.antt =====
-- Texts with a separator between two parts.
use Prim.Native.Char.{Char, code}
use Prim.Native.String.{String, ◌++◌ as str_append}
use Prim.Native.String.append.{nil, cons}
use mathlib.Core.Path.{◌≡◌, refl, sym, ◌∙◌, ap}
use mathlib.Core.Logic.{◌≢◌}

-- The character does not occur.
abbrev pub Avoids : Char → String → Type 0
Avoids sep String.[] = Unit {0}
Avoids sep (String.◌∷◌ c s) = (code c ≢ code sep) × Avoids sep s

-- A text up to the first separator is determined by the whole.
module _ (sep : Char) where
  pub split :
      (k k' v v' : String)
      → Avoids sep k
      → Avoids sep k'
      → str_append k (String.◌∷◌ sep v) ≡ str_append k' (String.◌∷◌ sep v')
      → (k ≡ k') × (v ≡ v')
  split String.[] String.[] v v' n n' h =
      (refl, cc (h, nil (String.◌∷◌ sep v), nil (String.◌∷◌ sep v')))
  split String.[] (String.◌∷◌ c k') v v' n n' h =
      let heads : String.◌∷◌ sep v ≡ String.◌∷◌ c (str_append k' (String.◌∷◌ sep v')) =
        sym (nil _) ∙ (h ∙ cons c k' _) in
      let same : sep ≡ c = cc (heads) in absurd (n'.0 (sym (ap code same)))
  split (String.◌∷◌ c k) String.[] v v' n n' h =
      let heads : String.◌∷◌ c (str_append k (String.◌∷◌ sep v)) ≡ String.◌∷◌ sep v' =
        sym (cons c k _) ∙ (h ∙ nil _) in
      let same : c ≡ sep = cc (heads) in absurd (n.0 (ap code same))
  split (String.◌∷◌ c k) (String.◌∷◌ d k') v v' n n' h =
      let heads : String.◌∷◌ c (str_append k (String.◌∷◌ sep v))
          ≡ String.◌∷◌ d (str_append k' (String.◌∷◌ sep v')) =
        sym (cons c k _) ∙ (h ∙ cons d k' _) in
      let (keys, values) = split k k' v v' n.1 n'.1 (cc (heads)) in (cc (heads, keys), values)
