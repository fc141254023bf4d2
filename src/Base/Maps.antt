-- ===== src/Base/Maps.antt =====
-- Go's maps with string keys, as association lists: the list is one iteration order of the map.
pub mod Gather
use Prim.Native.String.{String}
use mathlib.Core.Path.{◌≡◌, refl}
use mathlib.Core.Bool.{Bool}
use mathlib.Core.Option.{Option, none, some}
use mathlib.Core.List.{List, [], ◌∷◌}
use native.Mathlib.Omega.{arith}
use text.Mathlib.Text.{◌==◌ as str_eq}
use text.Mathlib.TextEquality.{eq_iff}
use alertsnitch.Base.Tests.{if◌then◌else◌}
use alertsnitch.Base.Go.{Labels}

module _ {ℓ} {Value : Type ℓ} where
  -- `value, ok := entries[key]`
  unfoldable pub lookup : String → List (String × Value) → Option Value
  lookup key [] = none
  lookup key ((name, value) ∷ entries) =
      let later = lookup key entries in if str_eq name key then some value else later

  -- `entries[key] = value`: a key that is there keeps its place, another one comes last.
  unfoldable pub insert : String → Value → List (String × Value) → List (String × Value)
  insert key value [] = (key, value) ∷ []
  insert key value ((name, old) ∷ entries) =
      let later = insert key value entries in
      if str_eq name key then (key, value) ∷ entries else (name, old) ∷ later

  -- A write is seen at its own key and nowhere else.
  pub lookup-insert :
      (key asked : String) (value : Value) (entries : List (String × Value))
      → lookup asked (insert key value entries)
        ≡ (if str_eq key asked then some value else lookup asked entries)
  unfolding insert lookup
  lookup-insert key asked value [] = refl
  lookup-insert key asked value ((name, old) ∷ entries) = ground (
    arith,
    lookup-insert key asked value entries,
    eq_iff name asked,
    eq_iff key asked,
    eq_iff name key,
  )

-- The value at a key, the empty text where there is none.
unfoldable pub value_at : String → Labels → String
unfolding lookup
value_at k m = elim (lookup k m) [ none ↦ "" | some v ↦ v ]
