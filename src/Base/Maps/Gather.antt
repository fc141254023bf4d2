-- ===== src/Base/Maps/Gather.antt =====
-- What the values of a map hold together, and how a write at a key adds to it.
use mathlib.Core.List.{List, [], ◌∷◌, ◌++◌, append_assoc, Perm, perm_append_comm}
use mathlib.Core.List.Perm
use mathlib.Core.Path.{◌≡◌, subst}
use mathlib.Core.Logic.{inl, inr}
use mathlib.Core.Option.{none, some}
use native.Mathlib.Omega.{arith}
use Prim.Native.String.{String}
use text.Mathlib.Text.{◌==◌}
use alertsnitch.Base.Tests.{Bool-cases}
use alertsnitch.Base.Maps.{lookup, insert}

module _ {B : Type 0} where
  -- Items in front of the rest can be moved past what stands before them.
  move_front : (xs ys zs : List B) → Perm (xs ++ (ys ++ zs)) (ys ++ (xs ++ zs))
  move_front xs ys zs =
      subst (λ l. Perm l (ys ++ (xs ++ zs))) (append_assoc xs ys zs)
        (subst (Perm ((xs ++ ys) ++ zs)) (append_assoc ys xs zs)
          (Perm.append (perm_append_comm xs ys) (Perm.refl zs)))

module _ {V B : Type 0} (items : V → List B) where
  -- The items of all values, in the map's order.
  abbrev pub gather : List (String × V) → List B
  gather [] = []
  gather ((k, v) ∷ m) = items v ++ gather m

  -- A value at a new key adds its items.
  pub gather-insert_new :
      (k : String) (v : V) (m : List (String × V))
      → lookup k m ≡ none
      → Perm (gather (insert k v m)) (items v ++ gather m)
  unfolding lookup insert
  gather-insert_new k v [] h = Perm.refl _
  gather-insert_new k v ((j, w) ∷ m) h = elim (Bool-cases (j == k)) [
    | inl e ↦ absurd (unfold lookup in ground arith)
    | inr e ↦
        let absent : lookup k m ≡ none = ground arith in
        rw e (
          Perm.trans (Perm.append (Perm.refl (items w)) (gather-insert_new k v m absent))
            (move_front (items w) (items v) (gather m)))
  ]

  -- A value that replaces another adds the items that it has over the other's.
  pub gather-insert_more :
      (k : String) (old new : V) (more : List B) (m : List (String × V))
      → lookup k m ≡ some old
      → Perm (items new) (more ++ items old)
      → Perm (gather (insert k new m)) (more ++ gather m)
  unfolding lookup insert
  gather-insert_more k old new more [] h p = absurd (ground arith)
  gather-insert_more k old new more ((j, w) ∷ m) h p = elim (Bool-cases (j == k)) [
    | inl e ↦
        let same : w ≡ old = ground arith in
        rw (e, same, ← append_assoc) (Perm.append p (Perm.refl (gather m)))
    | inr e ↦
        let present : lookup k m ≡ some old = ground arith in
        rw e (
          Perm.trans
            (Perm.append (Perm.refl (items w)) (gather-insert_more k old new more m present p))
            (move_front (items w) more (gather m)))
  ]
