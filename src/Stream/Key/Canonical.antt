-- ===== src/Stream/Key/Canonical.antt =====
-- A stream key (`streamKey` of internal/storage/loki/stream.go) does not depend on the order in which the
-- map is iterated.
use Prim.Native.String.{◌++◌ as str_append}
use text.Mathlib.TextEquality.{eq_iff}
use mathlib.Core.Path.{subst, ap₂}
use alertsnitch.Base.{
  ◌≡◌, ◌≢◌, ◌↔◌, ◌⊎◌, refl, sym, ◌∙◌, ap, inl, inr, Bool, true, false, none, some, List, [], ◌∷◌,
  String, Labels, arith, Bool-cases, if◌then◌else◌,
}
use alertsnitch.Base.Maps.{lookup, value_at}
use alertsnitch.Base.Order.{
  StrLt, StrLt-trans, StrLt-total, str_leb, StrLt-str_leb, StrLt-str_leb_after,
}
use alertsnitch.Base.Sorted.{In, Rising, Distinct, All-of_In, In_of_All, Rising-unique}
use alertsnitch.Stream.Key.{insert_key, sorted_keys, write_pairs, stream_key}

abbrev pub keys : Labels → List String
keys [] = []
keys ((k, v) ∷ m) = k ∷ keys m

-- Two iterations of the same map.
pub record SameMap (m m' : Labels) : Type 0 where
  pub distinct : Distinct (keys m)
  pub distinct' : Distinct (keys m')
  pub same : (k : String) → lookup k m ≡ lookup k m'

pub In-keys : (k : String) (m : Labels) → In k (keys m) ↔ (lookup k m ≢ none)
unfolding lookup
In-keys k [] = (λ a. elim a [ ], λ h. absurd (h refl))
In-keys k ((j, v) ∷ m) = ground (arith, eq_iff j k, In-keys k m)

In-insert_key : (h k : String) (ks : List String) → In h (insert_key k ks) ↔ ((k ≡ h) ⊎ In h ks)
unfolding insert_key
In-insert_key h k [] = (λ a. a, λ a. a)
In-insert_key h k (j ∷ ks) = elim (Bool-cases (str_leb k j)) [
  | inl e ↦ rw e (λ a. a, λ a. a)
  | inr e ↦ rw e (ground (arith, In-insert_key h k ks))
]

pub In-sorted_keys : (h : String) (m : Labels) → In h (sorted_keys m) ↔ In h (keys m)
unfolding sorted_keys
In-sorted_keys h [] = (λ a. a, λ a. a)
In-sorted_keys h ((k, v) ∷ m) =
    ground (arith, In-insert_key h k (sorted_keys m), In-sorted_keys h m)

Rising-insert_key :
    (k : String) (ks : List String) → Rising ks → (In k ks → ⊥) → Rising (insert_key k ks)
unfolding insert_key
Rising-insert_key k [] r fresh = (_, _)
Rising-insert_key k (j ∷ ks) r fresh = elim (StrLt-total k j) [
  | inl before ↦ rw (StrLt-str_leb k j before) (
    (
      before,
      All-of_In (StrLt k) ks (λ x a. StrLt-trans k j x before (In_of_All (StrLt j) ks r.0 x a)),
    ),
    r,
  )
  | inr (inl same) ↦ absurd (fresh (inl (sym same)))
  | inr (inr after) ↦ rw (StrLt-str_leb_after k j after) (
    All-of_In (StrLt j) (insert_key k ks) (λ x a. elim ((In-insert_key x k ks).0 a) [
      | inl e ↦ subst (StrLt j) e after
      | inr b ↦ In_of_All (StrLt j) ks r.0 x b
    ]),
    Rising-insert_key k ks r.1 (λ a. fresh (inr a)),
  )
]

pub Rising-sorted_keys : (m : Labels) → Distinct (keys m) → Rising (sorted_keys m)
unfolding sorted_keys
Rising-sorted_keys [] d = _
Rising-sorted_keys ((k, v) ∷ m) d =
    Rising-insert_key k (sorted_keys m) (Rising-sorted_keys m d.1)
      (λ a. d.0 ((In-sorted_keys k m).0 a))

sorted_keys-same : (m m' : Labels) → SameMap m m' → sorted_keys m ≡ sorted_keys m'
sorted_keys-same m m' s =
    Rising-unique _ _ (Rising-sorted_keys m s.distinct) (Rising-sorted_keys m' s.distinct') (λ h.
      let there : In h (keys m) ↔ In h (keys m') = (
        λ a. (In-keys h m').1 (λ e. (In-keys h m).0 a (s.same h ∙ e)),
        λ a. (In-keys h m).1 (λ e. (In-keys h m').0 a (sym (s.same h) ∙ e)),
      ) in
      ground (arith, In-sorted_keys h m, In-sorted_keys h m'))

value_at-same :
    (k : String) (m m' : Labels) → lookup k m ≡ lookup k m' → value_at k m ≡ value_at k m'
unfolding value_at
value_at-same k m m' same = ap (λ o. elim o as (λ x. String) [ none ↦ "" | some v ↦ v ]) same

write_pairs-same :
    (quote : String → String) (first : Bool) (ks : List String) (m m' : Labels)
    → ((k : String) → lookup k m ≡ lookup k m')
    → write_pairs quote first ks m ≡ write_pairs quote first ks m'
unfolding write_pairs
write_pairs-same quote first [] m m' same = refl
write_pairs-same quote first (k ∷ ks) m m' same =
    let value = value_at-same k m m' (same k) in
    let rest = write_pairs-same quote false ks m m' same in
    ap₂
      (λ v r.
        str_append (if first then "" else ",")
          (str_append k (str_append ":" (str_append (quote v) r))))
      value rest

not_empty : (k v : String) (m : Labels) → ((j : String) → lookup j [] ≡ lookup j ((k, v) ∷ m)) → ⊥
unfolding lookup
not_empty k v m same = ground (arith, same k, eq_iff k k)

-- However a map is iterated, its key is the same.
pub stream_key_canonical :
    (quote : String → String) (m m' : Labels)
    → SameMap m m'
    → stream_key quote m ≡ stream_key quote m'
unfolding stream_key
stream_key_canonical quote [] [] s = refl
stream_key_canonical quote [] ((k, v) ∷ m) s = absurd (not_empty k v m s.same)
stream_key_canonical quote ((k, v) ∷ m) [] s = absurd (not_empty k v m (λ j. sym (s.same j)))
stream_key_canonical quote (l ∷ m) (l' ∷ m') s =
    rw
      (
        sorted_keys-same _ _ s,
        write_pairs-same quote true (sorted_keys (l' ∷ m')) (l ∷ m) (l' ∷ m') s.same,
      )
      refl
