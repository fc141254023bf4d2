-- ===== src/Stream/Key/Injective.antt =====
-- Which label sets have the same stream key (`streamKey` of internal/storage/loki/stream.go).
use Prim.Native.String.{◌++◌ as str_append}
use mathlib.Core.Path.{subst}
use alertsnitch.Base.{
  ◌≡◌, ◌↔◌, refl, sym, ◌∙◌, inl, inr, true, some, [], ◌∷◌, String, Labels, Option-cases, All,
}
use alertsnitch.Base.Maps.{lookup, value_at}
use alertsnitch.Base.Sorted.{In, Distinct, All-of_In, In_of_All}
use alertsnitch.Labels.Valid.{AllValid}
use alertsnitch.Stream.Key.{sorted_keys, write_pairs, stream_key}
use alertsnitch.Stream.Key.Written.{SelfDelimiting, IsName, open_brace, first_same, stream_key_lem}
use alertsnitch.Stream.Key.Canonical.{keys, In-keys, In-sorted_keys, stream_key_canonical}

IsName-keys : (m : Labels) → AllValid m → (k : String) → In k (keys m) → IsName k
IsName-keys [] valid k a = elim a [ ]
IsName-keys ((j, v) ∷ m) valid k (inl e) = subst IsName e valid.0
IsName-keys ((j, v) ∷ m) valid k (inr a) = IsName-keys m valid.1 k a

IsName-sorted_keys : (m : Labels) → AllValid m → All IsName (sorted_keys m)
IsName-sorted_keys m valid =
    All-of_In IsName (sorted_keys m) (λ k a. IsName-keys m valid k ((In-sorted_keys k m).0 a))

value_at-some : (k v : String) (m : Labels) → lookup k m ≡ some v → value_at k m ≡ v
unfolding value_at
value_at-some k v m e = rw (e, value_at) refl

lookup_of_Agree :
    (m m' : Labels)
    → sorted_keys m ≡ sorted_keys m'
    → All (λ k. value_at k m ≡ value_at k m') (sorted_keys m)
    → (k : String) → lookup k m ≡ lookup k m'
lookup_of_Agree m m' same values k = elim (Option-cases (lookup k m)) [
  | inl e ↦ elim (Option-cases (lookup k m')) [
    | inl e' ↦ e ∙ sym e'
    | inr (v, e') ↦
        let there : In k (sorted_keys m') =
          (In-sorted_keys k m').1 ((In-keys k m').1 (λ x. cc (x, e'))) in
        absurd ((In-keys k m).0 ((In-sorted_keys k m).0 (subst (In k) (sym same) there)) e)
  ]
  | inr (v, e) ↦
      let there : In k (sorted_keys m) =
        (In-sorted_keys k m).1 ((In-keys k m).1 (λ x. cc (x, e))) in
      elim (Option-cases (lookup k m')) [
        | inl e' ↦ absurd ((In-keys k m').0 ((In-sorted_keys k m').0 (subst (In k) same there)) e')
        | inr (v', e') ↦
            let equal =
              In_of_All (λ j. value_at j m ≡ value_at j m') (sorted_keys m) values k there in
            cc (e, e', equal, value_at-some k v m e, value_at-some k v' m' e')
      ]
]

-- Two label sets whose names match the label grammar have the same stream key exactly when they have the
-- same value at every name, in whichever order each is iterated: a merge neither joins streams of
-- different labels nor keeps streams of the same labels apart. A quoted text is taken to show where it
-- ends and what it quotes.
pub stream_key_iff :
    (quote : String → String)
    → SelfDelimiting quote
    → (m m' : Labels) → AllValid m
    → AllValid m'
    → Distinct (keys m)
    → Distinct (keys m')
    → (stream_key quote m ≡ stream_key quote m') ↔ ((k : String) → lookup k m ≡ lookup k m')
stream_key_iff quote law m m' valid valid' distinct distinct' = (
  λ h.
      let texts : String.◌∷◌ open_brace (str_append (write_pairs quote true (sorted_keys m) m) "}")
          ≡ String.◌∷◌ open_brace (str_append (write_pairs quote true (sorted_keys m') m') "}") =
        sym (stream_key_lem quote law m) ∙ (h ∙ stream_key_lem quote law m') in
      let (same, values) =
        first_same quote law m m' (sorted_keys m) (sorted_keys m') (IsName-sorted_keys m valid)
          (IsName-sorted_keys m' valid') (cc (texts)) in
      lookup_of_Agree m m' same values,
  λ same.
      stream_key_canonical quote m m'
        (record { distinct = distinct; distinct' = distinct'; same = same }),
)
