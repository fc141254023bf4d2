-- ===== src/Stream/Key/Written.antt =====
-- How the text of a stream key is read back (`streamKey` of internal/storage/loki/stream.go).
use Prim.Native.Char.{Char, code}
use Prim.Native.String.{◌++◌ as str_append}
use Prim.Native.String.append.{nil, cons}
use mathlib.Core.Path.{ap₂}
use text.Mathlib.TextLemmas.{append_assoc}
use alertsnitch.Base.{
  ◌≡◌, refl, sym, ◌∙◌, ap, Bool, true, false, List, [], ◌∷◌, String, Labels, arith, All,
}
use alertsnitch.Base.Maps.{value_at}
use alertsnitch.Base.Texts.{Avoids, split}
use alertsnitch.Labels.{is_name_start, is_name_char, all_name_chars, is_valid_label_name}
use alertsnitch.Stream.Key.{sorted_keys, write_pairs, stream_key}

-- What is relied on of strconv.Quote: a quoted text shows where it ends, and what it quotes.
abbrev pub SelfDelimiting : (String → String) → Type 0
SelfDelimiting quote =
    (s t u v : String) → str_append (quote s) u ≡ str_append (quote t) v → (s ≡ t) × (u ≡ v)

abbrev colon : Char
colon = ":"

abbrev comma : Char
comma = ","

abbrev pub open_brace : Char
open_brace = "{"

abbrev brace : Char
brace = "}"

abbrev pub IsName : String → Type 0
IsName k = is_valid_label_name k ≡ true

Avoids-all_name_chars : (s : String) → all_name_chars s ≡ true → Avoids colon s
unfolding all_name_chars is_name_char is_name_start
Avoids-all_name_chars String.[] h = _
Avoids-all_name_chars (String.◌∷◌ c s) h = (ground arith, Avoids-all_name_chars s (ground arith))

IsName-Avoids : (k : String) → IsName k → Avoids colon k
unfolding is_valid_label_name is_name_start
IsName-Avoids String.[] h = _
IsName-Avoids (String.◌∷◌ c s) h = (ground arith, Avoids-all_name_chars s (ground arith))

-- A name does not begin with the closing brace.
no_brace : (k u : String) → IsName k → str_append k u ≡ "}" → ⊥
unfolding is_valid_label_name is_name_start
no_brace String.[] u h e = absurd (cc (h))
no_brace (String.◌∷◌ c s) u h e =
    let heads : String.◌∷◌ c (str_append s u) ≡ String.◌∷◌ brace "" = sym (cons c s u) ∙ e in
    let same : c ≡ brace = cc (heads) in let number : code c ≡ 125 = ap code same in ground arith

module _ (quote : String → String) (law : SelfDelimiting quote) where
  -- The text from a key on.
  abbrev body : String → List String → Labels → String
  body k ks m = str_append k (
      String.◌∷◌ colon
        (str_append (quote (value_at k m)) (str_append (write_pairs quote false ks m) "}")))

  single : (c : Char) (v : String) → str_append (String.◌∷◌ c "") v ≡ String.◌∷◌ c v
  single c v = cons c "" v ∙ ap (λ s. String.◌∷◌ c s) (nil v)

  body_lem :
      (k q r : String)
      → str_append (str_append k (str_append ":" (str_append q r))) "}"
        ≡ str_append k (String.◌∷◌ colon (str_append q (str_append r "}")))
  body_lem k q r =
      append_assoc k (str_append ":" (str_append q r)) "}"
      ∙ ap (str_append k) (
          append_assoc ":" (str_append q r) "}"
          ∙ (single colon (str_append (str_append q r) "}")
              ∙ ap (λ s. String.◌∷◌ colon s) (append_assoc q r "}")))

  first_lem :
      (k : String) (ks : List String) (m : Labels)
      → str_append (write_pairs quote true (k ∷ ks) m) "}" ≡ body k ks m
  unfolding write_pairs
  first_lem k ks m =
      ap (λ x. str_append x "}") (nil _)
      ∙ body_lem k (quote (value_at k m)) (write_pairs quote false ks m)

  later_lem :
      (k : String) (ks : List String) (m : Labels)
      → str_append (write_pairs quote false (k ∷ ks) m) "}" ≡ String.◌∷◌ comma (body k ks m)
  unfolding write_pairs
  later_lem k ks m =
      append_assoc "," _ "}"
      ∙ (single comma _
          ∙ ap (λ s. String.◌∷◌ comma s)
              (body_lem k (quote (value_at k m)) (write_pairs quote false ks m)))

  end_lem : (first : Bool) (m : Labels) → str_append (write_pairs quote first [] m) "}" ≡ "}"
  unfolding write_pairs
  end_lem first m = nil "}"

  -- What two texts of pairs have in common when they are the same text.
  abbrev pub Agree : List String → List String → Labels → Labels → Type 0
  Agree ks ks' m m' = (ks ≡ ks') × All (λ k. value_at k m ≡ value_at k m') ks

  module _ (m m' : Labels) where
    body_same :
        (k k' : String) (ks ks' : List String)
        → IsName k
        → IsName k'
        → body k ks m ≡ body k' ks' m'
        → (k ≡ k')
          × (value_at k m ≡ value_at k m')
          × (str_append (write_pairs quote false ks m) "}"
              ≡ str_append (write_pairs quote false ks' m') "}")
    body_same k k' ks ks' n n' h =
        let (names, after) = split colon k k' _ _ (IsName-Avoids k n) (IsName-Avoids k' n') h in
        let (values, rests) = law _ _ _ _ after in
        (names, values ∙ ap (λ x. value_at x m') (sym names), rests)

    Agree-cons :
        (k k' : String) (ks ks' : List String)
        → k ≡ k'
        → value_at k m ≡ value_at k m'
        → Agree ks ks' m m'
        → Agree (k ∷ ks) (k' ∷ ks') m m'
    Agree-cons k k' ks ks' names values (same, all) =
        (ap₂ (λ x xs. x ∷ xs) names same, (values, all))

    later_same :
        (ks ks' : List String)
        → All IsName ks
        → All IsName ks'
        → str_append (write_pairs quote false ks m) "}"
          ≡ str_append (write_pairs quote false ks' m') "}"
        → Agree ks ks' m m'
    later_same [] [] n n' h = (refl, _)
    later_same [] (k' ∷ ks') n n' h =
        let heads : String.◌∷◌ brace "" ≡ String.◌∷◌ comma (body k' ks' m') =
          sym (end_lem false m) ∙ (h ∙ later_lem k' ks' m') in
        let same : brace ≡ comma = cc (heads) in
        let number : code brace ≡ code comma = ap code same in absurd (omega (arith, number))
    later_same (k ∷ ks) [] n n' h =
        let heads : String.◌∷◌ comma (body k ks m) ≡ String.◌∷◌ brace "" =
          sym (later_lem k ks m) ∙ (h ∙ end_lem false m') in
        let same : comma ≡ brace = cc (heads) in
        let number : code comma ≡ code brace = ap code same in absurd (omega (arith, number))
    later_same (k ∷ ks) (k' ∷ ks') n n' h =
        let (names, values, rests) =
          body_same k k' ks ks' n.0 n'.0
            (cc (sym (later_lem k ks m) ∙ (h ∙ later_lem k' ks' m'))) in
        Agree-cons k k' ks ks' names values (later_same ks ks' n.1 n'.1 rests)

    pub first_same :
        (ks ks' : List String)
        → All IsName ks
        → All IsName ks'
        → str_append (write_pairs quote true ks m) "}"
          ≡ str_append (write_pairs quote true ks' m') "}"
        → Agree ks ks' m m'
    first_same [] [] n n' h = (refl, _)
    first_same [] (k' ∷ ks') n n' h =
        absurd (no_brace k' _ n'.0 (sym (first_lem k' ks' m') ∙ (sym h ∙ end_lem true m)))
    first_same (k ∷ ks) [] n n' h =
        absurd (no_brace k _ n.0 (sym (first_lem k ks m) ∙ (h ∙ end_lem true m')))
    first_same (k ∷ ks) (k' ∷ ks') n n' h =
        let (names, values, rests) =
          body_same k k' ks ks' n.0 n'.0 (sym (first_lem k ks m) ∙ (h ∙ first_lem k' ks' m')) in
        Agree-cons k k' ks ks' names values (later_same ks ks' n.1 n'.1 rests)

  -- The text of a key between the braces, also for the empty map.
  pub stream_key_lem :
      (m : Labels)
      → stream_key quote m
        ≡ String.◌∷◌ open_brace (str_append (write_pairs quote true (sorted_keys m) m) "}")
  unfolding stream_key
  stream_key_lem [] = unfold sorted_keys in unfold write_pairs in refl
  stream_key_lem (l ∷ m) = single open_brace _
