-- ===== src/Examples/Keys.antt =====
-- The theorem of stream keys at two iterations of a map.
use Prim.Native.Char.{Char, code}
use Prim.Native.String.{◌++◌ as str_append}
use Prim.Native.String.append.{nil, cons}
use text.Mathlib.TextEquality.{eq_iff}
use alertsnitch.Base.{◌≡◌, ◌≢◌, ◌↔◌, ◌∙◌, refl, sym, ap, inl, inr, [], ◌∷◌, String, Labels, arith}
use alertsnitch.Base.Maps.{lookup}
use alertsnitch.Base.Sorted.{Distinct}
use alertsnitch.Labels.{is_valid_label_name}
use alertsnitch.Labels.Valid.{AllValid}
use alertsnitch.Stream.Key.{stream_key}
use alertsnitch.Stream.Key.Canonical.{keys}
use alertsnitch.Stream.Key.Written.{SelfDelimiting}
use alertsnitch.Stream.Key.Injective.{stream_key_iff}

abbrev stop : Char
stop = "."

abbrev next : Char
next = "+"

-- A quotation in which every character is announced, and the end as well.
abbrev announced : String → String
announced String.[] = "."
announced (String.◌∷◌ c s) = String.◌∷◌ next (String.◌∷◌ c (announced s))

at_end : (u : String) → str_append (announced "") u ≡ String.◌∷◌ stop u
at_end u = cons stop "" u ∙ ap (λ s. String.◌∷◌ stop s) (nil u)

at_next :
    (c : Char) (s u : String)
    → str_append (announced (String.◌∷◌ c s)) u
      ≡ String.◌∷◌ next (String.◌∷◌ c (str_append (announced s) u))
at_next c s u =
    cons next (String.◌∷◌ c (announced s)) u ∙ ap (λ t. String.◌∷◌ next t) (cons c (announced s) u)

differ : (u v : String) → String.◌∷◌ stop u ≡ String.◌∷◌ next v → ⊥
differ u v h =
    let same : stop ≡ next = cc (h) in
    let number : code stop ≡ code next = ap code same in omega (arith, number)

announced-SelfDelimiting : SelfDelimiting announced
announced-SelfDelimiting String.[] String.[] u v h = (refl, cc (sym (at_end u) ∙ (h ∙ at_end v)))
announced-SelfDelimiting String.[] (String.◌∷◌ d t) u v h =
    absurd (differ _ _ (sym (at_end u) ∙ (h ∙ at_next d t v)))
announced-SelfDelimiting (String.◌∷◌ c s) String.[] u v h =
    absurd (differ _ _ (sym (at_end v) ∙ (sym h ∙ at_next c s u)))
announced-SelfDelimiting (String.◌∷◌ c s) (String.◌∷◌ d t) u v h =
    let whole = sym (at_next c s u) ∙ (h ∙ at_next d t v) in
    let (same, rest) = announced-SelfDelimiting s t u v (cc (whole)) in (cc (whole, same), rest)

abbrev pods : Labels
pods = ("pod", "p1") ∷ ("severity", "page") ∷ []

abbrev reversed : Labels
reversed = ("severity", "page") ∷ ("pod", "p1") ∷ []

pod_not_severity : ◌≢◌ {A = String} "pod" "severity"
pod_not_severity = ground (arith, eq_iff "pod" "severity")

pods-AllValid : AllValid pods
pods-AllValid = unfold is_valid_label_name in (refl, (refl, tt))

reversed-AllValid : AllValid reversed
reversed-AllValid = unfold is_valid_label_name in (refl, (refl, tt))

pods-Distinct : Distinct (keys pods)
pods-Distinct =
    (λ a. elim a [ inl e ↦ pod_not_severity (sym e) | inr b ↦ elim b [ ] ], (λ a. elim a [ ], tt))

reversed-Distinct : Distinct (keys reversed)
reversed-Distinct =
    (λ a. elim a [ inl e ↦ pod_not_severity e | inr b ↦ elim b [ ] ], (λ a. elim a [ ], tt))

stream_key_iff_example :
    (stream_key announced pods ≡ stream_key announced reversed)
    ↔ ((k : String) → lookup k pods ≡ lookup k reversed)
stream_key_iff_example =
    stream_key_iff announced announced-SelfDelimiting pods reversed pods-AllValid reversed-AllValid
      pods-Distinct reversed-Distinct
