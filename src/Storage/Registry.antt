-- ===== src/Storage/Registry.antt =====
-- Which backend the registry connects (internal/storage/storage.go, `main` of main.go).
use text.Mathlib.Text.{◌==◌ as str_eq}
use text.Mathlib.TextEquality.{eq_iff}
use alertsnitch.Base.{
  ◌≡◌, ◌↔◌, ◌⊎◌, refl, inl, inr, some, List, [], ◌∷◌, String, err, message, Bool-cases,
  Option-cases,
}
use alertsnitch.Base.Maps.{lookup}
use alertsnitch.Base.Order.{str_leb}
use alertsnitch.Base.Sorted.{In}
use alertsnitch.Storage.{Config, Factory, Registry, insert_name, supported_backends, connect}

In-insert_name :
    (n m : String) (names : List String) → In m (insert_name n names) ↔ ((n ≡ m) ⊎ In m names)
unfolding insert_name
In-insert_name n m [] = (λ a. a, λ a. a)
In-insert_name n m (k ∷ names) = elim (Bool-cases (str_leb n k)) [
  | inl e ↦ rw (e, insert_name) (λ a. a, λ a. a)
  | inr e ↦
      let (there, back) = In-insert_name n m names in
      rw (e, insert_name)
        (
          λ a. elim a [
            | inl x ↦ inr (inl x)
            | inr b ↦ elim (there b) [ inl x ↦ inl x | inr c ↦ inr (inr c) ]
          ],
          λ a. elim a [
            | inl x ↦ inr (back (inl x))
            | inr b ↦ elim b [ inl x ↦ inl x | inr c ↦ inr (back (inr c)) ]
          ],
        )
]

-- The names that are listed are those that have a factory.
In-supported_backends :
    (registry : Registry) (name : String)
    → In name (supported_backends registry) ↔ ((f : Factory) × (lookup name registry ≡ some f))
unfolding supported_backends lookup
In-supported_backends [] name = (λ a. elim a [ ], λ (f, h). absurd (cc (h)))
In-supported_backends ((n, f) ∷ registry) name =
    let (there, back) = In-supported_backends registry name in
    let (split, join) = In-insert_name n name (supported_backends registry) in
    elim (Bool-cases (str_eq n name)) [
      | inl e ↦ (λ a. (f, rw (e, lookup) refl), λ h. join (inl ((eq_iff n name).0 e)))
      | inr e ↦
          rw (e, lookup)
            (
              λ a. elim (split a) [
                | inl x ↦ absurd (cc (e, (eq_iff n name).1 x))
                | inr b ↦ there b
              ],
              λ h. join (inr (back h)),
            )
    ]

-- Connecting runs the factory of the configured backend if its name is among the supported ones that
-- are listed, and otherwise fails with an error that lists them.
pub connect-Supported :
    (invalid : String → List String → String) (registry : Registry) (cfg : Config)
    → (In cfg.backend (supported_backends registry)
        × ((f : Factory) × (lookup cfg.backend registry ≡ some f)
            × (connect invalid registry cfg ≡ f cfg)))
      ⊎ (¬ In cfg.backend (supported_backends registry)
          × (connect invalid registry cfg
              ≡ err (message (invalid cfg.backend (supported_backends registry)))))
unfolding connect
connect-Supported invalid registry cfg =
    let (there, back) = In-supported_backends registry cfg.backend in
    elim (Option-cases (lookup cfg.backend registry)) [
      | inl e ↦ inr (λ a. (let (f, h) = there a in cc (e, h)), rw (e, connect) refl)
      | inr (f, e) ↦ inl (back (f, e), (f, e, rw (e, connect) refl))
    ]
