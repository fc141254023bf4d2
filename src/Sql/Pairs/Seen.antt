-- ===== src/Sql/Pairs/Seen.antt =====
-- What the loops of `uniqueSortedKVPairs` (internal/storage/sqlstore/kv.go) collect.
use text.Mathlib.TextEquality.{eq_iff}
use mathlib.Core.Path.{subst}
use mathlib.Core.List.{map-append}
use alertsnitch.Base.{
  ◌≡◌, ◌↔◌, ◌⊎◌, sym, ◌∙◌, ap, inl, inr, true, List, [], ◌∷◌, ◌++◌, map, String, Labels, arith,
  Bool-cases, Any, Any-append_left, Any-append_right,
}
use alertsnitch.Base.Sorted.{In, Distinct}
use alertsnitch.Sql.Pairs.{
  KvPair, Collected, kv_pair_hash, is_seen, collect_pair, collect_map, collect_maps,
}

abbrev pub hashes : List KvPair → List String
hashes = map (λ p. p.hash)

-- The hashes of the pairs of the maps, in the order of iteration.
abbrev pub map_hashes : (String → String) → Labels → List String
map_hashes digest [] = []
map_hashes digest ((k, v) ∷ m) = kv_pair_hash digest k v ∷ map_hashes digest m

abbrev pub all_hashes : (String → String) → List Labels → List String
all_hashes digest [] = []
all_hashes digest (m ∷ maps) = map_hashes digest m ++ all_hashes digest maps

Any-append_cases :
    {A : Type 0} (P : A → Type 0) (xs ys : List A) → Any P (xs ++ ys) → Any P xs ⊎ Any P ys
Any-append_cases P [] ys h = inr h
Any-append_cases P (x ∷ xs) ys (inl p) = inl (inl p)
Any-append_cases P (x ∷ xs) ys (inr h) = elim (Any-append_cases P xs ys h) [
  | inl a ↦ inl (inr a)
  | inr a ↦ inr a
]

pub In-append : (h : String) (xs ys : List String) → In h (xs ++ ys) ↔ (In h xs ⊎ In h ys)
In-append h xs ys = (
  Any-append_cases (λ x. x ≡ h) xs ys,
  λ c. elim c [
    | inl a ↦ Any-append_left (λ x. x ≡ h) xs ys a
    | inr a ↦ Any-append_right (λ x. x ≡ h) xs ys a
  ],
)

is_seen_iff : (h : String) (seen : List String) → (is_seen h seen ≡ true) ↔ In h seen
unfolding is_seen
is_seen_iff h [] = (λ e. absurd (cc (e)), λ a. elim a [ ])
is_seen_iff h (x ∷ seen) = ground (arith, eq_iff x h, is_seen_iff h seen)

Distinct-append :
    (xs : List String) (h : String) → Distinct xs → (In h xs → ⊥) → Distinct (xs ++ h ∷ [])
Distinct-append [] h d n = ((λ a. elim a [ ]), tt)
Distinct-append (x ∷ xs) h d n = (
  λ a. elim ((In-append x xs (h ∷ [])).0 a) [
    | inl b ↦ d.0 b
    | inr b ↦ elim b [ inl e ↦ n (inl (sym e)) | inr c ↦ elim c [ ] ]
  ],
  Distinct-append xs h d.1 (λ a. n (inr a)),
)

-- What the loops keep: the hashes of `pairs` are those in `seen`, none twice.
pub record IsCollected (c : Collected) : Type 0 where
  pub same : hashes c.pairs ≡ c.seen
  pub distinct : Distinct c.seen

module _ (digest : String → String) where
  pub IsCollected-collect_pair :
      (k v : String) (c : Collected) → IsCollected c → IsCollected (collect_pair digest k v c)
  unfolding collect_pair
  IsCollected-collect_pair k v c i = elim (Bool-cases (is_seen (kv_pair_hash digest k v) c.seen)) [
    | inl e ↦ rw e i
    | inr e ↦
        let fresh : In (kv_pair_hash digest k v) c.seen → ⊥ =
          λ a. cc (e, (is_seen_iff (kv_pair_hash digest k v) c.seen).1 a) in
        rw e (record {
          same =
              map-append (λ p. p.hash) c.pairs _
              ∙ ap (λ l. l ++ kv_pair_hash digest k v ∷ []) i.same;
          distinct = Distinct-append c.seen (kv_pair_hash digest k v) i.distinct fresh;
        })
  ]

  pub IsCollected-collect_map :
      (m : Labels) (c : Collected) → IsCollected c → IsCollected (collect_map digest m c)
  unfolding collect_map
  IsCollected-collect_map [] c i = i
  IsCollected-collect_map ((k, v) ∷ m) c i =
      IsCollected-collect_map m (collect_pair digest k v c) (IsCollected-collect_pair k v c i)

  pub IsCollected-collect_maps :
      (maps : List Labels) (c : Collected)
      → IsCollected c
      → IsCollected (collect_maps digest maps c)
  unfolding collect_maps
  IsCollected-collect_maps [] c i = i
  IsCollected-collect_maps (m ∷ maps) c i =
      IsCollected-collect_maps maps (collect_map digest m c) (IsCollected-collect_map m c i)

  pub In-collect_pair :
      (k v h : String) (c : Collected)
      → In h (collect_pair digest k v c).seen ↔ (In h c.seen ⊎ (kv_pair_hash digest k v ≡ h))
  unfolding collect_pair
  In-collect_pair k v h c = elim (Bool-cases (is_seen (kv_pair_hash digest k v) c.seen)) [
    | inl e ↦ rw e (
      inl,
      λ o. elim o [
        | inl a ↦ a
        | inr same ↦ subst (λ x. In x c.seen) same ((is_seen_iff _ c.seen).0 e)
      ],
    )
    | inr e ↦ rw e (
      λ a. elim ((In-append h c.seen (kv_pair_hash digest k v ∷ [])).0 a) [
        | inl b ↦ inl b
        | inr b ↦ elim b [ inl same ↦ inr same | inr none ↦ elim none [ ] ]
      ],
      λ o.
          (In-append h c.seen (kv_pair_hash digest k v ∷ [])).1
            (elim o [ inl b ↦ inl b | inr same ↦ inr (inl same) ]),
    )
  ]

  pub In-collect_map :
      (m : Labels) (h : String) (c : Collected)
      → In h (collect_map digest m c).seen ↔ (In h c.seen ⊎ In h (map_hashes digest m))
  unfolding collect_map
  In-collect_map [] h c = (inl, λ o. elim o [ inl a ↦ a | inr n ↦ elim n [ ] ])
  In-collect_map ((k, v) ∷ m) h c =
      let ih = In-collect_map m h (collect_pair digest k v c) in
      let one = In-collect_pair k v h c in ground (arith, ih, one)

  pub In-collect_maps :
      (maps : List Labels) (h : String) (c : Collected)
      → In h (collect_maps digest maps c).seen ↔ (In h c.seen ⊎ In h (all_hashes digest maps))
  unfolding collect_maps
  In-collect_maps [] h c = (inl, λ o. elim o [ inl a ↦ a | inr n ↦ elim n [ ] ])
  In-collect_maps (m ∷ maps) h c = ground (
    arith,
    In-collect_maps maps h (collect_map digest m c),
    In-collect_map m h c,
    In-append h (map_hashes digest m) (all_hashes digest maps),
  )
