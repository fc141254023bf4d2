-- ===== src/Sql/Mysql/Cache.antt =====
-- The caches of IDs that a MySQL save fills first (`resolveLabelKVCache`, `resolveAnnotationKVCache` of
-- internal/storage/sqlstore/kv.go).
use mathlib.Core.Path.{subst}
use text.Mathlib.Text.{◌==◌ as str_eq}
use text.Mathlib.TextEquality.{eq_iff}
use alertsnitch.Base.{
  ℕ, ◌≡◌, ◌⊎◌, refl, ◌∙◌, ap, inl, inr, some, List, [], ◌∷◌, String, Labels, ok, All, Bool-cases,
}
use alertsnitch.Base.Maps.{lookup, insert, lookup-insert}
use alertsnitch.Sql.{Statement, from_result, Driver, Tx, upsert_label_kv, upsert_annotation_kv}
use alertsnitch.Sql.Pairs.{KvPair, kv_pair_hash, unique_sorted_kv_pairs}
use alertsnitch.Base.Sorted.{In}
use alertsnitch.Sql.Pairs.Seen.{hashes, all_hashes}
use alertsnitch.Sql.Pairs.Sorted.{In-unique_sorted_kv_pairs}
use alertsnitch.Sql.Pairs.Hashed.{IsHashed, AllHashed-unique_sorted_kv_pairs}
use alertsnitch.Sql.View.{
  View, Lawful, Ref, Adds, Adds-nothing, Adds-quiet, Kept, label_ref, annotation_ref,
}
use alertsnitch.Sql.Steps.{bind_ok}
use alertsnitch.Sql.Mysql.{
  Cache, mysql_upsert_id, mysql_get_label_kv_id, mysql_get_annotation_kv_id, resolve_pairs,
  resolve_label_kv_cache, resolve_annotation_kv_cache,
}

-- The cache has an ID for the hash.
abbrev pub Has : Cache → String → Type 0
Has cache h = (id : ℕ) × (lookup h cache ≡ some id)

Has-insert :
    (h j : String) (id : ℕ) (cache : Cache) → (j ≡ h) ⊎ Has cache h → Has (insert j id cache) h
Has-insert h j id cache o = elim (Bool-cases (str_eq j h)) [
  | inl e ↦ (id, rw (lookup-insert j h id cache, e) refl)
  | inr e ↦ elim o [
    | inl same ↦ absurd (cc (e, (eq_iff j h).1 same))
    | inr (old, f) ↦ (old, rw (lookup-insert j h id cache, e) f)
  ]
]

module _ {S : Type 0} (view : View S) (ref : String → Ref) where
  -- Every ID in the cache stands for the row of its hash.
  abbrev pub IsGood : Cache → S → Type 0
  IsGood cache s = (h : String) (id : ℕ) → lookup h cache ≡ some id → view.Means s (ref h) id

  IsGood-insert :
      (j : String) (id : ℕ) (cache : Cache) (s t : S)
      → IsGood cache s
      → Kept view s t
      → view.Means t (ref j) id
      → IsGood (insert j id cache) t
  IsGood-insert j id cache s t good kept means h i e = elim (Bool-cases (str_eq j h)) [
    | inl same ↦
        let found : some id ≡ some i = rw (lookup-insert j h id cache, same) at e in
        let path : j ≡ h = (eq_iff j h).0 same in
        let number : id ≡ i = cc (found) in
        subst (λ n. view.Means t (ref h) n) number (subst (λ k. view.Means t (ref k) id) path means)
    | inr other ↦ kept (ref h) i (good h i (rw (lookup-insert j h id cache, other) at e))
  ]

module _ {S : Type 0} (view : View S) (d : Driver S) (law : Lawful view d)
    (digest : String → String) where
  -- What filling a cache leaves: no new rows, good IDs, and one for each hash.
  pub record Resolved (ref : String → Ref) (Asked : String → Type 0) (cache : Cache) (s t : S)
      : Type 0 where
    pub quiet : Adds view [] s t
    pub good : IsGood view ref cache t
    pub has : (h : String) → Asked h → Has cache h

  abbrev Resolves : (String → Ref) → (String → String → Tx S ℕ) → Type 0
  Resolves ref get_id =
      (k v : String) (s t : S) (id : ℕ)
      → get_id k v s ≡ (ok id, t)
      → Adds view [] s t × view.Means t (ref (kv_pair_hash digest k v)) id

  resolve_pairs-Resolved :
      (ref : String → Ref) (get_id : String → String → Tx S ℕ)
      → Resolves ref get_id
      → (pairs : List KvPair) (cache result : Cache) (s t : S) → All (IsHashed digest) pairs
      → IsGood view ref cache s
      → resolve_pairs d digest get_id pairs cache s ≡ (ok result, t)
      → Resolved ref (λ h. Has cache h ⊎ In h (hashes pairs)) result s t
  unfolding resolve_pairs
  resolve_pairs-Resolved ref get_id resolves [] cache result s t hashed good h =
      let same : cache ≡ result = cc (h) in
      let still : s ≡ t = ap (λ x. x.1) h in
      record {
        quiet = Adds-nothing view s t still;
        good = λ j id e. subst (λ u. view.Means u (ref j) id) still (good j id (rw same e));
        has = λ j o. elim o [ inl a ↦ subst (λ c. Has c j) same a | inr n ↦ elim n [ ] ];
      }
  resolve_pairs-Resolved ref get_id resolves (p ∷ pairs) cache result s t hashed good h =
      let a = bind_ok (get_id p.key p.value) _ s result t h in
      let (quiet, means) = resolves p.key p.value s a.between a.value a.first in
      let good' : IsGood view ref (insert p.hash a.value cache) a.between =
        IsGood-insert view ref p.hash a.value cache s a.between good quiet.1
          (subst (λ j. view.Means a.between (ref j) a.value) hashed.0 means) in
      let rest =
        resolve_pairs-Resolved ref get_id resolves pairs (insert p.hash a.value cache) result
          a.between t hashed.1 good' a.rest in
      record {
        quiet = Adds-quiet view [] quiet rest.quiet;
        good = rest.good;
        has = λ j o. elim o [
          | inl old ↦ rest.has j (inl (Has-insert j p.hash a.value cache (inr old)))
          | inr (inl e) ↦ rest.has j (inl (Has-insert j p.hash a.value cache (inl e)))
          | inr (inr b) ↦ rest.has j (inr b)
        ];
      }

  nothing_cached : (ref : String → Ref) (s : S) → IsGood view ref [] s
  nothing_cached ref s h id e = absurd (unfold lookup in cc (e))

  Resolved-all :
      (ref : String → Ref) (get_id : String → String → Tx S ℕ)
      → Resolves ref get_id
      → (maps : List Labels) (cache : Cache) (s t : S)
      → resolve_pairs d digest get_id (unique_sorted_kv_pairs digest maps) [] s ≡ (ok cache, t)
      → Resolved ref (λ h. In h (all_hashes digest maps)) cache s t
  Resolved-all ref get_id resolves maps cache s t h =
      let r =
        resolve_pairs-Resolved ref get_id resolves (unique_sorted_kv_pairs digest maps) [] cache s t
          (AllHashed-unique_sorted_kv_pairs digest maps) (nothing_cached ref s) h in
      record {
        quiet = r.quiet;
        good = r.good;
        has = λ j a. r.has j (inr ((In-unique_sorted_kv_pairs digest maps j).1 a));
      }

  pub upserted :
      (st : Statement) (s t : S) (id : ℕ)
      → mysql_upsert_id d digest st s ≡ (ok id, t)
      → d.exec st s ≡ (ok (ok id), t)
  unfolding mysql_upsert_id
  upserted st s t id h =
      let a = bind_ok (d.exec st) from_result s id t h in a.first ∙ ap (λ r. (ok r.0, r.1)) a.rest

  -- A cache of labels that is returned has the ID of the row of every pair of the maps.
  pub resolve_label_kv_cache-Resolved :
      (maps : List Labels) (cache : Cache) (s t : S)
      → resolve_label_kv_cache d digest maps s ≡ (ok cache, t)
      → Resolved label_ref (λ h. In h (all_hashes digest maps)) cache s t
  unfolding resolve_label_kv_cache mysql_get_label_kv_id
  resolve_label_kv_cache-Resolved maps cache s t h =
      Resolved-all label_ref (mysql_get_label_kv_id d digest)
        (λ k v s' t' id e.
          law.executed (upsert_label_kv k v (kv_pair_hash digest k v)) s' t' id
            (upserted _ s' t' id e))
        maps cache s t h

  pub resolve_annotation_kv_cache-Resolved :
      (maps : List Labels) (cache : Cache) (s t : S)
      → resolve_annotation_kv_cache d digest maps s ≡ (ok cache, t)
      → Resolved annotation_ref (λ h. In h (all_hashes digest maps)) cache s t
  unfolding resolve_annotation_kv_cache mysql_get_annotation_kv_id
  resolve_annotation_kv_cache-Resolved maps cache s t h =
      Resolved-all annotation_ref (mysql_get_annotation_kv_id d digest)
        (λ k v s' t' id e.
          law.executed (upsert_annotation_kv k v (kv_pair_hash digest k v)) s' t' id
            (upserted _ s' t' id e))
        maps cache s t h
