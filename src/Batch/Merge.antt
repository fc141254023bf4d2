-- ===== src/Batch/Merge.antt =====
-- The entries of `mergeStreams` (internal/storage/loki/batch.go) and their order.
use mathlib.Core.List.{Perm, perm_append_comm, map-append}
use mathlib.Core.List.Perm
use mathlib.Core.Path.{subst}
use alertsnitch.Base.{
  inl, inr, List, [], ◌∷◌, ◌++◌, append_assoc, append-nil, map, String, Labels, All, Option-cases,
}
use alertsnitch.Base.Maps.{lookup}
use alertsnitch.Base.Maps.Gather.{gather, gather-insert_new, gather-insert_more}
use alertsnitch.Timestamps.{Stream}
use alertsnitch.Timestamps.Order.{
  Increasing, payload, ensure_monotonic-Increasing, ensure_monotonic-perm,
}
use alertsnitch.Stream.Build.{entries}
use alertsnitch.Batch.{
  ConvertedGroup, merge_stream, merge_group, merge_groups, normalize, merge_streams,
}

abbrev carried_by : Stream → List (String × Labels)
carried_by s = map payload s.values

-- What the entries of the groups carry, group by group.
abbrev pub all_entries : List ConvertedGroup → List (String × Labels)
all_entries [] = []
all_entries (g ∷ groups) = entries g.streams ++ all_entries groups

merge_stream-perm :
    (key : String) (s : Stream) (m : List (String × Stream))
    → Perm (gather carried_by (merge_stream key s m)) (carried_by s ++ gather carried_by m)
unfolding merge_stream
merge_stream-perm key s m = elim (Option-cases (lookup key m)) [
  | inl e ↦ rw (e, merge_stream) (gather-insert_new carried_by key s m e)
  | inr (old, e) ↦
      rw (e, merge_stream)
        (gather-insert_more carried_by key old _ (carried_by s) m e
          (rw map-append (perm_append_comm (carried_by old) (carried_by s))))
]

module _ (key : Labels → String) where
  merge_group-perm :
      (streams : List Stream) (m : List (String × Stream))
      → Perm
          (gather carried_by (merge_group key streams m))
          (entries streams ++ gather carried_by m)
  unfolding merge_group
  merge_group-perm [] m = Perm.refl _
  merge_group-perm (s ∷ streams) m =
      Perm.trans (merge_group-perm streams (merge_stream (key s.labels) s m)) (
        Perm.trans
          (Perm.append (Perm.refl (entries streams)) (merge_stream-perm (key s.labels) s m))
          (subst (λ l. Perm l ((carried_by s ++ entries streams) ++ gather carried_by m))
            (append_assoc (entries streams) (carried_by s) (gather carried_by m))
            (Perm.append (perm_append_comm (entries streams) (carried_by s)) (Perm.refl _))))

  merge_groups-perm :
      (groups : List ConvertedGroup) (m : List (String × Stream))
      → Perm
          (gather carried_by (merge_groups key groups m))
          (all_entries groups ++ gather carried_by m)
  unfolding merge_groups
  merge_groups-perm [] m = Perm.refl _
  merge_groups-perm (g ∷ groups) m =
      Perm.trans (merge_groups-perm groups (merge_group key g.streams m)) (
        Perm.trans (Perm.append (Perm.refl (all_entries groups)) (merge_group-perm g.streams m)) (
          subst (λ l. Perm l ((entries g.streams ++ all_entries groups) ++ gather carried_by m))
            (append_assoc (all_entries groups) (entries g.streams) (gather carried_by m))
            (Perm.append (perm_append_comm (all_entries groups) (entries g.streams))
              (Perm.refl _))))

normalize-perm : (m : List (String × Stream)) → Perm (entries (normalize m)) (gather carried_by m)
unfolding normalize
normalize-perm [] = Perm.refl []
normalize-perm ((key, s) ∷ m) = Perm.append (ensure_monotonic-perm s.values) (normalize-perm m)

normalize-Increasing : (m : List (String × Stream)) → All (λ s. Increasing s.values) (normalize m)
unfolding normalize
normalize-Increasing [] = tt
normalize-Increasing ((key, s) ∷ m) = (ensure_monotonic-Increasing s.values, normalize-Increasing m)

-- Whatever the keys of the label sets, also where the keys of two sets are the same, a merge keeps
-- every entry of every group, once, and each merged stream is strictly increasing in time.
pub merge_streams-keeps :
    (key : Labels → String) (groups : List ConvertedGroup)
    → Perm (entries (merge_streams key groups)) (all_entries groups)
      × All (λ s. Increasing s.values) (merge_streams key groups)
unfolding merge_streams
merge_streams-keeps key groups = (
  Perm.trans (normalize-perm (merge_groups key groups [])) (
      subst (Perm (gather carried_by (merge_groups key groups [])))
        (append-nil (all_entries groups)) (merge_groups-perm key groups [])),
  normalize-Increasing (merge_groups key groups []),
)
