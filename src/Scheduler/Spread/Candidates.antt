-- ===== src/Scheduler/Spread/Candidates.antt =====
-- The candidates of selectClustersSpread and their weights,
-- engine/internal/manager/scheduler/scheduler.go.
use text.Mathlib.Text.{is_lt}
use Prim.Native.String.{compare}
use kumquat.Base.{
  ℕ, String, Bool, List, [], ◌∷◌, ◌++◌, Map, ℤ, pos, ltb_ℤ, eqb_ℤ, ◌/ℤ◌, lookup_or, insert, any,
  length, ◌=ˢ◌, if◌then◌else◌,
}
use kumquat.Api.Floats.{Floats}
use kumquat.Framework.{SpreadConstraints}

pub record ClusterScore : Type 0 where
  pub name : String
  pub score : ℤ

unfoldable pub cluster_scores : Map ℤ → List ClusterScore
cluster_scores [] = []
cluster_scores ((name, score) ∷ scores) =
    record { name = name; score = score } ∷ cluster_scores scores

-- Score descending, then the name.
abbrev pub better_score : ClusterScore → ClusterScore → Bool
better_score a b =
    if eqb_ℤ a.score b.score then is_lt (compare a.name b.name) else ltb_ℤ b.score a.score

abbrev min_ℤ : ℤ → ℤ → ℤ
min_ℤ a b = if ltb_ℤ b a then b else a

-- if x <= 0 { x = default }
abbrev or_default : ℤ → ℤ → ℤ
or_default default x = if ltb_ℤ (pos 0) x then x else default

-- maxClusters, after all its adjustments
unfoldable pub max_clusters_for : SpreadConstraints → ℕ → ℤ → ℤ
max_clusters_for constraints count total =
    let usable = total /ℤ or_default (pos 1) constraints.min_replicas in
    min_ℤ (min_ℤ (or_default (pos 5) constraints.max_clusters) (pos count))
      (if ltb_ℤ usable (pos 1) then pos 1 else usable)

-- The clusters in use.
unfoldable pub used_candidates : Map ℤ → Map ℤ → List ClusterScore
used_candidates scores [] = []
used_candidates scores ((name, replicas) ∷ used) =
    record { name = name; score = lookup_or (pos 0) name scores } ∷ used_candidates scores used

-- candidateMap[name], which holds for the names of candidateList
abbrev pub is_candidate : String → List ClusterScore → Bool
is_candidate name list = any (λ c. c.name =ˢ name) list

-- Fill the remaining slots with the best scored new clusters.
unfoldable pub add_best : ℤ → List ClusterScore → List ClusterScore → List ClusterScore
add_best max_clusters [] list = list
add_best max_clusters (cs ∷ scored) list =
    let skip = add_best max_clusters scored list in
    let take = add_best max_clusters scored (list ++ cs ∷ []) in
    if ltb_ℤ (pos (length list)) max_clusters
    then (if is_candidate cs.name list then skip else take)
    else list

module _ (f : Floats) where
  open f use {Float, of_int, less, equal, to_int, floor}

  -- weights and totalWeight
  unfoldable pub score_weights : List ClusterScore → Map Float → Float → Map Float × Float
  score_weights [] weights total = (weights, total)
  score_weights (cs ∷ list) weights total =
      score_weights list (insert cs.name (of_int cs.score) weights) (f.add total (of_int cs.score))

  unfoldable pub equal_weights : List ClusterScore → Map Float → Map Float
  equal_weights [] weights = weights
  equal_weights (cs ∷ list) weights = equal_weights list (insert cs.name (of_int (pos 1)) weights)

  unfoldable pub weigh : List ClusterScore → Map Float × Float
  unfolding score_weights equal_weights
  weigh list =
      let (weights, total) = score_weights list [] (of_int (pos 0)) in
      if equal total (of_int (pos 0))
      then (equal_weights list weights, of_int (pos (length list)))
      else (weights, total)
