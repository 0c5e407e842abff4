-- ===== src/Scheduler/Spread.antt =====
-- selectClustersSpread of engine/internal/manager/scheduler/scheduler.go.
pub mod Candidates
pub mod Quotas
pub mod Sums
pub mod Current
pub mod Grow
pub mod Lower
pub mod Shrink
use Prim.Native.String.{compare}
use text.Mathlib.Text.{is_lt}
use kumquat.Base.{
  Bool, List, [], ◌∷◌, Option, none, some, Map, ℤ, pos, ltb_ℤ, length, if◌then◌else◌,
}
use kumquat.Api.{Application, ClusterTopology}
use kumquat.Api.Floats.{Floats}
use kumquat.Framework.{SpreadConstraints}
use kumquat.Scheduler.Slices.{Slices}
use kumquat.Scheduler.Waterfill.{desired_replicas, placement_map, placement_total}
use kumquat.Scheduler.Spread.Candidates.{
  ClusterScore, cluster_scores, better_score, max_clusters_for, used_candidates, add_best, weigh,
}
use kumquat.Scheduler.Spread.Quotas.{Allocation, allocations, grow_quotas, shrink_quotas}

abbrev pub by_name : ClusterTopology → ClusterTopology → Bool
by_name a b = is_lt (compare a.name b.name)

unfoldable pub positive_quotas : {Float : Type 0} → List (Allocation Float) → List ClusterTopology
positive_quotas [] = []
positive_quotas (a ∷ allocs) =
    let rest = positive_quotas allocs in
    if ltb_ℤ (pos 0) a.quota then record { name = a.name; replicas = a.quota } ∷ rest else rest

module _ (f : Floats) (s : Slices) (constraints : SpreadConstraints) where
  unfoldable pub spread_candidates : Map ℤ → Map ℤ → ℤ → List ClusterScore
  spread_candidates scores current total =
      let scored = s.sort better_score (cluster_scores scores) in
      add_best (max_clusters_for constraints (length scored) total) scored
        (used_candidates scores current)

  -- The allocations of the candidates, before quotas are calculated, and the total weight.
  unfoldable pub spread_allocations : Application → Map ℤ → List (Allocation f.Float) × f.Float
  spread_allocations app scores =
      let current = placement_map app.topology [] in
      let list = spread_candidates scores current (desired_replicas app) in
      let (weights, total_weight) = weigh f list in
      (allocations f weights current list, total_weight)

  -- The two branches.
  unfoldable pub spread_quotas :
      ℤ → ℤ → f.Float → List (Allocation f.Float) → Option (List (Allocation f.Float))
  spread_quotas total current_total total_weight allocs =
      if ltb_ℤ current_total total
      then grow_quotas f s total total_weight allocs
      else shrink_quotas f s total current_total total_weight allocs

  -- The positive quotas, by name.
  abbrev pub build_result : Option (List (Allocation f.Float)) → Option (List ClusterTopology)
  build_result none = none
  build_result (some allocs) = some (s.sort by_name (positive_quotas allocs))

  -- `none` is a panic.
  unfoldable pub select_clusters_spread : Application → Map ℤ → Option (List ClusterTopology)
  select_clusters_spread app scores =
      let (allocs, total_weight) = spread_allocations app scores in
      let current_total = placement_total app.topology (pos 0) in
      build_result (spread_quotas (desired_replicas app) current_total total_weight allocs)
