-- ===== src/Plugins/Resource.antt =====
-- engine/internal/manager/scheduler/plugins/resource/resource.go
use kumquat.Base.{
  String, [], ◌∷◌, some, Map, ℤ, pos, ltb_ℤ, eqb_ℤ, add64, mul64, div64, lookup_or, ◌=ˢ◌,
  if◌then◌else◌, ◌||◌,
}
use kumquat.Api.{Application, ManagedCluster, Resources, ResourceList}
use kumquat.Framework.{CycleState, Status, ScorePlugin, ok, map_values}

-- The body of NormalizeScore's loop.
unfoldable pub clamp : ℤ → ℤ
clamp s = if ltb_ℤ (pos 100) s then pos 100 else (if ltb_ℤ s (pos 0) then pos 0 else s)

unfoldable pub normalize_score : Map ℤ → Map ℤ × Status
normalize_score scores = (map_values clamp scores, ok)

module _ (r : Resources) where
  open r use {Quantity, none_of, sub, is_zero, milli_value}

  pub least_allocated_score : ResourceList Quantity → ResourceList Quantity → String → ℤ
  least_allocated_score allocatable allocated name =
      let capacity = lookup_or none_of name allocatable in
      let used = lookup_or none_of name allocated in
      if is_zero capacity || eqb_ℤ (milli_value capacity) (pos 0)
      then pos 0
      else div64 (mul64 (milli_value (sub capacity used)) (pos 100)) (milli_value capacity)

  pub most_allocated_score : ResourceList Quantity → ResourceList Quantity → String → ℤ
  most_allocated_score allocatable allocated name =
      let capacity = lookup_or none_of name allocatable in
      let used = lookup_or none_of name allocated in
      if is_zero capacity || eqb_ℤ (milli_value capacity) (pos 0)
      then pos 0
      else div64 (mul64 (milli_value used) (pos 100)) (milli_value capacity)

  pub score : String → CycleState → Application → ManagedCluster Quantity → ℤ × Status
  unfolding least_allocated_score most_allocated_score
  score strategy state app cluster = elim cluster.resource_summary [
    | [] ↦ (pos 0, ok)
    | summary ∷ rest ↦
        let by =
          if strategy =ˢ "MostAllocated" then most_allocated_score else least_allocated_score in
        let cpu = by summary.allocatable summary.allocated "cpu" in
        let mem = by summary.allocatable summary.allocated "memory" in
        (div64 (add64 cpu mem) (pos 2), ok)
  ]

  pub score_plugin : String → ScorePlugin Quantity
  score_plugin strategy = record {
    name = "Resource";
    score = score strategy;
    normalize_score = some normalize_score;
  }
