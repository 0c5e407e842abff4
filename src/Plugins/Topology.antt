-- ===== src/Plugins/Topology.antt =====
-- engine/internal/manager/scheduler/plugins/topology/topology.go
use kumquat.Base.{
  String, List, [], ◌∷◌, none, some, Map, ℤ, pos, eqb_ℤ, add32, sub64, mul64, div64, lookup,
  lookup_or, insert, if◌then◌else◌,
}
use kumquat.Api.{Application, ManagedCluster, ClusterTopology}
use kumquat.Framework.{
  CycleState, distribution, other_value, Status, ScorePlugin, ok, read, write, max_score,
  map_values,
}

abbrev topology_distribution_key : String
topology_distribution_key = "TopologyDistribution"

module _ {Q : Type 0} where
  pub score : String → CycleState → Application → ManagedCluster Q → ℤ × Status
  score key state app cluster = elim (lookup key cluster.labels) [
    | none ↦ (pos 50, ok)
    | some value ↦ elim (read state topology_distribution_key) [
      | none ↦ (pos 50, ok)
      | some (distribution dist) ↦ (lookup_or (pos 0) value dist, ok)
      | some other_value ↦ (pos 50, ok)
    ]
  ]

  -- cluster name → topology domain
  pub cluster_topology : String → List (ManagedCluster Q) → Map String → Map String
  cluster_topology key [] acc = acc
  cluster_topology key (c ∷ cs) acc =
      cluster_topology key cs
        (elim (lookup key c.labels) [ none ↦ acc | some value ↦ insert c.name value acc ])

pub count_placements : Map String → List ClusterTopology → Map ℤ → Map ℤ
count_placements domains [] dist = dist
count_placements domains (p ∷ ps) dist = count_placements domains ps (elim (lookup p.name domains) [
  | none ↦ dist
  | some domain ↦ insert domain (add32 (lookup_or (pos 0) domain dist) p.replicas) dist
])

pub update_topology_distribution :
    {Q : Type 0} → CycleState → List (ManagedCluster Q) → List ClusterTopology → String → CycleState
update_topology_distribution state clusters placements key =
    write state topology_distribution_key
      (distribution (count_placements (cluster_topology key clusters []) placements []))

unfoldable pub normalize_score : Map ℤ → Map ℤ × Status
normalize_score scores =
    let most = max_score (pos 0) scores in
    if eqb_ℤ most (pos 0)
    then (map_values (λ s. pos 100) scores, ok)
    else (map_values (λ s. div64 (mul64 (sub64 most s) (pos 100)) most) scores, ok)

pub score_plugin : {Q : Type 0} → String → ScorePlugin Q
score_plugin key = record {
  name = "TopologySpread";
  score = score key;
  normalize_score = some normalize_score;
}
