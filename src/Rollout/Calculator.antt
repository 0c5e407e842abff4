-- ===== src/Rollout/Calculator.antt =====
-- engine/internal/manager/application/replica_calculator.go
pub mod Shares
pub mod Equal
pub mod Keys
pub mod Modes
pub mod Overshoot
use kumquat.Base.{
  ℕ, zero, suc, ◌+◌, ◌/◌, ◌%◌, String, Bool, List, [], ◌∷◌, Option, none, some, Map, ℤ, pos, ltb,
  ltb_ℤ, eqb_ℤ, add32, sub32, ◌*ℤ◌, ◌/ℤ◌, lookup_or, insert, length, is_nil, to_int32,
  if◌then◌else◌,
}
use kumquat.Api.{ClusterTopology}
use kumquat.Api.Floats.{Floats, ceil_share}

pub record ClusterReplicaAssignment : Type 0 where
  pub cluster_name : String
  pub total_replicas : ℤ
  pub canary_replicas : ℤ
  pub stable_replicas : ℤ
  pub cluster_index : ℕ

pub record ClusterReplicaWeight : Type 0 where
  pub cluster_name : String
  pub weight : ℤ

pub data DistributionMode : Type 0 where
  equal weighted sequential : DistributionMode
  other_mode : String → DistributionMode

pub record GlobalReplicaDistribution : Type 0 where
  pub mode : DistributionMode
  pub cluster_weights : List ClusterReplicaWeight

pub data Calculated : Type 0 where
  assigned : Map ClusterReplicaAssignment → Calculated
  empty_topology : Calculated
  unknown_mode : String → Calculated

-- "Cap at cluster's total replicas"
pub cap_at : ℤ → ℤ → ℤ
cap_at canary replicas = if ltb_ℤ replicas canary then replicas else canary

abbrev pub assignment : ClusterTopology → ℤ → ℕ → ClusterReplicaAssignment
assignment t canary i = record {
  cluster_name = t.name;
  total_replicas = t.replicas;
  canary_replicas = canary;
  stable_replicas = sub32 t.replicas canary;
  cluster_index = i;
}

sum_replicas : List ClusterTopology → ℤ → ℤ
sum_replicas [] total = total
sum_replicas (t ∷ ts) total = sum_replicas ts (add32 total t.replicas)

-- The loop of calculateProportional and calculateWeighted: `share` is a cluster's rounded share,
-- and the last cluster gets what remains.
pub share_out :
    (ClusterTopology → ℤ)
    → ℕ
    → ℤ
    → List ClusterTopology
    → Map ClusterReplicaAssignment
    → Map ClusterReplicaAssignment
share_out share i remaining [] result = result
share_out share i remaining (t ∷ ts) result =
    let canary = cap_at (if is_nil ts then remaining else share t) t.replicas in
    share_out share (suc i) (sub32 remaining canary) ts
      (insert t.name (assignment t canary i) result)

pub equal_out :
    ℤ → ℤ → ℕ → List ClusterTopology → Map ClusterReplicaAssignment → Map ClusterReplicaAssignment
equal_out per_cluster remaining i [] result = result
equal_out per_cluster remaining i (t ∷ ts) result =
    let more = if ltb_ℤ (pos i) remaining then add32 per_cluster (pos 1) else per_cluster in
    equal_out per_cluster remaining (suc i) ts
      (insert t.name (assignment t (cap_at more t.replicas) i) result)

-- Go's `%` on signed integers, which takes the sign of the dividend.
abbrev pub rem32 : ℤ → ℤ → ℤ
rem32 a b = sub32 a (to_int32 ((a /ℤ b) *ℤ b))

pub calculate_equal : ℤ → List ClusterTopology → Map ClusterReplicaAssignment
calculate_equal canary topology =
    let n = to_int32 (pos (length topology)) in
    equal_out (to_int32 (canary /ℤ n)) (rem32 canary n) 0 topology []

set_weights : List ClusterReplicaWeight → Map ℤ → Map ℤ
set_weights [] weights = weights
set_weights (w ∷ ws) weights = set_weights ws (insert w.cluster_name w.weight weights)

sum_weights : List ClusterReplicaWeight → ℤ → ℤ
sum_weights [] total = total
sum_weights (w ∷ ws) total = sum_weights ws (add32 total w.weight)

pub sequential_out :
    ℤ → ℕ → List ClusterTopology → Map ClusterReplicaAssignment → Map ClusterReplicaAssignment
sequential_out canary i [] result = result
sequential_out canary zero (t ∷ ts) result =
    sequential_out canary 1 ts (insert t.name (assignment t (cap_at canary t.replicas) 0) result)
sequential_out canary (suc i) (t ∷ ts) result = sequential_out canary (suc (suc i)) ts (
    insert t.name
      (record {
        cluster_name = t.name;
        total_replicas = t.replicas;
        canary_replicas = pos 0;
        stable_replicas = t.replicas;
        cluster_index = suc i;
      })
      result)

pub calculate_sequential : ℤ → List ClusterTopology → Map ClusterReplicaAssignment
calculate_sequential canary topology = sequential_out canary 0 topology []

module _ (f : Floats) where
  pub calculate_proportional : ℤ → List ClusterTopology → Map ClusterReplicaAssignment
  calculate_proportional canary topology =
      let total = sum_replicas topology (pos 0) in
      share_out (λ t. ceil_share f canary t.replicas total) 0 canary topology []

  pub calculate_weighted :
      ℤ → List ClusterTopology → List ClusterReplicaWeight → Map ClusterReplicaAssignment
  calculate_weighted canary topology weights =
      let by_name = set_weights weights [] in
      let total = sum_weights weights (pos 0) in
      if eqb_ℤ total (pos 0)
      then calculate_equal canary topology
      else share_out (λ t. ceil_share f canary (lookup_or (pos 0) t.name by_name) total) 0 canary
          topology []

  pub by_mode : GlobalReplicaDistribution → DistributionMode → ℤ → List ClusterTopology → Calculated
  by_mode d equal canary topology = assigned (calculate_equal canary topology)
  by_mode d weighted canary topology =
      assigned (calculate_weighted canary topology d.cluster_weights)
  by_mode d sequential canary topology = assigned (calculate_sequential canary topology)
  by_mode d (other_mode mode) canary topology = unknown_mode mode

  pub calculate_replicas :
      ℤ → ℤ → List ClusterTopology → Option GlobalReplicaDistribution → Calculated
  calculate_replicas percent total topology distribution =
      let canary = ceil_share f total percent (pos 100) in
      if is_nil topology then empty_topology else (elim distribution [
        | none ↦ assigned (calculate_proportional canary topology)
        | some d ↦ by_mode d d.mode canary topology
      ])

sum_canaries : Map ClusterReplicaAssignment → ℤ → ℤ
sum_canaries [] total = total
sum_canaries ((name, a) ∷ m) total = sum_canaries m (add32 total a.canary_replicas)

-- int32(float64(updated) * 100.0 / float64(total))
pub calculate_global_progress : Floats → Map ClusterReplicaAssignment → ℤ → ℤ
unfolding sum_canaries
calculate_global_progress f assignments total =
    if eqb_ℤ total (pos 0)
    then pos 0
    else f.to_int (
        f.div (f.mul (f.of_int (sum_canaries assignments (pos 0))) (f.of_int (pos 100)))
          (f.of_int total))
