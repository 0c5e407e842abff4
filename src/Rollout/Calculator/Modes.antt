-- ===== src/Rollout/Calculator/Modes.antt =====
-- What CalculateReplicas of application/replica_calculator.go answers, in each mode.
use kumquat.Base.{
  ◌≡◌, List, [], Option, none, some, ℤ, pos, neg_part, eqb_ℤ, refl, false, true, to_int32,
  to_int32-IsInt32, IsInt32, ◌/ℤ◌, length, is_nil, All, Bool-cases, inl, inr,
}
use kumquat.Api.{ClusterTopology}
use kumquat.Api.Floats.{Floats}
use kumquat.Rollout.Calculator.{
  DistributionMode, equal, weighted, sequential, other_mode, GlobalReplicaDistribution, Calculated,
  assigned, ClusterReplicaWeight, empty_topology, unknown_mode, calculate_equal,
  calculate_sequential, calculate_proportional, calculate_weighted, sum_weights, by_mode,
  calculate_replicas,
}
use kumquat.Rollout.Calculator.Keys.{
  CoversAll, calculate_equal-CoversAll, calculate_sequential-CoversAll,
  calculate_proportional-CoversAll, calculate_weighted-CoversAll,
}
use kumquat.Rollout.Calculator.Shares.{
  AreSplit, all_listed, share_out-AreSplit, equal_out-AreSplit, sequential_out-AreSplit,
}

-- The assignments are those of the topology's clusters, each of them among them. An error says what
-- is wrong with the input.
abbrev pub IsCalculated :
    List ClusterTopology → Option GlobalReplicaDistribution → Calculated → Type 0
IsCalculated topology distribution (assigned m) =
    (is_nil topology ≡ false) × CoversAll topology m × AreSplit topology m
IsCalculated topology distribution empty_topology = is_nil topology ≡ true
IsCalculated topology none (unknown_mode mode) = ⊥
IsCalculated topology (some d) (unknown_mode mode) = d.mode ≡ other_mode mode

module _ (f : Floats) (rounds : (x : f.Float) → IsInt32 (f.to_int x)) (ts : List ClusterTopology)
    (small : All (λ t. IsInt32 t.replicas) ts)
    (natural : All (λ t. neg_part t.replicas ≡ 0) ts) where
  equal-AreSplit : (canary : ℤ) → AreSplit ts (calculate_equal canary ts)
  unfolding calculate_equal
  equal-AreSplit canary =
      equal_out-AreSplit ts _ _ 0 ts [] (to_int32-IsInt32 (canary /ℤ to_int32 (pos (length ts))))
        (all_listed ts) small tt

  proportional-AreSplit :
      (canary : ℤ) → IsInt32 canary → AreSplit ts (calculate_proportional f canary ts)
  unfolding calculate_proportional
  proportional-AreSplit canary h =
      share_out-AreSplit ts _ 0 canary ts [] (λ t. rounds _) h (all_listed ts) small tt

  weighted-AreSplit :
      (canary : ℤ) (weights : List ClusterReplicaWeight)
      → IsInt32 canary
      → AreSplit ts (calculate_weighted f canary ts weights)
  unfolding calculate_weighted
  weighted-AreSplit canary weights h =
      elim (Bool-cases (eqb_ℤ (sum_weights weights (pos 0)) (pos 0))) [
        | inl e ↦ rw e (equal-AreSplit canary)
        | inr e ↦
            rw e (share_out-AreSplit ts _ 0 canary ts [] (λ t. rounds _) h (all_listed ts) small tt)
      ]

  sequential-AreSplit : (canary : ℤ) → IsInt32 canary → AreSplit ts (calculate_sequential canary ts)
  unfolding calculate_sequential
  sequential-AreSplit canary h =
      sequential_out-AreSplit ts canary 0 ts [] h (all_listed ts) small natural tt

  by_mode-IsCalculated :
      (d : GlobalReplicaDistribution) (mode : DistributionMode) (canary : ℤ)
      → is_nil ts ≡ false
      → d.mode ≡ mode
      → IsInt32 canary
      → IsCalculated ts (some d) (by_mode f d mode canary ts)
  unfolding by_mode
  by_mode-IsCalculated d equal canary full e h =
      (full, calculate_equal-CoversAll canary ts, equal-AreSplit canary)
  by_mode-IsCalculated d weighted canary full e h = (
    full,
    calculate_weighted-CoversAll f canary ts d.cluster_weights,
    weighted-AreSplit canary d.cluster_weights h,
  )
  by_mode-IsCalculated d sequential canary full e h =
      (full, calculate_sequential-CoversAll canary ts, sequential-AreSplit canary h)
  by_mode-IsCalculated d (other_mode mode) canary full e h = e

  by_distribution :
      (canary : ℤ) (distribution : Option GlobalReplicaDistribution)
      → is_nil ts ≡ false
      → IsInt32 canary
      → IsCalculated ts distribution (elim distribution [
        | none ↦ assigned (calculate_proportional f canary ts)
        | some d ↦ by_mode f d d.mode canary ts
      ])
  by_distribution canary none full h =
      (full, calculate_proportional-CoversAll f canary ts, proportional-AreSplit canary h)
  by_distribution canary (some d) full h = by_mode-IsCalculated d d.mode canary full refl h

  -- CalculateReplicas gives an error only for an empty topology or an unknown mode. Otherwise, in every
  -- mode, it assigns replicas to exactly the clusters of the topology: each entry has the name and the
  -- total of a cluster of the topology, at most as many canary replicas as that cluster has
  -- replicas, and canary and stable replicas that add up to the cluster's, where the clusters
  -- have natural int32 numbers of replicas and a conversion to int32 gives an int32.
  pub calculate_replicas-IsCalculated :
      (percent total : ℤ) (distribution : Option GlobalReplicaDistribution)
      → IsCalculated ts distribution (calculate_replicas f percent total ts distribution)
  unfolding calculate_replicas
  calculate_replicas-IsCalculated percent total distribution = elim (Bool-cases (is_nil ts)) [
    | inl e ↦ rw e e
    | inr e ↦ rw e (by_distribution _ distribution e (rounds _))
  ]
