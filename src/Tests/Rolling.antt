-- ===== src/Tests/Rolling.antt =====
-- Tests of the replica calculator and of the status of a rollout.
use kumquat.Base.{
  String, Option, true, ℤ, ◌&&◌, ◌=ˢ◌, if◌then◌else◌, ◌+◌, ◌-◌, ◌*◌, ◌/◌, ◌≡◌, refl, List, [], ◌∷◌,
  none, some, pos, negsuc, lookup, All, arith, contains, to_int32_exact, to_int32-IsInt32,
  IsDistinct,
}
use native.Mathlib.Nat.{mul-one, one-mul, div-one}
use kumquat.Api.{ClusterTopology}
use kumquat.Api.Floats.{IsCeiling}
use kumquat.Rollout.Calculator.{
  calculate_equal, calculate_proportional, calculate_replicas, assignment,
}
use kumquat.Rollout.Calculator.Modes.{IsCalculated, calculate_replicas-IsCalculated}
use kumquat.Rollout.Calculator.Equal.{
  canaries, cluster_names, IsEven, calculate_equal_sum, calculate_equal-IsEven,
}
use kumquat.Rollout.Calculator.Overshoot.{cluster, three, proportional_overshoot}
use kumquat.Rollout.Reports.{
  RolloutReading, TrackedStatus, aggregate_rollout_status, tracked, answered,
  tracked-aggregate_rollout_status,
}
use kumquat.Tests.Samples.{fractions, sized}

abbrev two_clusters : List ClusterTopology
two_clusters = sized "east" 4 ∷ sized "west" 6 ∷ []

two_clusters-IsDistinct : IsDistinct (cluster_names two_clusters)
unfolding contains
two_clusters-IsDistinct = (refl, (refl, tt))

calculate_replicas-IsCalculated_example :
    IsCalculated two_clusters none
      (calculate_replicas fractions (pos 30) (pos 10) two_clusters none)
calculate_replicas-IsCalculated_example =
    calculate_replicas-IsCalculated fractions (λ x. to_int32-IsInt32 (pos (x.0 / x.1))) two_clusters
      (ground arith) (ground arith) (pos 30) (pos 10) none

calculate_equal_sum_example : canaries (calculate_equal (pos 5) two_clusters) ≡ 5
calculate_equal_sum_example =
    calculate_equal_sum 5 two_clusters (omega arith) (omega arith) (omega arith) (ground arith)
      two_clusters-IsDistinct

calculate_equal-IsEven_example : All (λ e. IsEven 2 e.1) (calculate_equal (pos 5) two_clusters)
calculate_equal-IsEven_example =
    calculate_equal-IsEven 5 two_clusters (omega arith) (omega arith) (omega arith) (ground arith)

fractions-IsCeiling : IsCeiling fractions
fractions-IsCeiling a b c h some_c small_c k =
    rw (mul-one (a * b), one-mul c, div-one ((a * b + c - 1) / c))
      (to_int32_exact (pos ((a * b + c - 1) / c)) (k, omega arith))

proportional_overshoot_example :
    lookup "c" (calculate_proportional fractions (pos 1) (three "a" "b" "c" 5))
    ≡ some (assignment (cluster "c" 5) (negsuc 0) 2)
proportional_overshoot_example =
    proportional_overshoot fractions fractions-IsCeiling "a" "b" "c" 5 (omega arith) (omega arith)

abbrev in_step : RolloutReading
in_step = record {
  found_phase = some "Progressing";
  found_message = none;
  current_step_index = some (pos 1);
  found_step_weight = some (pos 20);
  found_stable = some (pos 8);
  found_canary = some (pos 2);
  found_updated = none;
  found_ready = none;
}

-- Only one cluster answers.
abbrev west_answers : String → Option RolloutReading
west_answers name = if name =ˢ "west" then some in_step else none

-- Of the other fields, the replicas.
abbrev known_statuses : List (TrackedStatus ℤ)
known_statuses =
    record { cluster_name = "east"; rollout = none; rest = pos 4 }
    ∷ record { cluster_name = "west"; rollout = none; rest = pos 6 }
    ∷ []

tracked-aggregate_rollout_status_example :
    tracked
      (pos 0)
      "west"
      (aggregate_rollout_status (pos 0) true west_answers ("east" ∷ "west" ∷ []) known_statuses)
    ≡ answered
        (pos 0)
        (true && contains "west" ("east" ∷ "west" ∷ []))
        (west_answers "west")
        (tracked (pos 0) "west" known_statuses)
tracked-aggregate_rollout_status_example =
    tracked-aggregate_rollout_status (pos 0) true west_answers "west" ("east" ∷ "west" ∷ [])
      known_statuses
