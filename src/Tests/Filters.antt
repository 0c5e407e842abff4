-- ===== src/Tests/Filters.antt =====
-- Tests of the plugins.
use kumquat.Base.{
  ◌-ℤ◌, ◌≡◌, refl, ◌≤ℤ◌, [], ◌∷◌, some, ℤ, pos, all, inl, lookup_or, lookup, insert, arith,
}
use kumquat.Api.{ManagedCluster, ResourceList}
use kumquat.Framework.{new_cycle_state, is_success}
use kumquat.Cache.Requests.{calculate_pod_resources}
use kumquat.Plugins.Taint
use kumquat.Plugins.Health
use kumquat.Plugins.Health.Conditions.{is_fine, health_filter_iff}
use kumquat.Plugins.Capacity.{calculate_max_replicas}
use kumquat.Plugins.Capacity.Bounds.{calculate_max_replicas_bound}
use kumquat.Tests.Samples.{whole_units, in_zone, stateful_app}

abbrev tainted : ManagedCluster ℤ
tainted = record (in_zone "east" "a") {
  taints = record { key = "gpu"; value = "yes"; effect = "NoSchedule" } ∷ [];
  conditions =
      record { type = "Ready"; status = "True" }
      ∷ record { type = "Reachable"; status = "Unknown" }
      ∷ [];
}

health_filter_iff_example :
    is_success (Health.filter new_cycle_state (stateful_app 3 []) tainted)
    ≡ all is_fine tainted.conditions
health_filter_iff_example = health_filter_iff new_cycle_state (stateful_app 3 []) tainted

abbrev requested : ResourceList ℤ
requested = ("cpu", pos 2) ∷ ("memory", pos 2) ∷ []

sample_requests : calculate_pod_resources whole_units (stateful_app 3 []) ≡ some requested
unfolding calculate_pod_resources lookup insert
sample_requests = refl

calculate_max_replicas_bound_example :
    calculate_max_replicas whole_units (in_zone "east" "a") (stateful_app 3 []) ≤ℤ pos 5
unfolding lookup_or ◌-ℤ◌
calculate_max_replicas_bound_example =
    calculate_max_replicas_bound whole_units (in_zone "east" "a") (stateful_app 3 [])
      (record {
        name = "default";
        allocatable = ("cpu", pos 10) ∷ ("memory", pos 10) ∷ [];
        allocating = [];
        allocated = [];
      })
      [] requested "cpu" (pos 2) 10 1 sample_requests refl (inl refl) refl refl (omega arith)
