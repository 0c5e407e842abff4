-- ===== src/Plugins/Capacity.antt =====
-- engine/internal/manager/scheduler/plugins/capacity/capacity.go
pub mod Bounds
use kumquat.Base.{
  ℕ, zero, suc, String, Bool, not, [], ◌∷◌, Option, none, some, ℤ, pos, ltb_ℤ, eqb_ℤ, div64,
  lookup_or, if◌then◌else◌,
}
use kumquat.Api.{Application, ManagedCluster, Resources, ResourceList}
use kumquat.Cache.Requests.{calculate_pod_resources}
use kumquat.Framework.{CycleState, Status, FilterPlugin, ok, deny}

abbrev pub max_int64 : ℤ
max_int64 = pos 9223372036854775807

module _ (r : Resources) where
  open r use {Quantity, none_of, add, sub, less, value, milli_value}

  -- The loop adds the requirement once for each replica after the first.
  times : ℕ → Quantity → Quantity → Quantity
  times zero one total = total
  times (suc n) one total = times n one (add total one)

  -- `more` is the number of replicas after the first.
  pub fits_with_replicas :
      ResourceList Quantity → ResourceList Quantity → ResourceList Quantity → String → ℕ → Bool
  unfolding times
  fits_with_replicas allocatable allocated required name more =
      let one = lookup_or none_of name required in
      not (
        less (sub (lookup_or none_of name allocatable) (lookup_or none_of name allocated))
          (times more one one))

  pub filter : CycleState → Application → ManagedCluster Quantity → Status
  filter state app cluster = elim (calculate_pod_resources r app) [
    | none ↦ ok
    | some required ↦ elim cluster.resource_summary [
      | [] ↦ deny "cluster resource summary missing"
      | summary ∷ rest ↦
          let fits = λ (name : String).
            fits_with_replicas summary.allocatable summary.allocated required name 0 in
          if not (fits "cpu")
          then deny "insufficient cpu for single replica"
          else (if not (fits "memory") then deny "insufficient memory for single replica" else ok)
    ]
  ]

  pub filter_plugin : FilterPlugin Quantity
  filter_plugin = record { name = "Capacity"; filter = filter }

  -- The loop over the requests; `none` is its early return of 0.
  pub least_count :
      ResourceList Quantity → ResourceList Quantity → ResourceList Quantity → ℤ → Option ℤ
  least_count allocatable allocated [] least = some least
  least_count allocatable allocated ((name, req) ∷ reqs) least =
      let avail = sub (lookup_or none_of name allocatable) (lookup_or none_of name allocated) in
      let count = div64 (milli_value avail) (milli_value req) in
      let rest = least_count allocatable allocated reqs (
        if eqb_ℤ (milli_value req) (pos 0)
        then least
        else (if ltb_ℤ count least then count else least)) in
      if not (ltb_ℤ (pos 0) (value avail)) then none else rest

  pub calculate_max_replicas : ManagedCluster Quantity → Application → ℤ
  unfolding least_count
  calculate_max_replicas cluster app = elim (calculate_pod_resources r app) [
    | none ↦ max_int64
    | some [] ↦ max_int64
    | some (req ∷ reqs) ↦ elim cluster.resource_summary [
      | [] ↦ pos 0
      | summary ∷ rest ↦
          elim (least_count summary.allocatable summary.allocated (req ∷ reqs) max_int64) [
            | none ↦ pos 0
            | some least ↦ if eqb_ℤ least max_int64 then pos 0 else least
          ]
    ]
  ]
