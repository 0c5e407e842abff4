-- ===== src/Plugins/Capacity/Bounds.antt =====
-- The replica capacity of a cluster against each requested resource.
use kumquat.Base.{
  ℕ, suc, ◌/◌, ◌<◌, String, ◌≡◌, sym, ap, not, List, [], ◌∷◌, Option, none, some, ℤ, pos, ◌≤ℤ◌,
  ltb_ℤ, div64-pos, lookup_or, Member, arith, Option-cases, Bool-cases, inl, inr,
}
use kumquat.Api.{Application, ManagedCluster, Resources, ResourceList, ResourceSummary}
use kumquat.Cache.Requests.{calculate_pod_resources}
use kumquat.Plugins.Capacity.{max_int64, least_count, calculate_max_replicas}

module _ (r : Resources) (allocatable allocated : ResourceList r.Quantity) where
  -- What is free of a resource.
  abbrev pub available : String → r.Quantity
  available name = r.sub (lookup_or r.none_of name allocatable) (lookup_or r.none_of name allocated)

  abbrev AtMost : ℤ → Option ℤ → Type 0
  AtMost bound none = Unit
  AtMost bound (some least) = least ≤ℤ bound

  least_count-start :
      (reqs : ResourceList r.Quantity) (least bound : ℤ)
      → least ≤ℤ bound
      → AtMost bound (least_count r allocatable allocated reqs least)
  unfolding least_count
  least_count-start [] least bound h = h
  least_count-start ((name, req) ∷ reqs) least bound h =
      elim (Bool-cases (not (ltb_ℤ (pos 0) (r.value (available name))))) [
        | inl e ↦ rw e tt
        | inr e ↦ rw e (least_count-start reqs _ bound (ground arith))
      ]

  least_count-within :
      (reqs : ResourceList r.Quantity) (least : ℤ) (name : String) (req : r.Quantity)
      (free need : ℕ)
      → Member (name, req) reqs
      → r.milli_value req ≡ pos (suc need)
      → r.milli_value (available name) ≡ pos free
      → free < 9223372036854775808
      → AtMost (pos (free / suc need)) (least_count r allocatable allocated reqs least)
  unfolding least_count
  least_count-within [] least name req free need m needed freed small = elim m [ ]
  least_count-within ((name', req') ∷ reqs) least name req free need m needed freed small =
      elim (Bool-cases (not (ltb_ℤ (pos 0) (r.value (available name'))))) [
        | inl e ↦ rw e tt
        | inr e ↦ rw e (elim m [
          | inl same ↦ least_count-start reqs _ (pos (free / suc need)) (
              rw
                (
                  sym (ap (λ (p : String × r.Quantity). p.0) same),
                  sym (ap (λ (p : String × r.Quantity). p.1) same),
                  needed,
                  freed,
                  div64-pos free (suc need) small,
                )
                (ground arith))
          | inr m' ↦ least_count-within reqs _ name req free need m' needed freed small
        ])
      ]

module _ (r : Resources) where
  -- The replica capacity of a cluster is at most what is free of each requested resource, divided
  -- by what a replica requests of it, both in thousandths, where the cluster has a summary, both
  -- amounts are natural, the request is not zero and the free amount fits an int64.
  pub calculate_max_replicas_bound :
      (cluster : ManagedCluster r.Quantity) (app : Application)
      (summary : ResourceSummary r.Quantity) (more : List (ResourceSummary r.Quantity))
      (reqs : ResourceList r.Quantity) (name : String) (req : r.Quantity) (free need : ℕ)
      (requests : calculate_pod_resources r app ≡ some reqs)
      (summaries : cluster.resource_summary ≡ summary ∷ more) (requested : Member (name, req) reqs)
      (needed : r.milli_value req ≡ pos (suc need))
      (freed : r.milli_value (available r summary.allocatable summary.allocated name) ≡ pos free)
      (small : free < 9223372036854775808)
      → calculate_max_replicas r cluster app ≤ℤ pos (free / suc need)
  unfolding calculate_max_replicas
  calculate_max_replicas_bound cluster app summary more [] name req free need requests summaries
        requested needed freed small =
      elim requested [ ]
  calculate_max_replicas_bound cluster app summary more ((name', req') ∷ reqs) name req free need
        requests summaries requested needed freed small =
      rw (requests, summaries, calculate_max_replicas)
        (let within =
            least_count-within r summary.allocatable summary.allocated ((name', req') ∷ reqs)
              max_int64 name req free need requested needed freed small in
          elim (Option-cases (
            least_count r summary.allocatable summary.allocated ((name', req') ∷ reqs) max_int64)) [
              | inl e ↦ rw e (omega arith)
              | inr (least, e) ↦
                  rw e (let bound : least ≤ℤ pos (free / suc need) = rw e at within in ground arith)
            ])
