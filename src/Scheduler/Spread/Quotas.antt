-- ===== src/Scheduler/Spread/Quotas.antt =====
-- The quotas of selectClustersSpread, engine/internal/manager/scheduler/scheduler.go.
use kumquat.Base.{
  ℕ, zero, suc, String, Bool, List, [], ◌∷◌, Option, none, some, Map, ℤ, pos, negsuc, ltb_ℤ, add32,
  sub32, lookup_or, if◌then◌else◌,
}
use kumquat.Api.Floats.{Floats}
use kumquat.Scheduler.Slices.{Slices}
use kumquat.Scheduler.Spread.Candidates.{ClusterScore}

pub record Allocation (Float : Type 0) : Type 0 where
  pub name : String
  pub score : ℤ
  pub current : ℤ
  pub quota : ℤ
  pub remainder : Float
  pub weight : Float

module _ (f : Floats) where
  open f use {Float, of_int, less, equal, to_int, floor}

  unfoldable pub allocations : Map Float → Map ℤ → List ClusterScore → List (Allocation Float)
  allocations weights current [] = []
  allocations weights current (cs ∷ list) =
      record {
        name = cs.name;
        score = cs.score;
        current = lookup_or (pos 0) cs.name current;
        quota = pos 0;
        remainder = of_int (pos 0);
        weight = lookup_or (of_int (pos 0)) cs.name weights;
      }
      ∷ allocations weights current list

  -- allocs[i].quota = allocs[i].current
  unfoldable pub keep_current : List (Allocation Float) → List (Allocation Float)
  keep_current [] = []
  keep_current (a ∷ allocs) = record a { quota = a.current } ∷ keep_current allocs

  -- The int32 sum of the quotas.
  unfoldable pub sum_quotas : List (Allocation Float) → ℤ → ℤ
  sum_quotas [] total = total
  sum_quotas (a ∷ allocs) total = sum_quotas allocs (add32 total a.quota)

  -- The float64 sum of a term for each cluster.
  unfoldable pub sum_floats : (Allocation Float → Float) → List (Allocation Float) → Float → Float
  sum_floats term [] total = total
  sum_floats term (a ∷ allocs) total = sum_floats term allocs (f.add total (term a))

  -- int32(math.Floor(share))
  abbrev pub whole : Float → ℤ
  whole share = to_int (floor share)

  abbrev pub larger_remainder : Allocation Float → Allocation Float → Bool
  larger_remainder a b = less b.remainder a.remainder

  -- float64(totalReplicas) * weight / totalWeight
  abbrev pub ideal : ℤ → Float → Allocation Float → Float
  ideal total total_weight a = f.div (f.mul (of_int total) a.weight) total_weight

  abbrev pub deficit : ℤ → Float → Allocation Float → Float
  deficit total total_weight a =
      f.max (of_int (pos 0)) (f.sub (ideal total total_weight a) (of_int a.current))

  abbrev pub surplus : ℤ → Float → Allocation Float → Float
  surplus total total_weight a =
      f.max (of_int (pos 0)) (f.sub (of_int a.current) (ideal total total_weight a))

  -- The share of what is still to be assigned.
  abbrev pub grown_share : ℤ → Float → List (Allocation Float) → ℤ → Allocation Float → Float
  grown_share total total_weight allocs remaining a =
      let total_deficit = sum_floats (deficit total total_weight) allocs (of_int (pos 0)) in
      if equal total_deficit (of_int (pos 0))
      then f.div (f.mul (of_int remaining) a.weight) total_weight
      else f.div (f.mul (of_int remaining) (deficit total total_weight a)) total_deficit

  unfoldable pub add_shares :
      (Allocation Float → Float) → List (Allocation Float) → List (Allocation Float)
  add_shares share [] = []
  add_shares share (a ∷ allocs) =
      let q = whole (share a) in
      record a { quota = add32 a.quota q; remainder = f.sub (share a) (of_int q) }
      ∷ add_shares share allocs

  -- assignedTotal after the shares
  unfoldable pub add_wholes : (Allocation Float → Float) → List (Allocation Float) → ℤ → ℤ
  add_wholes share [] total = total
  add_wholes share (a ∷ allocs) total = add_wholes share allocs (add32 total (whole (share a)))

  -- The rounds of `for i := 0; i < int(n); i++`.
  abbrev pub rounds : ℤ → ℕ
  rounds (pos n) = n
  rounds (negsuc n) = 0

  -- The quotas of the first allocations change by one; `none` is the panic beyond the last one.
  unfoldable pub change_first :
      (ℤ → ℤ) → ℕ → List (Allocation Float) → Option (List (Allocation Float))
  change_first change zero allocs = some allocs
  change_first change (suc n) [] = none
  change_first change (suc n) (a ∷ allocs) = elim (change_first change n allocs) [
    | none ↦ none
    | some rest ↦ some (record a { quota = change a.quota } ∷ rest)
  ]

  -- The reduction of an allocation; `none` leaves it as it is.
  abbrev pub surplus_reduction : ℤ → Float → ℤ → Float → Allocation Float → Option Float
  surplus_reduction total total_weight to_reduce total_surplus a =
      some (f.div (f.mul (of_int to_reduce) (surplus total total_weight a)) total_surplus)

  abbrev pub inverse : Allocation Float → Float
  inverse a = f.div (of_int (pos 1)) a.weight

  unfoldable pub sum_inverses : List (Allocation Float) → Float → Float
  sum_inverses [] total = total
  sum_inverses (a ∷ allocs) total =
      sum_inverses allocs
        (if less (of_int (pos 0)) a.weight then f.add total (inverse a) else total)

  abbrev pub inverse_reduction : ℤ → Float → Allocation Float → Option Float
  inverse_reduction to_reduce inverse_total a =
      if less (of_int (pos 0)) inverse_total
      then (if less (of_int (pos 0)) a.weight
          then some (f.div (f.mul (of_int to_reduce) (inverse a)) inverse_total)
          else none)
      else none

  abbrev pub reduced : Option Float → Allocation Float → Allocation Float
  reduced none a = a
  reduced (some reduction) a = record a {
    quota = sub32 a.quota (whole reduction);
    remainder = f.sub reduction (of_int (whole reduction));
  }

  unfoldable pub subtract_shares :
      (Allocation Float → Option Float) → List (Allocation Float) → List (Allocation Float)
  subtract_shares reduction [] = []
  subtract_shares reduction (a ∷ allocs) =
      reduced (reduction a) a ∷ subtract_shares reduction allocs

  -- "Ensure no negative quotas"
  unfoldable pub clamp_quotas : List (Allocation Float) → List (Allocation Float)
  clamp_quotas [] = []
  clamp_quotas (a ∷ allocs) =
      (if ltb_ℤ a.quota (pos 0) then record a { quota = pos 0 } else a) ∷ clamp_quotas allocs

  -- How much each cluster gives back, by its surplus or else by its inverse weight.
  unfoldable pub reduction_of :
      ℤ → Float → ℤ → List (Allocation Float) → Allocation Float → Option Float
  reduction_of total total_weight to_reduce allocs =
      let total_surplus = sum_floats (surplus total total_weight) allocs (of_int (pos 0)) in
      if less (of_int (pos 0)) total_surplus
      then surplus_reduction total total_weight to_reduce total_surplus
      else inverse_reduction to_reduce (sum_inverses allocs (of_int (pos 0)))

  abbrev pub clamp_result : Option (List (Allocation Float)) → Option (List (Allocation Float))
  clamp_result none = none
  clamp_result (some changed) = some (clamp_quotas changed)

  module _ (s : Slices) where
    -- The scale up logic.
    unfoldable pub grow_quotas :
        ℤ → Float → List (Allocation Float) → Option (List (Allocation Float))
    grow_quotas total total_weight allocs =
        let kept = keep_current allocs in
        let assigned = sum_quotas kept (pos 0) in
        let remaining = sub32 total assigned in
        let share = grown_share total total_weight kept remaining in
        let still = sub32 total (add_wholes share kept assigned) in
        if ltb_ℤ (pos 0) remaining
        then change_first (λ q. add32 q (pos 1)) (rounds still)
            (s.sort larger_remainder (add_shares share kept))
        else some kept

    -- The scale down logic, from the number of replicas placed so far.
    unfoldable pub shrink_quotas :
        ℤ → ℤ → Float → List (Allocation Float) → Option (List (Allocation Float))
    shrink_quotas total current_total total_weight allocs =
        let kept = keep_current allocs in
        let reduction = reduction_of total total_weight (sub32 current_total total) kept in
        let fewer = subtract_shares reduction kept in
        let still = sub32 (sum_quotas fewer (pos 0)) total in
        clamp_result
          (change_first (λ q. sub32 q (pos 1)) (rounds still) (s.sort larger_remainder fewer))
