-- ===== src/Scheduler/Spread/Shrink.antt =====
-- selectClustersSpread where the application shrinks.
use kumquat.Base.{
  ℕ, ◌+◌, ◌-◌, ◌≤◌, ◌<◌, String, ◌≡◌, refl, sym, ap, subst, ◌∙◌, false, List, Option, some, Map, ℤ,
  pos, pos_part, neg_part, ltb_ℤ, sub32, sub32-pos, length, length-perm, sum_by, sum_by-perm, All,
  ◌=ˢ◌, if◌then◌else◌, arith,
}
use kumquat.Api.{Application, ClusterTopology}
use kumquat.Api.Floats.{Floats}
use kumquat.Framework.{SpreadConstraints}
use kumquat.Scheduler.Slices.{Slices, IsReordering}
use kumquat.Scheduler.Waterfill.{desired_replicas, placement_total}
use kumquat.Scheduler.Waterfill.Sums.{total_replicas, IsPlacement, placement_total_lem}
use kumquat.Scheduler.Spread.{
  positive_quotas, by_name, spread_allocations, spread_quotas, select_clusters_spread,
}
use kumquat.Scheduler.Spread.Quotas.{
  Allocation, keep_current, sum_quotas, reduction_of, subtract_shares, change_first,
  larger_remainder, clamp_quotas, clamp_result, shrink_quotas,
}
use kumquat.Scheduler.Spread.Sums.{
  placed_in, total_replicas_lem, natural_replicas_lem, quota_of, below_zero, quota_in,
  total-positive_quotas, placed_in-positive_quotas, sum_quotas_lem,
}
use kumquat.Scheduler.Spread.Current.{kept_allocations, kept_lem, selected}
use kumquat.Scheduler.Spread.Lower.{
  cut_of, cut_below, length-subtract_shares, subtract_shares_lem, quota_in-subtract_shares,
  lower_first,
}

-- The rounded-down reductions are natural and take from no cluster more than it has, add up to at
-- most `r`, and reach it with one more for each cluster.
pub record IsReduction (f : Floats) (reduction : Allocation f.Float → Option f.Float)
    (allocs : List (Allocation f.Float)) (r : ℕ) : Type 0 where
  pub natural : sum_by (cut_below f reduction) allocs ≡ 0
  pub within : All (λ a. cut_of f reduction a ≤ quota_of a) allocs
  pub at_most : sum_by (cut_of f reduction) allocs ≤ r
  pub enough : r ≤ sum_by (cut_of f reduction) allocs + length allocs

module _ (f : Floats) (s : Slices) (reorder : IsReordering s) where
  abbrev Shrunk : ℕ → List (Allocation f.Float) → Option (List (Allocation f.Float)) → Type 0
  Shrunk n kept result =
      (out : List (Allocation f.Float)) × (result ≡ some out)
      × (n ≤ sum_by quota_of out)
      × ((name : String) → sum_by (quota_in name) out ≤ sum_by (quota_in name) kept)

  -- The sorted allocations are lowered in the first rounds.
  lower_sorted :
      (n : ℕ) (reduction : Allocation f.Float → Option f.Float) (kept : List (Allocation f.Float))
      → sum_by below_zero kept ≡ 0
      → n ≤ sum_by quota_of kept
      → sum_by quota_of kept < 2147483648
      → IsReduction f reduction kept (sum_by quota_of kept - n)
      → Shrunk n kept (
          clamp_result f (
            change_first f
              (λ q. sub32 q (pos 1))
              (sum_by quota_of (subtract_shares f reduction kept) - n)
              (s.sort (larger_remainder f) (subtract_shares f reduction kept))))
  lower_sorted n reduction kept h l b fair =
      let fewer = subtract_shares f reduction kept in
      let perm = reorder _ (larger_remainder f) fewer in
      let (natural, sum) = subtract_shares_lem f reduction kept fair.natural h fair.within b in
      let (out, returned, total, less) =
        lower_first f (sum_by quota_of fewer - n) (s.sort (larger_remainder f) fewer)
          (omega
            (arith, length-perm perm, length-subtract_shares f reduction kept, sum, fair.enough))
          (sym (sum_by-perm below_zero perm) ∙ natural)
          (omega (arith, sum_by-perm quota_of perm, sum)) in
      (
        clamp_quotas f out,
        ap (clamp_result f) returned,
        omega (arith, total, sum_by-perm quota_of perm, sum, fair.at_most),
        λ name. omega (
          arith,
          less name,
          sum_by-perm (quota_in name) perm,
          quota_in-subtract_shares f reduction name kept fair.natural h fair.within b,
        ),
      )

  shrink_quotas_lem :
      (n c : ℕ) (total_weight : f.Float) (allocs : List (Allocation f.Float))
      → sum_by below_zero (keep_current f allocs) ≡ 0
      → sum_by quota_of (keep_current f allocs) ≡ c
      → n ≤ c
      → c < 2147483648
      → IsReduction f
          (reduction_of f (pos n) total_weight (pos (c - n)) (keep_current f allocs))
          (keep_current f allocs)
          (c - n)
      → Shrunk n (keep_current f allocs) (shrink_quotas f s (pos n) (pos c) total_weight allocs)
  unfolding shrink_quotas
  shrink_quotas_lem n c total_weight allocs h e l b fair =
      let kept = keep_current f allocs in
      let reduction = reduction_of f (pos n) total_weight (pos (c - n)) kept in
      let fewer = subtract_shares f reduction kept in
      let (natural, sum) =
        subtract_shares_lem f reduction kept fair.natural h fair.within (omega (arith, e)) in
      let to_reduce : sub32 (pos c) (pos n) ≡ pos (c - n) = sub32-pos c n l b in
      let assigned : sum_quotas f fewer (pos 0) ≡ pos (sum_by quota_of fewer) =
        sum_quotas_lem f fewer 0 natural (omega (arith, sum, e)) ∙ ap pos (omega arith) in
      let still : sub32 (pos (sum_by quota_of fewer)) (pos n) ≡ pos (sum_by quota_of fewer - n) =
        sub32-pos (sum_by quota_of fewer) n (omega (arith, sum, fair.at_most, e))
          (omega (arith, sum, e)) in
      rw (to_reduce, assigned, still)
        (lower_sorted n reduction kept h (omega (arith, e)) (omega (arith, e))
          (subst (λ m. IsReduction f reduction kept (m - n)) (sym e) fair))

module _ (f : Floats) (s : Slices) (constraints : SpreadConstraints) (app : Application)
    (scores : Map ℤ) (n : ℕ) where
  abbrev result : Option (List ClusterTopology)
  result = select_clusters_spread f s constraints app scores

  abbrev kept : List (Allocation f.Float)
  kept = kept_allocations f s constraints app scores

  -- How much the scale down logic takes from an allocation.
  abbrev pub given_back : Allocation f.Float → Option f.Float
  given_back =
      reduction_of f (pos n) (spread_allocations f s constraints app scores).1
        (pos (total_replicas app.topology - n)) kept

  module _ (reorder : IsReordering s) where
    -- Where the desired number is at most the number placed so far, the spread strategy places at least
    -- the desired number, gives no cluster a replica more than it has, and does not panic, provided that
    -- the number placed so far fits an int32, the placement names each cluster once with a natural
    -- number of replicas, sorting only reorders, and the rounded-down reductions are natural, take from
    -- no cluster more than it has, add up to at most what is to be taken, and reach it with one more for
    -- each cluster.
    pub spread_shrinks :
        (desired : desired_replicas app ≡ pos n) (placed : IsPlacement app.topology)
        (fewer : n ≤ total_replicas app.topology) (small : total_replicas app.topology < 2147483648)
        (fair : IsReduction f given_back kept (total_replicas app.topology - n))
        → (out : List ClusterTopology) × (result ≡ some out)
          × (n ≤ total_replicas out)
          × ((name : String) → placed_in name out ≤ placed_in name app.topology)
    unfolding spread_quotas
    spread_shrinks desired placed fewer small fair =
        let c = total_replicas app.topology in
        let allocs = (spread_allocations f s constraints app scores).0 in
        let total_weight = (spread_allocations f s constraints app scores).1 in
        let count : sum_by quota_of kept ≡ c =
          kept_lem f s constraints app scores (λ name z. pos_part z) (λ name. refl) placed
          ∙ sym (total_replicas_lem app.topology) in
        let (out, returned, total, less) =
          shrink_quotas_lem f s reorder n c total_weight allocs
            (kept_lem f s constraints app scores (λ name z. neg_part z) (λ name. refl) placed
              ∙ natural_replicas_lem app.topology placed.natural)
            count fewer small fair in
        let current : placement_total app.topology (pos 0) ≡ pos c =
          placement_total_lem app.topology 0 placed.natural (omega arith) ∙ ap pos (omega arith) in
        let down : ltb_ℤ (pos c) (pos n) ≡ false = ground arith in
        let branch : spread_quotas f s constraints (pos n) (pos c) total_weight allocs ≡ some out =
          rw down returned in
        let perm = reorder _ by_name (positive_quotas out) in
        (
          s.sort by_name (positive_quotas out),
          selected f s constraints app scores n c desired current out branch,
          omega (
            arith,
            total,
            total_replicas_lem (s.sort by_name (positive_quotas out)),
            sum_by-perm (λ t. pos_part t.replicas) perm,
            total-positive_quotas out,
          ),
          λ name. omega (
            arith,
            sum_by-perm (λ t. if t.name =ˢ name then pos_part t.replicas else 0) perm,
            placed_in-positive_quotas name out,
            less name,
            kept_lem f s constraints app scores (λ key z. if key =ˢ name then pos_part z else 0)
                (λ key. ground arith) placed,
          ),
        )
