-- ===== src/Scheduler/Spread/Grow.antt =====
-- selectClustersSpread where the application grows.
use kumquat.Base.{
  ℕ, ◌+◌, ◌-◌, ◌≤◌, ◌<◌, String, ◌≡◌, refl, sym, ap, subst, ◌∙◌, true, List, Option, some, Map, ℤ,
  pos, pos_part, neg_part, ltb_ℤ, add32, sub32, sub32-pos, length, length-perm, sum_by, sum_by-perm,
  ◌=ˢ◌, if◌then◌else◌, arith,
}
use kumquat.Api.{Application, ClusterTopology}
use kumquat.Api.Floats.{Floats}
use kumquat.Framework.{SpreadConstraints}
use kumquat.Scheduler.Slices.{Slices, IsReordering}
use kumquat.Scheduler.Waterfill.{desired_replicas, placement_total}
use kumquat.Scheduler.Waterfill.Sums.{total_replicas, IsPlacement, placement_total_lem}
use kumquat.Scheduler.Spread.{
  positive_quotas, by_name, spread_allocations, spread_quotas, select_clusters_spread,
}
use kumquat.Scheduler.Spread.Quotas.{
  Allocation, keep_current, sum_quotas, grown_share, add_shares, add_wholes, change_first,
  larger_remainder, grow_quotas,
}
use kumquat.Scheduler.Spread.Sums.{
  placed_in, total_replicas_lem, natural_replicas_lem, quota_of, below_zero, quota_in,
  total-positive_quotas, placed_in-positive_quotas, sum_quotas_lem, whole_of, whole_below,
  add_wholes_lem, length-add_shares, add_shares_lem, quota_in-add_shares, raise_first,
}
use kumquat.Scheduler.Spread.Current.{kept_allocations, kept_lem, selected}

-- The rounded-down shares are natural, exceed `r` in no sum, and reach it with one more for each
-- cluster at most: what exact arithmetic gives for shares that add up to `r`.
pub record IsApportioned (f : Floats) (share : Allocation f.Float → f.Float)
    (allocs : List (Allocation f.Float)) (r : ℕ) : Type 0 where
  pub natural : sum_by (whole_below f share) allocs ≡ 0
  pub at_most : sum_by (whole_of f share) allocs ≤ r
  pub enough : r ≤ sum_by (whole_of f share) allocs + length allocs

module _ (f : Floats) (s : Slices) (reorder : IsReordering s) where
  abbrev Grown : ℕ → List (Allocation f.Float) → Option (List (Allocation f.Float)) → Type 0
  Grown n kept result =
      (out : List (Allocation f.Float)) × (result ≡ some out)
      × (sum_by quota_of out ≡ n)
      × ((name : String) → sum_by (quota_in name) kept ≤ sum_by (quota_in name) out)

  -- The sorted shares are raised in the first rounds.
  raise_sorted :
      (n : ℕ) (share : Allocation f.Float → f.Float) (kept : List (Allocation f.Float))
      → sum_by below_zero kept ≡ 0
      → sum_by quota_of kept < n
      → n < 2147483648
      → IsApportioned f share kept (n - sum_by quota_of kept)
      → Grown n kept (
          change_first f
            (λ q. add32 q (pos 1))
            (n - (sum_by quota_of kept + sum_by (whole_of f share) kept))
            (s.sort (larger_remainder f) (add_shares f share kept)))
  raise_sorted n share kept h l b fair =
      let shared = add_shares f share kept in
      let sorted = s.sort (larger_remainder f) shared in
      let perm = reorder _ (larger_remainder f) shared in
      let (natural, sum) =
        add_shares_lem f share kept fair.natural h (omega (arith, fair.at_most)) in
      let (out, returned, total, more) =
        raise_first f (n - (sum_by quota_of kept + sum_by (whole_of f share) kept)) sorted
          (omega (arith, length-perm perm, length-add_shares f share kept, fair.enough))
          (sym (sum_by-perm below_zero perm) ∙ natural)
          (omega (arith, sum_by-perm quota_of perm, sum, fair.at_most)) in
      (
        out,
        returned,
        omega (arith, total, sum_by-perm quota_of perm, sum, fair.at_most),
        λ name. omega (
          arith,
          more name,
          sum_by-perm (quota_in name) perm,
          quota_in-add_shares f share name kept fair.natural h (omega (arith, fair.at_most)),
        ),
      )

  grow_quotas_lem :
      (n : ℕ) (total_weight : f.Float) (allocs : List (Allocation f.Float))
      → sum_by below_zero (keep_current f allocs) ≡ 0
      → sum_by quota_of (keep_current f allocs) < n
      → n < 2147483648
      → IsApportioned f
          (grown_share f
            (pos n)
            total_weight
            (keep_current f allocs)
            (pos (n - sum_by quota_of (keep_current f allocs))))
          (keep_current f allocs)
          (n - sum_by quota_of (keep_current f allocs))
      → Grown n (keep_current f allocs) (grow_quotas f s (pos n) total_weight allocs)
  unfolding grow_quotas
  grow_quotas_lem n total_weight allocs h l b fair =
      let kept = keep_current f allocs in
      let c = sum_by quota_of kept in
      let share = grown_share f (pos n) total_weight kept (pos (n - c)) in
      let assigned : sum_quotas f kept (pos 0) ≡ pos c =
        sum_quotas_lem f kept 0 h (omega arith) ∙ ap pos (omega arith) in
      let remaining : sub32 (pos n) (pos c) ≡ pos (n - c) = sub32-pos n c (omega arith) b in
      let positive : ltb_ℤ (pos 0) (pos (n - c)) ≡ true = ground arith in
      let wholes : add_wholes f share kept (pos c) ≡ pos (c + sum_by (whole_of f share) kept) =
        add_wholes_lem f share kept c fair.natural (omega (arith, fair.at_most)) in
      let still : sub32 (pos n) (pos (c + sum_by (whole_of f share) kept))
          ≡ pos (n - (c + sum_by (whole_of f share) kept)) =
        sub32-pos n (c + sum_by (whole_of f share) kept) (omega (arith, fair.at_most)) b in
      rw (assigned, remaining, positive, wholes, still) (raise_sorted n share kept h l b fair)

module _ (f : Floats) (s : Slices) (constraints : SpreadConstraints) (app : Application)
    (scores : Map ℤ) (n : ℕ) where
  abbrev result : Option (List ClusterTopology)
  result = select_clusters_spread f s constraints app scores

  abbrev kept : List (Allocation f.Float)
  kept = kept_allocations f s constraints app scores

  -- The share that the scale up logic gives to an allocation.
  abbrev pub growth_share : Allocation f.Float → f.Float
  growth_share =
      grown_share f (pos n) (spread_allocations f s constraints app scores).1 kept
        (pos (n - total_replicas app.topology))

  module _ (reorder : IsReordering s) where
    -- The spread strategy places exactly the desired number of replicas and takes a replica from no
    -- cluster, and does not panic, where the desired number fits an int32 and exceeds the number placed
    -- so far, the placement so far names each cluster once with a natural number of replicas, sorting
    -- only reorders, and the rounded-down shares are natural, add up to at most what is to be added, and
    -- reach it with one more for each cluster.
    pub spread_grows :
        (desired : desired_replicas app ≡ pos n) (placed : IsPlacement app.topology)
        (more : total_replicas app.topology < n) (small : n < 2147483648)
        (fair : IsApportioned f growth_share kept (n - total_replicas app.topology))
        → (out : List ClusterTopology) × (result ≡ some out)
          × (total_replicas out ≡ n)
          × ((name : String) → placed_in name app.topology ≤ placed_in name out)
    unfolding spread_quotas
    spread_grows desired placed more small fair =
        let allocs = (spread_allocations f s constraints app scores).0 in
        let total_weight = (spread_allocations f s constraints app scores).1 in
        let count : sum_by quota_of kept ≡ total_replicas app.topology =
          kept_lem f s constraints app scores (λ name z. pos_part z) (λ name. refl) placed
          ∙ sym (total_replicas_lem app.topology) in
        let (out, returned, total, kept_quotas) =
          grow_quotas_lem f s reorder n total_weight allocs
            (kept_lem f s constraints app scores (λ name z. neg_part z) (λ name. refl) placed
              ∙ natural_replicas_lem app.topology placed.natural)
            (omega (arith, count)) small
            (subst
              (λ m.
                IsApportioned f (grown_share f (pos n) total_weight kept (pos (n - m))) kept
                  (n - m))
              (sym count) fair) in
        let current : placement_total app.topology (pos 0) ≡ pos (total_replicas app.topology) =
          placement_total_lem app.topology 0 placed.natural (omega arith) ∙ ap pos (omega arith) in
        let up : ltb_ℤ (pos (total_replicas app.topology)) (pos n) ≡ true = ground arith in
        let branch : spread_quotas f s constraints (pos n) (pos (total_replicas app.topology))
              total_weight allocs
            ≡ some out =
          rw up returned in
        let perm = reorder _ by_name (positive_quotas out) in
        (
          s.sort by_name (positive_quotas out),
          selected f s constraints app scores n (total_replicas app.topology) desired current out
              branch,
          total_replicas_lem (s.sort by_name (positive_quotas out))
              ∙ sym (sum_by-perm (λ t. pos_part t.replicas) perm)
              ∙ total-positive_quotas out
              ∙ total,
          λ name. omega (
            arith,
            sum_by-perm (λ t. if t.name =ˢ name then pos_part t.replicas else 0) perm,
            placed_in-positive_quotas name out,
            kept_quotas name,
            kept_lem f s constraints app scores (λ key z. if key =ˢ name then pos_part z else 0)
                (λ key. ground arith) placed,
          ),
        )
