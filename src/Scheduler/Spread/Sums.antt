-- ===== src/Scheduler/Spread/Sums.antt =====
-- Sums over the allocations of selectClustersSpread.
use kumquat.Base.{
  ℕ, zero, suc, ◌+◌, ◌≤◌, ◌<◌, String, ◌≡◌, refl, List, [], ◌∷◌, some, ℤ, pos, pos_part, neg_part,
  add32, add32-pos, length, All, sum_by, ◌=ˢ◌, if◌then◌else◌, arith,
}
use kumquat.Api.{ClusterTopology}
use kumquat.Api.Floats.{Floats}
use kumquat.Scheduler.Waterfill.Sums.{total_replicas}
use kumquat.Scheduler.Spread.{positive_quotas}
use kumquat.Scheduler.Spread.Quotas.{
  Allocation, keep_current, sum_quotas, whole, add_shares, add_wholes, change_first,
}

-- The replicas of one cluster, over all entries with its name.
abbrev pub placed_in : String → List ClusterTopology → ℕ
placed_in name ts = sum_by (λ t. if t.name =ˢ name then pos_part t.replicas else 0) ts

pub total_replicas_lem :
    (ts : List ClusterTopology) → total_replicas ts ≡ sum_by (λ t. pos_part t.replicas) ts
total_replicas_lem [] = refl
total_replicas_lem (t ∷ ts) = omega (arith, total_replicas_lem ts)

pub natural_replicas_lem :
    (ts : List ClusterTopology)
    → All (λ t. neg_part t.replicas ≡ 0) ts
    → sum_by (λ t. neg_part t.replicas) ts ≡ 0
natural_replicas_lem [] h = refl
natural_replicas_lem (t ∷ ts) h = omega (arith, h.0, natural_replicas_lem ts h.1)

module _ {Float : Type 0} where
  abbrev pub quota_of : Allocation Float → ℕ
  quota_of a = pos_part a.quota

  abbrev pub below_zero : Allocation Float → ℕ
  below_zero a = neg_part a.quota

  abbrev pub quota_in : String → Allocation Float → ℕ
  quota_in name a = if a.name =ˢ name then pos_part a.quota else 0

  pub total-positive_quotas :
      (allocs : List (Allocation Float))
      → sum_by (λ t. pos_part t.replicas) (positive_quotas allocs) ≡ sum_by quota_of allocs
  unfolding positive_quotas
  total-positive_quotas [] = refl
  total-positive_quotas (a ∷ allocs) = ground (arith, total-positive_quotas allocs)

  pub placed_in-positive_quotas :
      (name : String) (allocs : List (Allocation Float))
      → placed_in name (positive_quotas allocs) ≡ sum_by (quota_in name) allocs
  unfolding positive_quotas
  placed_in-positive_quotas name [] = refl
  placed_in-positive_quotas name (a ∷ allocs) =
      ground (arith, placed_in-positive_quotas name allocs)

module _ (f : Floats) where
  -- The sum of a term of the name and the quota, where the quotas are those placed so far.
  pub sum_by-keep_current :
      (h : String → ℤ → ℕ) (allocs : List (Allocation f.Float))
      → sum_by (λ a. h a.name a.quota) (keep_current f allocs)
        ≡ sum_by (λ a. h a.name a.current) allocs
  unfolding keep_current
  sum_by-keep_current h [] = refl
  sum_by-keep_current h (a ∷ allocs) = omega (arith, sum_by-keep_current h allocs)

  pub sum_quotas_lem :
      (allocs : List (Allocation f.Float)) (n : ℕ)
      → sum_by below_zero allocs ≡ 0
      → n + sum_by quota_of allocs < 2147483648
      → sum_quotas f allocs (pos n) ≡ pos (n + sum_by quota_of allocs)
  unfolding sum_quotas
  sum_quotas_lem [] n h b = ground arith
  sum_quotas_lem (a ∷ allocs) n h b =
      ground (arith, add32-pos n (pos_part a.quota), sum_quotas_lem allocs (n + pos_part a.quota))

  module _ (share : Allocation f.Float → f.Float) where
    abbrev pub whole_of : Allocation f.Float → ℕ
    whole_of a = pos_part (whole f (share a))

    abbrev pub whole_below : Allocation f.Float → ℕ
    whole_below a = neg_part (whole f (share a))

    pub add_wholes_lem :
        (allocs : List (Allocation f.Float)) (n : ℕ)
        → sum_by whole_below allocs ≡ 0
        → n + sum_by whole_of allocs < 2147483648
        → add_wholes f share allocs (pos n) ≡ pos (n + sum_by whole_of allocs)
    unfolding add_wholes
    add_wholes_lem [] n h b = ground arith
    add_wholes_lem (a ∷ allocs) n h b =
        ground (arith, add32-pos n (whole_of a), add_wholes_lem allocs (n + whole_of a))

    pub length-add_shares :
        (allocs : List (Allocation f.Float)) → length (add_shares f share allocs) ≡ length allocs
    unfolding add_shares
    length-add_shares [] = refl
    length-add_shares (a ∷ allocs) = omega (arith, length-add_shares allocs)

    -- Shares that are not negative raise the quotas by their sum, and no quota falls.
    pub add_shares_lem :
        (allocs : List (Allocation f.Float))
        → sum_by whole_below allocs ≡ 0
        → sum_by below_zero allocs ≡ 0
        → sum_by quota_of allocs + sum_by whole_of allocs < 2147483648
        → (sum_by below_zero (add_shares f share allocs) ≡ 0)
          × (sum_by quota_of (add_shares f share allocs)
              ≡ sum_by quota_of allocs + sum_by whole_of allocs)
    unfolding add_shares
    add_shares_lem [] h n b = (refl, refl)
    add_shares_lem (a ∷ allocs) h n b =
        ground (arith, add32-pos (pos_part a.quota) (whole_of a), add_shares_lem allocs)

    pub quota_in-add_shares :
        (name : String) (allocs : List (Allocation f.Float))
        → sum_by whole_below allocs ≡ 0
        → sum_by below_zero allocs ≡ 0
        → sum_by quota_of allocs + sum_by whole_of allocs < 2147483648
        → sum_by (quota_in name) allocs ≤ sum_by (quota_in name) (add_shares f share allocs)
    unfolding add_shares
    quota_in-add_shares name [] h n b = omega arith
    quota_in-add_shares name (a ∷ allocs) h n b =
        ground (arith, add32-pos (pos_part a.quota) (whole_of a), quota_in-add_shares name allocs)

  -- The allocations after the rounds, with what is known of them.
  abbrev pub Raised : ℕ → List (Allocation f.Float) → Type 0
  Raised n allocs =
      (out : List (Allocation f.Float)) × (change_first f (λ q. add32 q (pos 1)) n allocs
        ≡ some out)
      × (sum_by quota_of out ≡ sum_by quota_of allocs + n)
      × ((name : String) → sum_by (quota_in name) allocs ≤ sum_by (quota_in name) out)

  pub raise_first :
      (n : ℕ) (allocs : List (Allocation f.Float))
      → n ≤ length allocs
      → sum_by below_zero allocs ≡ 0
      → sum_by quota_of allocs + n < 2147483648
      → Raised n allocs
  unfolding change_first
  raise_first zero allocs l h b = (allocs, refl, omega arith, λ name. omega arith)
  raise_first (suc n) [] l h b = let impossible : ⊥ = omega arith in elim impossible [ ]
  raise_first (suc n) (a ∷ allocs) l h b =
      let (out, returned, sum, kept) =
        raise_first n allocs (omega arith) (omega arith) (omega arith) in
      (
        record a { quota = add32 a.quota (pos 1) } ∷ out,
        rw returned refl,
        ground (arith, sum, add32-pos (pos_part a.quota) 1),
        λ name. ground (arith, kept name, add32-pos (pos_part a.quota) 1),
      )
