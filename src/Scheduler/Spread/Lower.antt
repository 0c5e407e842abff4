-- ===== src/Scheduler/Spread/Lower.antt =====
-- The reductions of selectClustersSpread.
use kumquat.Base.{
  ℕ, zero, suc, ◌+◌, ◌-◌, ◌≤◌, ◌<◌, String, ◌≡◌, refl, List, [], ◌∷◌, Option, none, some, ℤ, pos,
  pos_part, neg_part, sub32, sub32-pos, length, All, sum_by, arith,
}
use kumquat.Api.Floats.{Floats}
use kumquat.Scheduler.Spread.Quotas.{
  Allocation, whole, reduced, subtract_shares, change_first, clamp_quotas,
}
use kumquat.Scheduler.Spread.Sums.{quota_of, below_zero, quota_in}

-- One replica less, where there is one.
lowered : (n : ℕ) → n < 2147483648 → pos_part (sub32 (pos n) (pos 1)) ≡ n - 1
unfolding sub32
lowered n b = ground arith

natural_eq : (z : ℤ) → neg_part z ≡ 0 → z ≡ pos (pos_part z)
natural_eq z h = ground arith

module _ (f : Floats) where
  sum-clamp_quotas :
      (allocs : List (Allocation f.Float))
      → sum_by quota_of (clamp_quotas f allocs) ≡ sum_by quota_of allocs
  unfolding clamp_quotas
  sum-clamp_quotas [] = refl
  sum-clamp_quotas (a ∷ allocs) = ground (arith, sum-clamp_quotas allocs)

  quota_in-clamp_quotas :
      (name : String) (allocs : List (Allocation f.Float))
      → sum_by (quota_in name) (clamp_quotas f allocs) ≡ sum_by (quota_in name) allocs
  unfolding clamp_quotas
  quota_in-clamp_quotas name [] = refl
  quota_in-clamp_quotas name (a ∷ allocs) = ground (arith, quota_in-clamp_quotas name allocs)

  -- The whole part of a reduction.
  abbrev pub whole_cut : Option f.Float → ℤ
  whole_cut none = pos 0
  whole_cut (some reduction) = whole f reduction

  -- What the rounds take, with what is known of it.
  abbrev pub Lowered : ℕ → List (Allocation f.Float) → Type 0
  Lowered n allocs =
      (out : List (Allocation f.Float)) × (change_first f (λ q. sub32 q (pos 1)) n allocs
        ≡ some out)
      × (sum_by quota_of allocs ≤ sum_by quota_of (clamp_quotas f out) + n)
      × ((name : String)
          → sum_by (quota_in name) (clamp_quotas f out) ≤ sum_by (quota_in name) allocs)

  lower_unclamped :
      (n : ℕ) (allocs : List (Allocation f.Float))
      → n ≤ length allocs
      → sum_by below_zero allocs ≡ 0
      → sum_by quota_of allocs < 2147483648
      → (out : List (Allocation f.Float)) × (change_first f (λ q. sub32 q (pos 1)) n allocs
          ≡ some out)
        × (sum_by quota_of allocs ≤ sum_by quota_of out + n)
        × ((name : String) → sum_by (quota_in name) out ≤ sum_by (quota_in name) allocs)
  unfolding change_first
  lower_unclamped zero allocs l h b = (allocs, refl, omega arith, λ name. omega arith)
  lower_unclamped (suc n) [] l h b = let impossible : ⊥ = omega arith in elim impossible [ ]
  lower_unclamped (suc n) (a ∷ allocs) l h b =
      let (out, returned, sum, kept) =
        lower_unclamped n allocs (omega arith) (omega arith) (omega arith) in
      (
        record a { quota = sub32 a.quota (pos 1) } ∷ out,
        rw returned refl,
        ground (arith, sum, natural_eq a.quota, lowered (pos_part a.quota)),
        λ name. ground (arith, kept name, natural_eq a.quota, lowered (pos_part a.quota)),
      )

  pub lower_first :
      (n : ℕ) (allocs : List (Allocation f.Float))
      → n ≤ length allocs
      → sum_by below_zero allocs ≡ 0
      → sum_by quota_of allocs < 2147483648
      → Lowered n allocs
  lower_first n allocs l h b =
      let (out, returned, sum, kept) = lower_unclamped n allocs l h b in
      (
        out,
        returned,
        omega (arith, sum, sum-clamp_quotas out),
        λ name. omega (arith, kept name, quota_in-clamp_quotas name out),
      )

  reduced_lem :
      (o : Option f.Float) (a : Allocation f.Float)
      → neg_part (whole_cut o) ≡ 0
      → neg_part a.quota ≡ 0
      → pos_part (whole_cut o) ≤ pos_part a.quota
      → pos_part a.quota < 2147483648
      → ((reduced f o a).quota ≡ pos (pos_part a.quota - pos_part (whole_cut o)))
        × ((reduced f o a).name ≡ a.name)
  reduced_lem none a h n l b = (ground arith, refl)
  reduced_lem (some x) a h n l b = (
    ground (
      arith,
      natural_eq a.quota,
      natural_eq (whole f x),
      sub32-pos (pos_part a.quota) (pos_part (whole f x)),
    ),
    refl,
  )

  module _ (reduction : Allocation f.Float → Option f.Float) where
    abbrev pub cut_of : Allocation f.Float → ℕ
    cut_of a = pos_part (whole_cut (reduction a))

    abbrev pub cut_below : Allocation f.Float → ℕ
    cut_below a = neg_part (whole_cut (reduction a))

    pub length-subtract_shares :
        (allocs : List (Allocation f.Float))
        → length (subtract_shares f reduction allocs) ≡ length allocs
    unfolding subtract_shares
    length-subtract_shares [] = refl
    length-subtract_shares (a ∷ allocs) = omega (arith, length-subtract_shares allocs)

    -- Natural reductions within the quotas lower their sum by that of the reductions.
    pub subtract_shares_lem :
        (allocs : List (Allocation f.Float))
        → sum_by cut_below allocs ≡ 0
        → sum_by below_zero allocs ≡ 0
        → All (λ a. cut_of a ≤ quota_of a) allocs
        → sum_by quota_of allocs < 2147483648
        → (sum_by below_zero (subtract_shares f reduction allocs) ≡ 0)
          × (sum_by quota_of (subtract_shares f reduction allocs) + sum_by cut_of allocs
              ≡ sum_by quota_of allocs)
    unfolding subtract_shares
    subtract_shares_lem [] h n l b = (refl, omega arith)
    subtract_shares_lem (a ∷ allocs) h n l b =
        let (q, name) = reduced_lem (reduction a) a (omega arith) (omega arith) l.0 (omega arith) in
        let (natural, sum) =
          subtract_shares_lem allocs (omega arith) (omega arith) l.1 (omega arith) in
        (rw q (omega (arith, natural)), rw q (omega (arith, sum, l.0)))

    pub quota_in-subtract_shares :
        (name : String) (allocs : List (Allocation f.Float))
        → sum_by cut_below allocs ≡ 0
        → sum_by below_zero allocs ≡ 0
        → All (λ a. cut_of a ≤ quota_of a) allocs
        → sum_by quota_of allocs < 2147483648
        → sum_by (quota_in name) (subtract_shares f reduction allocs)
          ≤ sum_by (quota_in name) allocs
    unfolding subtract_shares
    quota_in-subtract_shares name [] h n l b = omega arith
    quota_in-subtract_shares name (a ∷ allocs) h n l b =
        let (q, same) = reduced_lem (reduction a) a (omega arith) (omega arith) l.0 (omega arith) in
        let rest =
          quota_in-subtract_shares name allocs (omega arith) (omega arith) l.1 (omega arith) in
        rw (q, same) (ground (arith, rest))
