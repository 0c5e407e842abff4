-- ===== src/Scheduler/Waterfill/Fill.antt =====
-- The scale-up loop of selectClustersStatefulSetWaterfill.
use kumquat.Base.{
  ℕ, ◌+◌, ◌-◌, ◌≤◌, ◌<◌, String, ◌≡◌, refl, true, false, List, [], ◌∷◌, some, Map, ℤ, pos, negsuc,
  pos_part, neg_part, ltb_ℤ, eqb, ltb, is_nil, add32, sub32, add32-pos, sub32-pos, lookup_or,
  insert, contains, IsDistinct, All, if◌then◌else◌, arith, eq_iff, Bool-cases, inl, inr,
}
use kumquat.Scheduler.Waterfill.{take_for, fill, last_name, overflow}
use kumquat.Scheduler.Waterfill.Sums.{
  amount, IsNatural, sum_over, lookup-natural, insert-IsNatural, amount-insert, sum_over-insert,
  amount-le-sum_over,
}

-- A capacity is a natural int32.
abbrev pub IsCapacity : (String → ℤ → ℤ) → Type 0
IsCapacity cap =
    (name : String) (c : ℕ)
    → c < 2147483648
    → (neg_part (cap name (pos c)) ≡ 0) × (pos_part (cap name (pos c)) < 2147483648)

take_for_lem :
    (k c : ℕ) (cap : ℤ)
    → neg_part cap ≡ 0
    → pos_part cap < 2147483648
    → k < 2147483648
    → c < 2147483648
    → let t = pos_part (take_for (pos k) cap (pos c)) in
      (take_for (pos k) cap (pos c) ≡ pos t) × (t ≤ k)
unfolding take_for sub32
take_for_lem k c (pos a) n h hk hc = ground arith
take_for_lem k c (negsuc a) n h hk hc = cc

-- `k` replicas of `total` are still to be placed.
pub record IsLevel (clusters : List String) (total k : ℕ) (m : Map ℤ) : Type 0 where
  pub natural : IsNatural m
  pub level : sum_over clusters m + k ≡ total

pub record IsFilled (clusters : List String) (total : ℕ) (m : Map ℤ) (r : Map ℤ × ℤ) : Type 0 where
  pub left : ℕ
  pub left_lem : r.1 ≡ pos left
  pub is_level : IsLevel clusters total left r.0
  pub grows : (name : String) → amount name m ≤ amount name r.0

module _ (clusters : List String) (distinct : IsDistinct clusters) (total : ℕ)
    (small : total < 2147483648) (cap : String → ℤ → ℤ) (capped : IsCapacity cap) where
  taken : String → Map ℤ → ℕ → ℕ
  taken name m k =
      pos_part (take_for (pos k) (cap name (pos (amount name m))) (pos (amount name m)))

  module _ (name : String) (m : Map ℤ) (k : ℕ) (here : contains name clusters ≡ true)
      (v : IsLevel clusters total k m) where
    abbrev next_placement : Map ℤ
    next_placement = insert name (pos (amount name m + taken name m k)) m

    amount-lt : amount name m < 2147483648
    amount-lt = omega (arith, v.level, amount-le-sum_over name m clusters here)

    taken_lem :
        (take_for (pos k) (cap name (pos (amount name m))) (pos (amount name m))
          ≡ pos (taken name m k))
        × (taken name m k ≤ k)
    unfolding taken
    taken_lem =
        let (n, b) = capped name (amount name m) amount-lt in
        take_for_lem k (amount name m) (cap name (pos (amount name m))) n b (omega (arith, v.level))
          amount-lt

    fill_step :
        (names : List String)
        → fill cap (name ∷ names) m (pos k) ≡ (
            if eqb k 0
            then (m, pos k)
            else fill cap names next_placement (pos (k - taken name m k)))
    unfolding fill
    fill_step names =
        rw (lookup-natural name m v.natural, taken_lem.0)
          (rw
            (
              add32-pos (amount name m) (taken name m k)
                  (omega (arith, v.level, taken_lem.1, amount-le-sum_over name m clusters here)),
              sub32-pos k (taken name m k) taken_lem.1 (omega (arith, v.level)),
            )
            (ground arith))

    next-IsLevel : IsLevel clusters total (k - taken name m k) next_placement
    next-IsLevel = record {
      natural = insert-IsNatural name (amount name m + taken name m k) m v.natural;
      level = omega (
        arith,
        v.level,
        taken_lem.1,
        sum_over-insert name (amount name m + taken name m k) m clusters distinct here,
      );
    }

    carried :
        {r : Map ℤ × ℤ} → IsFilled clusters total next_placement r → IsFilled clusters total m r
    carried f = record {
      left = f.left;
      left_lem = f.left_lem;
      is_level = f.is_level;
      grows = λ n. ground (
        arith,
        eq_iff name n,
        f.grows n,
        amount-insert name n (amount name m + taken name m k) m,
      );
    }

  pub fill-IsFilled :
      (names : List String) (m : Map ℤ) (k : ℕ)
      → All (λ n. contains n clusters ≡ true) names
      → IsLevel clusters total k m
      → IsFilled clusters total m (fill cap names m (pos k))
  unfolding fill
  fill-IsFilled [] m k a v = record {
    left = k;
    left_lem = refl;
    is_level = v;
    grows = λ name. omega arith;
  }
  fill-IsFilled (name ∷ names) m k a v = elim (Bool-cases (eqb k 0)) [
    | inl e ↦
        rw (fill_step name m k a.0 v names, e)
          (record { left = k; left_lem = refl; is_level = v; grows = λ n. omega arith })
    | inr e ↦
        rw (fill_step name m k a.0 v names, e)
          (carried name m k a.0 v (
            fill-IsFilled names (next_placement name m k a.0 v) (k - taken name m k) a.1
              (next-IsLevel name m k a.0 v)))
  ]

last_name-contains :
    (names : List String)
    → is_nil names ≡ false
    → (n : String) × (last_name names ≡ some n) × (contains n names ≡ true)
unfolding last_name contains
last_name-contains [] h = cc
last_name-contains (x ∷ []) h = (x, refl, ground (arith, eq_iff x x))
last_name-contains (x ∷ y ∷ ys) h =
    let (n, e, c) = last_name-contains (y ∷ ys) refl in (n, e, ground (arith, c))

-- All of the replicas are placed, and no cluster loses any.
pub record IsPlaced (clusters : List String) (total : ℕ) (before after : Map ℤ) : Type 0 where
  pub natural : IsNatural after
  pub all_placed : sum_over clusters after ≡ total
  pub grows : (name : String) → amount name before ≤ amount name after

module _ (clusters : List String) (total k : ℕ) (before p : Map ℤ) (last : String)
    (d : IsDistinct clusters) (small : total < 2147483648) (here : contains last clusters ≡ true)
    (v : IsLevel clusters total k p)
    (grows : (name : String) → amount name before ≤ amount name p) where
  topped_up-IsPlaced : IsPlaced clusters total before (insert last (pos (amount last p + k)) p)
  topped_up-IsPlaced = record {
    natural = insert-IsNatural last (amount last p + k) p v.natural;
    all_placed = omega (arith, v.level, sum_over-insert last (amount last p + k) p clusters d here);
    grows = λ n. ground (arith, eq_iff last n, grows n, amount-insert last n (amount last p + k) p);
  }

  overflow_step :
      (if ltb_ℤ (pos 0) (pos k)
        then insert last (add32 (lookup_or (pos 0) last p) (pos k)) p
        else p)
      ≡ (if ltb 0 k then insert last (pos (amount last p + k)) p else p)
  overflow_step = rw (lookup-natural last p v.natural) (
      rw
        (add32-pos (amount last p) k
          (omega (arith, v.level, amount-le-sum_over last p clusters here)))
        (ground arith))

  after_overflow-IsPlaced : IsPlaced clusters total before (
      if ltb_ℤ (pos 0) (pos k) then insert last (add32 (lookup_or (pos 0) last p) (pos k)) p else p)
  after_overflow-IsPlaced = elim (Bool-cases (ltb 0 k)) [
    | inl t ↦ rw (overflow_step, t) topped_up-IsPlaced
    | inr t ↦
        rw (overflow_step, t)
          (record { natural = v.natural; all_placed = ground (arith, v.level); grows = grows })
  ]

pub overflow-IsPlaced :
    (clusters : List String) (total : ℕ) (m : Map ℤ) (r : Map ℤ × ℤ)
    → IsDistinct clusters
    → is_nil clusters ≡ false
    → total < 2147483648
    → IsFilled clusters total m r
    → IsPlaced clusters total m (overflow clusters r)
unfolding overflow
overflow-IsPlaced clusters total m (p, z) d nonempty small f =
    let (last, e, c) = last_name-contains clusters nonempty in
    rw (e, overflow)
      (rw f.left_lem
        (after_overflow-IsPlaced clusters total f.left m p last d small c f.is_level f.grows))
