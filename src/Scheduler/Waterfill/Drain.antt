-- ===== src/Scheduler/Waterfill/Drain.antt =====
-- The scale-down loop of selectClustersStatefulSetWaterfill.
use mathlib.Core.List.{reverse, reverse-cons}
use kumquat.Base.{
  ℕ, ◌+◌, ◌-◌, ◌≤◌, ◌<◌, String, ◌≡◌, refl, ap, ◌∙◌, true, false, List, [], ◌∷◌, ◌++◌, Map, ℤ, pos,
  eqb, ltb, sub32-pos, insert, contains, contains-append, IsDistinct, All, if◌then◌else◌, arith,
  eq_iff, Bool-cases, inl, inr,
}
use kumquat.Scheduler.Waterfill.{drop_for, drain}
use kumquat.Scheduler.Waterfill.Sums.{
  amount, IsNatural, sum_over, lookup-natural, insert-IsNatural, amount-insert, sum_over-insert,
  sum_over-insert_absent, amount-le-sum_over,
}

-- `k` replicas more than `total` are still placed.
pub record IsSurplus (clusters : List String) (total k : ℕ) (m : Map ℤ) : Type 0 where
  pub natural : IsNatural m
  pub level : sum_over clusters m ≡ total + k

pub record IsDrained (clusters : List String) (total : ℕ) (before after : Map ℤ) : Type 0 where
  pub natural : IsNatural after
  pub all_gone : sum_over clusters after ≡ total
  pub shrinks : (name : String) → amount name after ≤ amount name before

abbrev dropped : ℕ → ℕ → ℕ
dropped c k = if ltb c k then c else k

drop_for_lem : (k c : ℕ) → drop_for (pos k) (pos c) ≡ pos (dropped c k)
unfolding drop_for
drop_for_lem k c = ground arith

module _ (clusters : List String) (distinct : IsDistinct clusters) (total : ℕ) where
  module _ (name : String) (m : Map ℤ) (k : ℕ) (here : contains name clusters ≡ true)
      (v : IsSurplus clusters total k m) (small : total + k < 2147483648) where
    abbrev less_placement : Map ℤ
    less_placement = insert name (pos (amount name m - dropped (amount name m) k)) m

    amount-lt : amount name m < 2147483648
    amount-lt = omega (arith, v.level, amount-le-sum_over name m clusters here)

    drain_step :
        (names : List String)
        → drain (name ∷ names) m (pos k) ≡ (
            if eqb k 0
            then (m, pos k)
            else (if eqb (amount name m) 0
                then drain names m (pos k)
                else drain names less_placement (pos (k - dropped (amount name m) k))))
    unfolding drain
    drain_step names =
        rw (lookup-natural name m v.natural, drop_for_lem k (amount name m))
          (rw
            (
              sub32-pos (amount name m) (dropped (amount name m) k) (ground arith) amount-lt,
              sub32-pos k (dropped (amount name m) k) (ground arith) (omega (arith, small)),
            )
            (ground arith))

    less-IsSurplus : IsSurplus clusters total (k - dropped (amount name m) k) less_placement
    less-IsSurplus = record {
      natural = insert-IsNatural name (amount name m - dropped (amount name m) k) m v.natural;
      level = ground (
        arith,
        v.level,
        sum_over-insert name (amount name m - dropped (amount name m) k) m clusters distinct here,
      );
    }

    carried : {r : Map ℤ} → IsDrained clusters total less_placement r → IsDrained clusters total m r
    carried f = record {
      natural = f.natural;
      all_gone = f.all_gone;
      shrinks = λ n. ground (
        arith,
        eq_iff name n,
        f.shrinks n,
        amount-insert name n (amount name m - dropped (amount name m) k) m,
      );
    }

  drain-IsDrained :
      (names : List String) (m : Map ℤ) (k : ℕ)
      → All (λ n. contains n clusters ≡ true) names
      → IsDistinct names
      → IsSurplus clusters total k m
      → total + k < 2147483648
      → k ≤ sum_over names m
      → IsDrained clusters total m (drain names m (pos k)).0
  unfolding drain
  drain-IsDrained [] m k a d v small enough = record {
    natural = v.natural;
    all_gone = omega (arith, v.level);
    shrinks = λ n. omega arith;
  }
  drain-IsDrained (name ∷ names) m k a d v small enough = elim (Bool-cases (eqb k 0)) [
    | inl e ↦
        rw (drain_step name m k a.0 v small names, e)
          (record {
            natural = v.natural;
            all_gone = ground (arith, v.level);
            shrinks = λ n. omega arith;
          })
    | inr e ↦ elim (Bool-cases (eqb (amount name m) 0)) [
      | inl f ↦
          rw (drain_step name m k a.0 v small names, e, f)
            (drain-IsDrained names m k a.1 d.1 v small (ground arith))
      | inr f ↦
          rw (drain_step name m k a.0 v small names, e, f)
            (carried name m k a.0 v small (
              drain-IsDrained names (less_placement name m k a.0 v small)
                (k - dropped (amount name m) k) a.1 d.1 (less-IsSurplus name m k a.0 v small)
                (ground arith)
                (ground (
                  arith,
                  sum_over-insert_absent name (amount name m - dropped (amount name m) k) m names
                      d.0,
                ))))
    ]
  ]

contains-reverse : (n : String) (xs : List String) → contains n (reverse xs) ≡ contains n xs
unfolding contains
contains-reverse n [] = refl
contains-reverse n (x ∷ xs) =
    ap (contains n) (reverse-cons x xs)
    ∙ (contains-append n (reverse xs) (x ∷ []) ∙ ground (arith, contains-reverse n xs))

snoc-IsDistinct :
    (xs : List String) (x : String)
    → contains x xs ≡ false
    → IsDistinct xs
    → IsDistinct (xs ++ x ∷ [])
unfolding contains
snoc-IsDistinct [] x h d = (refl, tt)
snoc-IsDistinct (y ∷ ys) x h d =
    ground (arith, eq_iff x y, eq_iff y x, contains-append y ys (x ∷ []), snoc-IsDistinct ys x)

pub reverse-IsDistinct : (xs : List String) → IsDistinct xs → IsDistinct (reverse xs)
reverse-IsDistinct [] d = tt
reverse-IsDistinct (x ∷ xs) d =
    rw reverse-cons
      (snoc-IsDistinct (reverse xs) x (contains-reverse x xs ∙ d.0) (reverse-IsDistinct xs d.1))

sum_over-snoc :
    (xs : List String) (x : String) (m : Map ℤ)
    → sum_over (xs ++ x ∷ []) m ≡ sum_over xs m + amount x m
sum_over-snoc [] x m = omega arith
sum_over-snoc (y ∷ ys) x m = omega (arith, sum_over-snoc ys x m)

sum_over-reverse : (xs : List String) (m : Map ℤ) → sum_over (reverse xs) m ≡ sum_over xs m
sum_over-reverse [] m = refl
sum_over-reverse (x ∷ xs) m =
    rw reverse-cons (omega (arith, sum_over-snoc (reverse xs) x m, sum_over-reverse xs m))

All-snoc :
    (clusters xs : List String) (x : String)
    → All (λ n. contains n clusters ≡ true) xs
    → contains x clusters ≡ true
    → All (λ n. contains n clusters ≡ true) (xs ++ x ∷ [])
All-snoc clusters [] x a h = (h, tt)
All-snoc clusters (y ∷ ys) x a h = (a.0, All-snoc clusters ys x a.1 h)

All-reverse :
    (clusters xs : List String)
    → All (λ n. contains n clusters ≡ true) xs
    → All (λ n. contains n clusters ≡ true) (reverse xs)
All-reverse clusters [] a = tt
All-reverse clusters (x ∷ xs) a =
    rw reverse-cons (All-snoc clusters (reverse xs) x (All-reverse clusters xs a.1) a.0)

-- From the last cluster on, as scale-down goes.
pub drain-reverse-IsDrained :
    (clusters : List String) (total k : ℕ) (m : Map ℤ)
    → IsDistinct clusters
    → All (λ n. contains n clusters ≡ true) clusters
    → IsSurplus clusters total k m
    → total + k < 2147483648
    → IsDrained clusters total m (drain (reverse clusters) m (pos k)).0
drain-reverse-IsDrained clusters total k m d a v small =
    drain-IsDrained clusters d total (reverse clusters) m k (All-reverse clusters clusters a)
      (reverse-IsDistinct clusters d) v small (omega (arith, sum_over-reverse clusters m, v.level))
