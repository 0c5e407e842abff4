-- ===== src/Scheduler/Waterfill/Total.antt =====
-- selectClustersStatefulSetWaterfill as a whole, over any capacities.
use mathlib.Core.List.{reverse}
use kumquat.Base.{
  ℕ, ◌-◌, ◌≤◌, ◌<◌, String, ◌≡◌, refl, ◌∙◌, true, false, List, [], ◌∷◌, Map, ℤ, pos, ltb, is_nil,
  sub32-pos, lookup_or, keys, contains, IsDistinct, All, if◌then◌else◌, arith, Bool-cases, inl, inr,
}
use kumquat.Api.{ClusterTopology}
use kumquat.Scheduler.Waterfill.{
  placement_map, placement_total, from_last_used, fill, overflow, drain, positive_entries,
  sorted_clusters, waterfill,
}
use kumquat.Scheduler.Waterfill.Sums.{
  amount, IsNatural, sum_over, total_replicas, replicas_in, names_of, IsPlacement,
  total_replicas-positive_entries, replicas_in-absent, replicas_in-positive_entries,
  placement_total_lem, placement_map-IsNatural, sum_over-placement_map,
}
use kumquat.Scheduler.Waterfill.Fill.{IsCapacity, IsPlaced, fill-IsFilled, overflow-IsPlaced}
use kumquat.Scheduler.Waterfill.Drain.{IsDrained, drain-reverse-IsDrained}
use kumquat.Scheduler.Waterfill.Names.{
  contains-keys-placement_map, contains-sorted_clusters, sorted_clusters-IsDistinct,
  sorted_clusters_nonempty, All-contains, All-contains_names, All-from_last_used, amount-absent,
  amount-placement_map,
}

-- What the scheduler chooses: the entries of `after`, where `ts` was placed before.
record IsOutcome (names : List String) (ts : List ClusterTopology) (n : ℕ) (after : Map ℤ)
    : Type 0 where
  sum : sum_over names after ≡ n
  grows :
      total_replicas ts ≤ n
      → (name : String) → amount name (placement_map ts []) ≤ amount name after
  shrinks :
      n ≤ total_replicas ts
      → (name : String) → amount name after ≤ amount name (placement_map ts [])

module _ (cap : String → ℤ → ℤ) (scores : Map ℤ) (ts : List ClusterTopology) (n : ℕ)
    (capped : IsCapacity cap) (feasible : is_nil scores ≡ false) (placed : IsPlacement ts)
    (small : n < 2147483648) (small_before : total_replicas ts < 2147483648) where
  existing : Map ℤ
  existing = placement_map ts []

  clusters : List String
  unfolding existing
  clusters = sorted_clusters scores existing

  clusters-IsDistinct : IsDistinct clusters
  unfolding clusters
  clusters-IsDistinct = sorted_clusters-IsDistinct scores existing

  clusters_listed : All (λ c. contains c clusters ≡ true) clusters
  clusters_listed = All-contains clusters clusters (λ j c. c)

  listed : (j : String) → contains j (names_of ts) ≡ true → contains j clusters ≡ true
  unfolding clusters keys contains
  listed j c =
      ground
        (arith, contains-sorted_clusters j scores existing, contains-keys-placement_map j ts [])

  existing-IsNatural : IsNatural existing
  unfolding existing lookup_or
  existing-IsNatural = placement_map-IsNatural ts [] placed.natural (λ name. refl)

  unplaced : (us : List ClusterTopology) → All (λ t. amount t.name [] ≡ 0) us
  unfolding lookup_or
  unplaced [] = tt
  unplaced (u ∷ us) = (refl, unplaced us)

  sum_over-nil : (names : List String) → sum_over names [] ≡ 0
  unfolding lookup_or
  sum_over-nil [] = refl
  sum_over-nil (x ∷ xs) = omega (arith, sum_over-nil xs)

  sum_over-existing : sum_over clusters existing ≡ total_replicas ts
  unfolding existing
  sum_over-existing = omega (
    arith,
    sum_over-placement_map clusters ts [] clusters-IsDistinct
        (All-contains_names clusters ts listed) placed.natural placed.distinct (unplaced ts),
    sum_over-nil clusters,
  )

  before_lem : placement_total ts (pos 0) ≡ pos (total_replicas ts)
  before_lem = placement_total_lem ts 0 placed.natural (omega arith) ∙ ground arith

  up : Map ℤ
  up =
      overflow clusters
        (fill cap (from_last_used existing clusters) existing (pos (n - total_replicas ts)))

  down : Map ℤ
  down = (drain (reverse clusters) existing (pos (total_replicas ts - n))).0

  up-IsPlaced : total_replicas ts ≤ n → IsPlaced clusters n existing up
  unfolding up clusters
  up-IsPlaced le =
      overflow-IsPlaced clusters n existing _ clusters-IsDistinct
        (sorted_clusters_nonempty scores existing feasible) small
        (fill-IsFilled clusters clusters-IsDistinct n small cap capped
          (from_last_used existing clusters) existing (n - total_replicas ts)
          (All-from_last_used existing clusters clusters clusters_listed)
          (record { natural = existing-IsNatural; level = omega (arith, sum_over-existing) }))

  down-IsDrained : n ≤ total_replicas ts → IsDrained clusters n existing down
  unfolding down
  down-IsDrained le =
      drain-reverse-IsDrained clusters n (total_replicas ts - n) existing clusters-IsDistinct
        clusters_listed
        (record { natural = existing-IsNatural; level = omega (arith, sum_over-existing) })
        (omega arith)

  final : Map ℤ
  final =
      if ltb (total_replicas ts) n
      then up
      else (if ltb n (total_replicas ts) then down else existing)

  waterfill_lem : waterfill cap scores ts (pos n) ≡ positive_entries clusters final
  unfolding waterfill final up down clusters existing
  waterfill_lem =
      rw before_lem
        (ground (arith, sub32-pos n (total_replicas ts), sub32-pos (total_replicas ts) n))

  final-IsOutcome : IsOutcome clusters ts n final
  unfolding final existing
  final-IsOutcome = elim (Bool-cases (ltb (total_replicas ts) n)) [
    | inl e ↦
        let u = up-IsPlaced (ground arith) in
        rw e (record {
          sum = u.all_placed;
          grows = λ le name. u.grows name;
          shrinks = λ le name. absurd (ground arith);
        })
    | inr e ↦ elim (Bool-cases (ltb n (total_replicas ts))) [
      | inl f ↦
          let d = down-IsDrained (ground arith) in
          rw (e, f)
            (record {
              sum = d.all_gone;
              grows = λ le name. absurd (ground arith);
              shrinks = λ le name. d.shrinks name;
            })
      | inr f ↦
          rw (e, f)
            (record {
              sum = ground (arith, sum_over-existing);
              grows = λ le name. omega arith;
              shrinks = λ le name. omega arith;
            })
    ]
  ]

  -- The assignment has exactly the desired number of replicas.
  pub waterfill_total : total_replicas (waterfill cap scores ts (pos n)) ≡ n
  waterfill_total =
      rw waterfill_lem (total_replicas-positive_entries clusters final ∙ final-IsOutcome.sum)

  replicas_after :
      (name : String)
      → replicas_in name (positive_entries clusters final)
        ≡ (if contains name clusters then amount name final else 0)
  replicas_after name = ground (
    arith,
    replicas_in-positive_entries name clusters final clusters-IsDistinct,
    replicas_in-absent name clusters final,
  )

  replicas_before :
      (name : String)
      → replicas_in name ts
        ≡ (if contains name (names_of ts) then amount name (placement_map ts []) else 0)
  replicas_before name =
      ground (arith, amount-placement_map name ts [] placed.distinct, amount-absent name ts)

  -- Where the desired number is at least the number placed before, no cluster loses a replica.
  pub waterfill_grows :
      total_replicas ts ≤ n
      → (name : String) → replicas_in name ts ≤ replicas_in name (waterfill cap scores ts (pos n))
  waterfill_grows le name = rw waterfill_lem (
      ground (
        arith,
        final-IsOutcome.grows le name,
        replicas_after name,
        replicas_before name,
        listed name,
      ))

  -- Where it is at most that number, no cluster gains one.
  pub waterfill_shrinks :
      n ≤ total_replicas ts
      → (name : String) → replicas_in name (waterfill cap scores ts (pos n)) ≤ replicas_in name ts
  unfolding lookup_or
  waterfill_shrinks le name = rw waterfill_lem (
      ground (
        arith,
        final-IsOutcome.shrinks le name,
        replicas_after name,
        replicas_before name,
        amount-placement_map name ts [] placed.distinct,
      ))
