-- ===== src/Tests/Spreading.antt =====
-- Tests of the spread strategy over two clusters that hold some replicas already, and a new one.
use mathlib.Core.List.{Permᴰ}
use mathlib.Core.List.Permᴰ
use kumquat.Base.{
  ℕ, String, ◌≡◌, refl, Bool, ◌≤◌, List, [], ◌∷◌, some, Map, ℤ, pos, contains, arith, if◌then◌else◌,
  Bool-cases, inl, inr, insert, lookup_or, to_int32, ◌/ℤ◌,
}
use kumquat.Api.{Application, ClusterTopology}
use kumquat.Framework.{SpreadConstraints}
use kumquat.Scheduler.Slices.{Slices, IsReordering}
use kumquat.Scheduler.Waterfill.Sums.{total_replicas, IsPlacement}
use kumquat.Scheduler.Spread.{select_clusters_spread}
use kumquat.Scheduler.Spread.Sums.{placed_in}
use kumquat.Scheduler.Spread.Grow.{IsApportioned, growth_share, spread_grows}
use kumquat.Scheduler.Spread.Current.{kept_allocations}
use kumquat.Scheduler.Spread.{spread_allocations, spread_candidates}
use kumquat.Scheduler.Spread.Candidates.{
  weigh, score_weights, equal_weights, used_candidates, add_best, max_clusters_for, cluster_scores,
}
use kumquat.Scheduler.Spread.Quotas.{allocations, keep_current, sum_floats, reduction_of}
use kumquat.Scheduler.Waterfill.{placement_map}
use kumquat.Scheduler.Spread.Shrink.{IsReduction, given_back, spread_shrinks}
use kumquat.Tests.Samples.{fractions, sized, stateful_app}

unfoldable pub insert_by : {A : Type 0} → (A → A → Bool) → A → List A → List A
insert_by less x [] = x ∷ []
insert_by less x (y ∷ ys) =
    let rest = insert_by less x ys in if less y x then y ∷ rest else x ∷ y ∷ ys

unfoldable pub sort_by : {A : Type 0} → (A → A → Bool) → List A → List A
sort_by less [] = []
sort_by less (x ∷ xs) = insert_by less x (sort_by less xs)

insert_by-perm :
    {A : Type 0} (less : A → A → Bool) (x : A) (ys : List A) → Permᴰ (x ∷ ys) (insert_by less x ys)
unfolding insert_by
insert_by-perm less x [] = Permᴰ.refl (x ∷ [])
insert_by-perm less x (y ∷ ys) = elim (Bool-cases (less y x)) [
  | inl e ↦ rw e (Permᴰ.trans (Permᴰ.swap refl refl) (Permᴰ.cons refl (insert_by-perm less x ys)))
  | inr e ↦ rw e (Permᴰ.refl (x ∷ y ∷ ys))
]

sort_by-perm : {A : Type 0} (less : A → A → Bool) (xs : List A) → Permᴰ xs (sort_by less xs)
unfolding sort_by
sort_by-perm less [] = Permᴰ.nil
sort_by-perm less (x ∷ xs) =
    Permᴰ.trans (Permᴰ.cons refl (sort_by-perm less xs)) (insert_by-perm less x (sort_by less xs))

abbrev pub insertion_sort : Slices
insertion_sort = record { sort = λ {A} less xs. sort_by less xs }

insertion_sort-IsReordering : IsReordering insertion_sort
insertion_sort-IsReordering A less xs = sort_by-perm less xs

abbrev constraints : SpreadConstraints
constraints = record { max_clusters = pos 3; min_replicas = pos 1 }

abbrev placed_before : List ClusterTopology
placed_before = sized "east" 3 ∷ sized "west" 4 ∷ []

placed_before-IsPlacement : IsPlacement placed_before
unfolding contains
placed_before-IsPlacement = record { natural = (refl, (refl, tt)); distinct = (refl, (refl, tt)) }

abbrev scores : Map ℤ
scores = ("east", pos 20) ∷ ("west", pos 10) ∷ ("south", pos 70) ∷ []

abbrev web : ℕ → Application
web n = record (stateful_app n placed_before) { workload_kind = "Deployment" }

-- Five more replicas go to the new cluster.
growth_share-IsApportioned :
    IsApportioned fractions
      (growth_share fractions insertion_sort constraints (web 12) scores 12)
      (kept_allocations fractions insertion_sort constraints (web 12) scores)
      5
unfolding spread_allocations spread_candidates weigh score_weights equal_weights allocations
    keep_current sum_floats used_candidates add_best max_clusters_for cluster_scores placement_map
    insert lookup_or to_int32 sort_by insert_by ◌/ℤ◌
growth_share-IsApportioned = record { natural = refl; at_most = omega arith; enough = omega arith }

spread_grows_example :
    (out : List ClusterTopology) × (select_clusters_spread fractions insertion_sort constraints
        (web 12)
        scores
      ≡ some out)
    × (total_replicas out ≡ 12)
    × ((name : String) → placed_in name placed_before ≤ placed_in name out)
spread_grows_example =
    spread_grows fractions insertion_sort constraints (web 12) scores 12 insertion_sort-IsReordering
      refl placed_before-IsPlacement (omega arith) (omega arith) growth_share-IsApportioned

given_back-IsReduction :
    IsReduction fractions
      (given_back fractions insertion_sort constraints (web 3) scores 3)
      (kept_allocations fractions insertion_sort constraints (web 3) scores)
      4
unfolding spread_allocations spread_candidates weigh score_weights equal_weights allocations
    keep_current sum_floats reduction_of used_candidates add_best max_clusters_for cluster_scores
    placement_map insert lookup_or to_int32 sort_by insert_by ◌/ℤ◌
given_back-IsReduction = record {
  natural = refl;
  within = (omega arith, (omega arith, (omega arith, tt)));
  at_most = omega arith;
  enough = omega arith;
}

spread_shrinks_example :
    (out : List ClusterTopology) × (select_clusters_spread fractions insertion_sort constraints
        (web 3)
        scores
      ≡ some out)
    × (3 ≤ total_replicas out)
    × ((name : String) → placed_in name out ≤ placed_in name placed_before)
spread_shrinks_example =
    spread_shrinks fractions insertion_sort constraints (web 3) scores 3 insertion_sort-IsReordering
      refl placed_before-IsPlacement (omega arith) (omega arith) given_back-IsReduction
