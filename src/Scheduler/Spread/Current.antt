-- ===== src/Scheduler/Spread/Current.antt =====
-- The candidates of selectClustersSpread hold the whole placement so far.
use kumquat.Base.{
  Option, some, ℕ, String, ◌≡◌, refl, sym, ap, ◌∙◌, false, ◌||◌, List, [], ◌∷◌, ◌++◌, Map, ℤ, pos,
  lookup_or, lookup_or-insert, insert, has_key, has_key-insert, contains, sum_by, sum_by-append,
  lookup_or_absent, IsDistinct, length, All, ltb_ℤ, arith, eq_iff, Bool-cases, inl, inr,
}
use mathlib.Core.List.{append-nil, append_assoc}
use kumquat.Api.{Application, ClusterTopology}
use kumquat.Api.Floats.{Floats}
use kumquat.Scheduler.Waterfill.{desired_replicas, placement_map, placement_total}
use kumquat.Scheduler.Waterfill.Sums.{names_of, IsPlacement}
use kumquat.Framework.{SpreadConstraints}
use kumquat.Scheduler.Slices.{Slices}
use kumquat.Scheduler.Spread.{
  positive_quotas, by_name, build_result, spread_candidates, spread_allocations, spread_quotas,
  select_clusters_spread,
}
use kumquat.Scheduler.Spread.Candidates.{ClusterScore, is_candidate, add_best, used_candidates}
use kumquat.Scheduler.Spread.Quotas.{Allocation, allocations, keep_current}
use kumquat.Scheduler.Spread.Sums.{sum_by-keep_current}

entries : List ClusterTopology → Map ℤ
entries [] = []
entries (t ∷ ts) = (t.name, t.replicas) ∷ entries ts

has_key-entries :
    (name : String) (ts : List ClusterTopology)
    → has_key name (entries ts) ≡ contains name (names_of ts)
unfolding entries has_key contains
has_key-entries name [] = refl
has_key-entries name (t ∷ ts) = ground (arith, has_key-entries name ts)

insert_absent :
    (name : String) (z : ℤ) (m : Map ℤ)
    → has_key name m ≡ false
    → insert name z m ≡ m ++ (name, z) ∷ []
unfolding insert has_key
insert_absent name z [] h = refl
insert_absent name z ((k, v) ∷ m) h = ground (arith, insert_absent name z m)

fresh_after :
    (k : String) (z : ℤ) (m : Map ℤ) (ts : List ClusterTopology)
    → contains k (names_of ts) ≡ false
    → All (λ t. has_key t.name m ≡ false) ts
    → All (λ t. has_key t.name (insert k z m) ≡ false) ts
unfolding contains
fresh_after k z m [] h a = tt
fresh_after k z m (t ∷ ts) h a = (
  ground (arith, a.0, eq_iff k t.name, eq_iff t.name k, has_key-insert k t.name z m),
  fresh_after k z m ts (ground arith) a.1,
)

-- Where no cluster is named twice, the map has the entries of the list, in its order.
placement_map_lem :
    (ts : List ClusterTopology) (m : Map ℤ)
    → IsDistinct (names_of ts)
    → All (λ t. has_key t.name m ≡ false) ts
    → placement_map ts m ≡ m ++ entries ts
unfolding placement_map entries
placement_map_lem [] m d h = sym (append-nil m)
placement_map_lem (t ∷ ts) m d h =
    placement_map_lem ts (insert t.name t.replicas m) d.1
      (fresh_after t.name t.replicas m ts d.0 h.1)
    ∙ ap (λ m'. m' ++ entries ts) (insert_absent t.name t.replicas m h.0)
    ∙ append_assoc m ((t.name, t.replicas) ∷ []) (entries ts)

placement_map-absent :
    (k : String) (ts : List ClusterTopology) (m : Map ℤ)
    → contains k (names_of ts) ≡ false
    → lookup_or (pos 0) k (placement_map ts m) ≡ lookup_or (pos 0) k m
unfolding placement_map contains
placement_map-absent k [] m h = refl
placement_map-absent k (t ∷ ts) m h = ground (
  arith,
  eq_iff t.name k,
  lookup_or-insert (pos 0) t.name k t.replicas m,
  placement_map-absent k ts (insert t.name t.replicas m),
)

placement_map-lookup :
    (ts : List ClusterTopology) (m : Map ℤ)
    → IsDistinct (names_of ts)
    → All (λ t. lookup_or (pos 0) t.name (placement_map ts m) ≡ t.replicas) ts
unfolding placement_map
placement_map-lookup [] m d = tt
placement_map-lookup (t ∷ ts) m d = (
  ground (
    arith,
    placement_map-absent t.name ts (insert t.name t.replicas m) d.0,
    lookup_or-insert (pos 0) t.name t.name t.replicas m,
    eq_iff t.name t.name,
  ),
  placement_map-lookup ts (insert t.name t.replicas m) d.1,
)

has_key-used_candidates :
    (scores : Map ℤ) (name : String) (m : Map ℤ)
    → is_candidate name (used_candidates scores m) ≡ has_key name m
unfolding used_candidates has_key
has_key-used_candidates scores name [] = refl
has_key-used_candidates scores name ((k, v) ∷ m) =
    ground (arith, has_key-used_candidates scores name m)

is_candidate-append :
    (name : String) (xs ys : List ClusterScore)
    → is_candidate name (xs ++ ys) ≡ (is_candidate name xs || is_candidate name ys)
is_candidate-append name [] ys = refl
is_candidate-append name (x ∷ xs) ys = ground (arith, is_candidate-append name xs ys)

nothing_known : (ts : List ClusterTopology) → All (λ t. has_key {V = ℤ} t.name [] ≡ false) ts
unfolding has_key
nothing_known [] = tt
nothing_known (t ∷ ts) = (refl, nothing_known ts)

module _ (h : String → ℤ → ℕ) (none_left : (name : String) → h name (pos 0) ≡ 0) where
  abbrev over : Map ℤ → List ClusterScore → ℕ
  over current list = sum_by (λ c. h c.name (lookup_or (pos 0) c.name current)) list

  -- The candidates that are not in use hold no replicas.
  sum_by-add_best :
      (current : Map ℤ) (max_clusters : ℤ) (scored list : List ClusterScore)
      → ((name : String)
          → is_candidate name list ≡ false
          → h name (lookup_or (pos 0) name current) ≡ 0)
      → over current (add_best max_clusters scored list) ≡ over current list
  unfolding add_best
  sum_by-add_best current max_clusters [] list z = refl
  sum_by-add_best current max_clusters (cs ∷ scored) list z =
      elim (Bool-cases (ltb_ℤ (pos (length list)) max_clusters)) [
        | inr full ↦ rw full refl
        | inl room ↦ elim (Bool-cases (is_candidate cs.name list)) [
          | inl known ↦ rw (room, known) (sum_by-add_best current max_clusters scored list z)
          | inr new ↦
              rw (room, new)
                (ground (
                  arith,
                  z cs.name new,
                  sum_by-append (λ c. h c.name (lookup_or (pos 0) c.name current)) list (cs ∷ []),
                  sum_by-add_best current max_clusters scored (list ++ cs ∷ []) λ name absent.
                      z name (ground (arith, is_candidate-append name list (cs ∷ []))),
                ))
        ]
      ]

  sum_by-used_candidates :
      (scores current : Map ℤ) (ts : List ClusterTopology)
      → All (λ t. lookup_or (pos 0) t.name current ≡ t.replicas) ts
      → over current (used_candidates scores (entries ts)) ≡ sum_by (λ t. h t.name t.replicas) ts
  unfolding used_candidates entries
  sum_by-used_candidates scores current [] a = refl
  sum_by-used_candidates scores current (t ∷ ts) a =
      omega (arith, ap (h t.name) a.0, sum_by-used_candidates scores current ts a.1)

  sum_by-allocations :
      (f : Floats) (weights : Map f.Float) (current : Map ℤ) (list : List ClusterScore)
      → sum_by (λ a. h a.name a.current) (allocations f weights current list) ≡ over current list
  unfolding allocations
  sum_by-allocations f weights current [] = refl
  sum_by-allocations f weights current (cs ∷ list) =
      omega (arith, sum_by-allocations f weights current list)

  -- A sum over the allocations is the sum over the placement so far.
  pub sum_by-spread_allocations :
      (f : Floats) (s : Slices) (constraints : SpreadConstraints) (app : Application)
      (scores : Map ℤ)
      → IsDistinct (names_of app.topology)
      → sum_by (λ a. h a.name a.current) (spread_allocations f s constraints app scores).0
        ≡ sum_by (λ t. h t.name t.replicas) app.topology
  unfolding spread_allocations spread_candidates
  sum_by-spread_allocations f s constraints app scores d =
      let current = placement_map app.topology [] in
      let same : current ≡ entries app.topology =
        placement_map_lem app.topology [] d (nothing_known app.topology) in
      sum_by-allocations f _ current _
      ∙ sum_by-add_best current _ _ (used_candidates scores current) (λ name absent.
        ap (h name) (
          lookup_or_absent (pos 0) name current
            (sym (has_key-used_candidates scores name current) ∙ absent))
        ∙ none_left name)
      ∙ ap (λ m. over current (used_candidates scores m)) same
      ∙ sum_by-used_candidates scores current app.topology (placement_map-lookup app.topology [] d)

module _ (f : Floats) (s : Slices) (constraints : SpreadConstraints) (app : Application)
    (scores : Map ℤ) where
  -- The allocations with the quotas placed so far, which both branches start from.
  abbrev pub kept_allocations : List (Allocation f.Float)
  kept_allocations = keep_current f (spread_allocations f s constraints app scores).0

  pub kept_lem :
      (h : String → ℤ → ℕ)
      → ((name : String) → h name (pos 0) ≡ 0)
      → IsPlacement app.topology
      → sum_by (λ a. h a.name a.quota) kept_allocations
        ≡ sum_by (λ t. h t.name t.replicas) app.topology
  kept_lem h z placed =
      sum_by-keep_current f h (spread_allocations f s constraints app scores).0
      ∙ sum_by-spread_allocations h z f s constraints app scores placed.distinct

  -- The result, where the branch taken returns the allocations `out`.
  pub selected :
      (n c : ℕ)
      → desired_replicas app ≡ pos n
      → placement_total app.topology (pos 0) ≡ pos c
      → (out : List (Allocation f.Float))
      → spread_quotas f s constraints
          (pos n)
          (pos c)
          (spread_allocations f s constraints app scores).1
          (spread_allocations f s constraints app scores).0
        ≡ some out
      → select_clusters_spread f s constraints app scores
        ≡ some (s.sort by_name (positive_quotas out))
  unfolding select_clusters_spread
  selected n c desired current out branch =
      let (allocs, total_weight) = spread_allocations f s constraints app scores in
      let build : ℤ → ℤ → Option (List ClusterTopology) = λ total before.
        build_result f s constraints
          (spread_quotas f s constraints total before total_weight allocs) in
      ap (λ total. build total (placement_total app.topology (pos 0))) desired
      ∙ ap (build (pos n)) current
      ∙ ap (build_result f s constraints) branch
