-- ===== src/Scheduler/Waterfill/Names.antt =====
-- The clusters and the amounts of a placement under the operations of
-- selectClustersStatefulSetWaterfill.
use kumquat.Base.{
  String, ◌≡◌, refl, true, false, ◌||◌, List, [], ◌∷◌, Map, ℤ, pos, ltb_ℤ, is_nil, any, lookup_or,
  insert, keys, contains, contains-add_all, contains-sort_strings, sort_strings-IsDistinct, add_all,
  add_all-IsDistinct, lookup_or-insert, IsDistinct, All, ◌=ˢ◌, if◌then◌else◌, arith, eq_iff,
  Bool-cases, inl, inr,
}
use kumquat.Api.{ClusterTopology}
use kumquat.Scheduler.Waterfill.{placement_map, from_last_used, sorted_clusters}
use kumquat.Scheduler.Waterfill.Sums.{amount, replicas_in, names_of}

contains-keys-insert :
    (j k : String) (v : ℤ) (m : Map ℤ)
    → contains j (keys (insert k v m)) ≡ ((k =ˢ j) || contains j (keys m))
unfolding insert keys contains
contains-keys-insert j k v [] = refl
contains-keys-insert j k v ((i, w) ∷ m) =
    ground (arith, eq_iff i k, eq_iff k j, eq_iff i j, contains-keys-insert j k v m)

pub contains-keys-placement_map :
    (j : String) (ts : List ClusterTopology) (m : Map ℤ)
    → contains j (keys (placement_map ts m)) ≡ (contains j (names_of ts) || contains j (keys m))
unfolding placement_map contains
contains-keys-placement_map j [] m = refl
contains-keys-placement_map j (t ∷ ts) m = ground (
  arith,
  contains-keys-placement_map j ts (insert t.name t.replicas m),
  contains-keys-insert j t.name t.replicas m,
)

pub contains-sorted_clusters :
    (j : String) (scores existing : Map ℤ)
    → contains j (sorted_clusters scores existing)
      ≡ (contains j (keys existing) || contains j (keys scores))
unfolding sorted_clusters contains
contains-sorted_clusters j scores existing = ground (
  arith,
  contains-sort_strings j (add_all (keys existing) (add_all (keys scores) [])),
  contains-add_all j (keys existing) (add_all (keys scores) []),
  contains-add_all j (keys scores) [],
)

pub sorted_clusters-IsDistinct :
    (scores existing : Map ℤ) → IsDistinct (sorted_clusters scores existing)
unfolding sorted_clusters
sorted_clusters-IsDistinct scores existing =
    sort_strings-IsDistinct _
      (add_all-IsDistinct (keys existing) _ (add_all-IsDistinct (keys scores) [] tt))

nonempty_of_contains : (k : String) (xs : List String) → contains k xs ≡ true → is_nil xs ≡ false
unfolding contains
nonempty_of_contains k [] h = cc
nonempty_of_contains k (x ∷ xs) h = refl

pub sorted_clusters_nonempty :
    (scores existing : Map ℤ)
    → is_nil scores ≡ false
    → is_nil (sorted_clusters scores existing) ≡ false
unfolding keys contains
sorted_clusters_nonempty [] existing h = cc
sorted_clusters_nonempty ((k, v) ∷ scores) existing h =
    nonempty_of_contains k _
      (ground (arith, eq_iff k k, contains-sorted_clusters k ((k, v) ∷ scores) existing))

pub All-contains :
    (names xs : List String)
    → ((j : String) → contains j xs ≡ true → contains j names ≡ true)
    → All (λ n. contains n names ≡ true) xs
unfolding contains
All-contains names [] h = tt
All-contains names (x ∷ xs) h =
    (h x (ground (arith, eq_iff x x)), All-contains names xs (λ j c. h j (ground arith)))

pub All-contains_names :
    (names : List String) (ts : List ClusterTopology)
    → ((j : String) → contains j (names_of ts) ≡ true → contains j names ≡ true)
    → All (λ t. contains t.name names ≡ true) ts
unfolding contains
All-contains_names names [] h = tt
All-contains_names names (t ∷ ts) h = (
  h t.name (ground (arith, eq_iff t.name t.name)),
  All-contains_names names ts (λ j c. h j (ground arith)),
)

pub All-from_last_used :
    (existing : Map ℤ) (clusters names : List String)
    → All (λ n. contains n clusters ≡ true) names
    → All (λ n. contains n clusters ≡ true) (from_last_used existing names)
unfolding from_last_used
All-from_last_used existing clusters [] a = tt
All-from_last_used existing clusters (x ∷ xs) a =
    elim (Bool-cases (any (λ n. ltb_ℤ (pos 0) (lookup_or (pos 0) n existing)) xs)) [
      | inl e ↦ rw e (All-from_last_used existing clusters xs a.1)
      | inr e ↦ rw e a
    ]

pub amount-absent :
    (name : String) (ts : List ClusterTopology)
    → contains name (names_of ts) ≡ false
    → replicas_in name ts ≡ 0
unfolding contains
amount-absent name [] h = refl
amount-absent name (t ∷ ts) h = ground (arith, amount-absent name ts)

pub amount-placement_map :
    (name : String) (ts : List ClusterTopology) (m : Map ℤ)
    → IsDistinct (names_of ts)
    → amount name (placement_map ts m)
      ≡ (if contains name (names_of ts) then replicas_in name ts else amount name m)
unfolding placement_map contains
amount-placement_map name [] m d = refl
amount-placement_map name (t ∷ ts) m d = ground (
  arith,
  eq_iff t.name name,
  amount-placement_map name ts (insert t.name t.replicas m) d.1,
  lookup_or-insert (pos 0) t.name name t.replicas m,
)
