-- ===== src/Scheduler/Waterfill.antt =====
-- selectClustersStatefulSetWaterfill of engine/internal/manager/scheduler/scheduler.go.
pub mod Sums
pub mod Fill
pub mod Drain
pub mod Names
pub mod Total
pub mod Select
use kumquat.Base.{
  String, Bool, true, false, not, ◌&&◌, ◌||◌, List, [], ◌∷◌, ◌++◌, Option, none, some, Map, ℤ, pos,
  ltb_ℤ, eqb_ℤ, add32, sub32, lookup, lookup_or, insert, keys, has_key, add_all, sort_strings, any,
  is_nil, if◌then◌else◌,
}
use mathlib.Core.List.{reverse}
use kumquat.Api.{Application, ClusterTopology, Resources}
use kumquat.Cache.Store.{ClusterInfo, Snapshot}
use kumquat.Plugins.Capacity.{calculate_max_replicas}

-- *app.Spec.Replicas, or 1
abbrev pub desired_replicas : Application → ℤ
desired_replicas app = elim app.replicas [ none ↦ pos 1 | some n ↦ n ]

unfoldable pub placement_map : List ClusterTopology → Map ℤ → Map ℤ
placement_map [] acc = acc
placement_map (t ∷ ts) acc = placement_map ts (insert t.name t.replicas acc)

-- currentTotal
unfoldable pub placement_total : List ClusterTopology → ℤ → ℤ
placement_total [] total = total
placement_total (t ∷ ts) total = placement_total ts (add32 total t.replicas)

-- The names from the last one with replicas, or all of them where no name has any: the clusters
-- from startIndex on.
pub from_last_used : Map ℤ → List String → List String
from_last_used existing [] = []
from_last_used existing (name ∷ names) =
    let later = from_last_used existing names in
    if any (λ n. ltb_ℤ (pos 0) (lookup_or (pos 0) n existing)) names then later else name ∷ names

-- How many of the `needed` replicas fit beside `current` under `cap`.
pub take_for : ℤ → ℤ → ℤ → ℤ
take_for needed cap current =
    let room = sub32 cap current in
    let room' = if ltb_ℤ room (pos 0) then pos 0 else room in
    if ltb_ℤ room' needed then room' else needed

pub fill : (String → ℤ → ℤ) → List String → Map ℤ → ℤ → Map ℤ × ℤ
fill cap [] placement needed = (placement, needed)
fill cap (name ∷ names) placement needed =
    let current = lookup_or (pos 0) name placement in
    let take = take_for needed (cap name current) current in
    let rest = fill cap names (insert name (add32 current take) placement) (sub32 needed take) in
    if eqb_ℤ needed (pos 0) then (placement, needed) else rest

pub last_name : List String → Option String
last_name [] = none
last_name (name ∷ names) = let last = last_name names in if is_nil names then some name else last

-- What is still needed goes to the last cluster.
pub overflow : List String → Map ℤ × ℤ → Map ℤ
overflow names (placement, needed) = elim (last_name names) [
  | none ↦ placement
  | some last ↦
      if ltb_ℤ (pos 0) needed
      then insert last (add32 (lookup_or (pos 0) last placement) needed) placement
      else placement
]

-- How many replicas go of `current`.
pub drop_for : ℤ → ℤ → ℤ
drop_for remove current = if ltb_ℤ current remove then current else remove

pub drain : List String → Map ℤ → ℤ → Map ℤ × ℤ
drain [] placement remove = (placement, remove)
drain (name ∷ names) placement remove =
    let current = lookup_or (pos 0) name placement in
    let drop = drop_for remove current in
    let skip = drain names placement remove in
    let rest = drain names (insert name (sub32 current drop) placement) (sub32 remove drop) in
    if eqb_ℤ remove (pos 0)
    then (placement, remove)
    else (if eqb_ℤ current (pos 0) then skip else rest)

pub positive_entries : List String → Map ℤ → List ClusterTopology
positive_entries [] placement = []
positive_entries (name ∷ names) placement =
    let count = lookup_or (pos 0) name placement in
    let rest = positive_entries names placement in
    if ltb_ℤ (pos 0) count then record { name = name; replicas = count } ∷ rest else rest

-- The union of the scored and the used clusters, in the order of their names.
pub sorted_clusters : Map ℤ → Map ℤ → List String
sorted_clusters scores existing = sort_strings (add_all (keys existing) (add_all (keys scores) []))

-- The body of the function, over the capacity of each cluster.
pub waterfill : (String → ℤ → ℤ) → Map ℤ → List ClusterTopology → ℤ → List ClusterTopology
waterfill cap scores topology total =
    let existing = placement_map topology [] in
    let current = placement_total topology (pos 0) in
    let names = sorted_clusters scores existing in
    let up =
      overflow names (fill cap (from_last_used existing names) existing (sub32 total current)) in
    let down = (drain (reverse names) existing (sub32 current total)).0 in
    positive_entries names
      (if ltb_ℤ current total then up else (if ltb_ℤ total current then down else existing))

abbrev pub max_int32 : ℤ
max_int32 = pos 2147483647

module _ (r : Resources) where
  open r use {Quantity}

  -- The capacity of a cluster that has `current` replicas.
  pub cluster_capacity : Application → Map ℤ → Snapshot Quantity → String → ℤ → ℤ
  cluster_capacity app scores snapshot name current = elim (lookup name snapshot.clusters) [
    | none ↦ if has_key name scores then max_int32 else current
    | some info ↦
        let calc = calculate_max_replicas r info.cluster app in
        if not (ltb_ℤ calc (pos 0)) && ltb_ℤ calc max_int32 then calc else max_int32
  ]

  pub select_clusters_waterfill : Application → Map ℤ → Snapshot Quantity → List ClusterTopology
  select_clusters_waterfill app scores snapshot =
      waterfill (cluster_capacity app scores snapshot) scores app.topology (desired_replicas app)
