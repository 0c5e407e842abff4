-- ===== src/Tests/Filling.antt =====
-- Tests of the water filling: ten replicas over two clusters that hold some already.
use kumquat.Base.{◌≡◌, refl, ◌≤◌, contains, List, [], ◌∷◌, Map, ℤ, pos, arith}
use kumquat.Api.{ClusterTopology}
use kumquat.Cache.Store.{Snapshot, new_cluster_info}
use kumquat.Cache.Indexer.{new_indexer}
use kumquat.Scheduler.Waterfill.{select_clusters_waterfill}
use kumquat.Scheduler.Waterfill.Sums.{total_replicas, replicas_in, IsPlacement}
use kumquat.Scheduler.Waterfill.Select.{
  select_waterfill_total, select_waterfill_grows, select_waterfill_shrinks,
}
use kumquat.Tests.Samples.{whole_units, in_zone, sized, stateful_app}

abbrev placed_before : List ClusterTopology
placed_before = sized "east" 3 ∷ sized "west" 2 ∷ []

placed_before-IsPlacement : IsPlacement placed_before
unfolding contains
placed_before-IsPlacement = record { natural = (refl, (refl, tt)); distinct = (refl, (refl, tt)) }

abbrev scores : Map ℤ
scores = ("west", pos 10) ∷ ("south", pos 90) ∷ []

abbrev clusters : Snapshot ℤ
clusters = record {
  clusters =
      ("west", new_cluster_info (in_zone "west" "a"))
      ∷ ("south", new_cluster_info (in_zone "south" "a"))
      ∷ [];
  indexer = new_indexer;
}

select_waterfill_total_example :
    total_replicas
      (select_clusters_waterfill whole_units (stateful_app 10 placed_before) scores clusters)
    ≡ 10
select_waterfill_total_example =
    select_waterfill_total whole_units (stateful_app 10 placed_before) scores clusters 10 refl refl
      placed_before-IsPlacement (omega arith) (omega arith)

select_waterfill_grows_example :
    replicas_in "west" placed_before
    ≤ replicas_in "west"
        (select_clusters_waterfill whole_units (stateful_app 10 placed_before) scores clusters)
select_waterfill_grows_example =
    select_waterfill_grows whole_units (stateful_app 10 placed_before) scores clusters 10 refl refl
      placed_before-IsPlacement (omega arith) (omega arith) (omega arith) "west"

select_waterfill_shrinks_example :
    replicas_in "west"
      (select_clusters_waterfill whole_units (stateful_app 4 placed_before) scores clusters)
    ≤ replicas_in "west" placed_before
select_waterfill_shrinks_example =
    select_waterfill_shrinks whole_units (stateful_app 4 placed_before) scores clusters 4 refl refl
      placed_before-IsPlacement (omega arith) (omega arith) (omega arith) "west"
