-- ===== src/Tests/Caching.antt =====
-- Tests of the cache and of the prefilter.
use kumquat.Base.{
  lookup, insert, delete, has_key, refl, ◌↔◌, List, [], ◌∷◌, Member, IsMap, inl, inr, ℤ,
}
use kumquat.Framework.{FilterPlugin, new_cycle_state}
use kumquat.Cache.Indexer.{new_indexer}
use kumquat.Cache.Store.{
  snapshot, ClusterCache, Snapshot, add_cluster, update_cluster, remove_cluster,
}
use kumquat.Cache.Consistency.{IsConsistent, new_cache-IsConsistent}
use kumquat.Cache.Histories.{Call, adds, removes, updates, call, run, run-IsConsistent}
use kumquat.Plugins.Affinity
use kumquat.Plugins.Health
use kumquat.Scheduler.Prefilter.{feasible_clusters, prefilter_by_affinity, all_cluster_infos}
use kumquat.Scheduler.Prefilter.Complete.{prefilter_feasible_iff}
use kumquat.Scheduler.Prefilter.Live.{live_feasible_iff}
use kumquat.Tests.Samples.{whole_units, in_zone, stateful_app}

abbrev pub empty_cache : ClusterCache ℤ
empty_cache = record { clusters = []; indexer = new_indexer }

-- East moves from zone a to zone b.
abbrev pub history : List (Call whole_units)
history =
    adds (in_zone "east" "a")
    ∷ adds (in_zone "west" "a")
    ∷ updates (in_zone "east" "b")
    ∷ removes (in_zone "gone" "b")
    ∷ []

abbrev pub two_zones : Snapshot ℤ
two_zones = record {
  clusters = (run whole_units history empty_cache).clusters;
  indexer = (run whole_units history empty_cache).indexer;
}

pub history-IsConsistent : IsConsistent (run whole_units history empty_cache)
unfolding has_key
history-IsConsistent =
    run-IsConsistent whole_units history empty_cache
      ((refl, tt), ((refl, tt), ((refl, tt), (tt, tt)))) new_cache-IsConsistent

run-IsConsistent_example : IsConsistent (run whole_units history empty_cache)
unfolding has_key
run-IsConsistent_example =
    run-IsConsistent whole_units history empty_cache
      ((refl, tt), ((refl, tt), ((refl, tt), (tt, tt)))) new_cache-IsConsistent

abbrev plugins : List (FilterPlugin ℤ)
plugins = Health.filter_plugin ∷ Affinity.filter_plugin ∷ []

pub two_zones-IsMap : IsMap two_zones.clusters
unfolding run call add_cluster update_cluster remove_cluster lookup insert delete has_key
two_zones-IsMap = (refl, (refl, tt))

prefilter_feasible_iff_example :
    Member (in_zone "west" "a") (
      feasible_clusters plugins new_cycle_state
        (stateful_app 3 [])
        (prefilter_by_affinity (stateful_app 3 []) two_zones))
    ↔ Member (in_zone "west" "a") (
        feasible_clusters plugins new_cycle_state
          (stateful_app 3 [])
          (all_cluster_infos two_zones.clusters))
prefilter_feasible_iff_example =
    prefilter_feasible_iff plugins new_cycle_state (stateful_app 3 []) two_zones
      (in_zone "west" "a") (inr (inl refl)) history-IsConsistent two_zones-IsMap

live_feasible_iff_example :
    Member (in_zone "west" "a") (
      feasible_clusters plugins new_cycle_state (stateful_app 3 []) (
        prefilter_by_affinity
          (stateful_app 3 [])
          (snapshot whole_units (run whole_units history empty_cache))))
    ↔ Member (in_zone "west" "a") (
        feasible_clusters plugins new_cycle_state
          (stateful_app 3 [])
          (all_cluster_infos (snapshot whole_units (run whole_units history empty_cache)).clusters))
unfolding has_key
live_feasible_iff_example =
    live_feasible_iff whole_units history empty_cache
      ((refl, tt), ((refl, tt), ((refl, tt), (tt, tt)))) new_cache-IsConsistent two_zones-IsMap
      plugins (inr (inl refl)) new_cycle_state (stateful_app 3 []) (in_zone "west" "a")
