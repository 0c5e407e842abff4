-- ===== src/Scheduler/Prefilter/Live.antt =====
-- The prefilter over snapshots of a cache that the scheduler and the event handlers call.
use kumquat.Base.{
  String, ◌≡◌, refl, sym, ◌↔◌, ◌∙◌, List, [], ◌∷◌, Map, lookup, has_key, IsMap, All, Member, arith,
}
use kumquat.Api.{Application, ManagedCluster, Resources}
use kumquat.Framework.{CycleState, FilterPlugin}
use kumquat.Cache.Store.{ClusterInfo, ClusterCache, snapshot_info, snapshot_infos, snapshot}
use kumquat.Cache.Consistency.{IsConsistent, labels_of}
use kumquat.Cache.Histories.{Call, IsProper, run, run-IsConsistent}
use kumquat.Plugins.Affinity
use kumquat.Scheduler.Prefilter.{prefilter_by_affinity, feasible_clusters, all_cluster_infos}
use kumquat.Scheduler.Prefilter.Complete.{as_cache, prefilter_feasible_iff}

module _ (r : Resources) where
  labels_of-snapshot_infos :
      (n : String) (infos : Map (ClusterInfo r.Quantity))
      → labels_of (lookup n (snapshot_infos r infos)) ≡ labels_of (lookup n infos)
  unfolding snapshot_infos snapshot_info lookup
  labels_of-snapshot_infos n [] = refl
  labels_of-snapshot_infos n ((name, info) ∷ infos) =
      ground (arith, labels_of-snapshot_infos n infos)

  has_key-snapshot_infos :
      (n : String) (infos : Map (ClusterInfo r.Quantity))
      → has_key n (snapshot_infos r infos) ≡ has_key n infos
  unfolding snapshot_infos has_key
  has_key-snapshot_infos n [] = refl
  has_key-snapshot_infos n ((name, info) ∷ infos) = ground (arith, has_key-snapshot_infos n infos)

  snapshot_infos-IsMap :
      (infos : Map (ClusterInfo r.Quantity)) → IsMap infos → IsMap (snapshot_infos r infos)
  unfolding snapshot_infos
  snapshot_infos-IsMap [] h = tt
  snapshot_infos-IsMap ((name, info) ∷ infos) h =
      (has_key-snapshot_infos name infos ∙ h.0, snapshot_infos-IsMap infos h.1)

  snapshot-IsConsistent :
      (c : ClusterCache r.Quantity) → IsConsistent c → IsConsistent (as_cache (snapshot r c))
  unfolding snapshot
  snapshot-IsConsistent c v = record {
    indexed = v.indexed;
    same_labels = λ n. v.same_labels n ∙ sym (labels_of-snapshot_infos n c.clusters);
  }

  -- On the snapshot of the cache after any history of calls, a cluster is feasible among the
  -- prefiltered clusters exactly when it is feasible among all clusters, where the history starts
  -- at a consistent cache, the affinity plugin is one of the filter plugins, each cluster object
  -- that is added or updated has no label key twice, and the cache knows no name twice.
  pub live_feasible_iff :
      (xs : List (Call r)) (start : ClusterCache r.Quantity) (proper : All (IsProper r) xs)
      (consistent : IsConsistent start) (unique : IsMap (run r xs start).clusters)
      (pls : List (FilterPlugin r.Quantity)) (has : Member Affinity.filter_plugin pls)
      (state : CycleState) (app : Application) (c : ManagedCluster r.Quantity)
      → Member c (
          feasible_clusters pls state app (prefilter_by_affinity app (snapshot r (run r xs start))))
        ↔ Member c (
            feasible_clusters pls state app
              (all_cluster_infos (snapshot r (run r xs start)).clusters))
  unfolding snapshot
  live_feasible_iff xs start proper consistent unique pls has state app c =
      prefilter_feasible_iff pls state app (snapshot r (run r xs start)) c has
        (snapshot-IsConsistent (run r xs start) (run-IsConsistent r xs start proper consistent))
        (snapshot_infos-IsMap (run r xs start).clusters unique)
