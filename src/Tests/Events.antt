-- ===== src/Tests/Events.antt =====
-- Tests of the reconcilers.
use Prim.Native.String.{◌++◌}
use kumquat.Base.{◌≡◌, refl, some, ℤ, [], ◌∷◌, lookup, has_key}
use kumquat.Cache.Indexer.{new_indexer}
use kumquat.Cache.Store.{ClusterCache, new_cluster_info}
use kumquat.Cache.Consistency.{IsConsistent, new_cache-IsConsistent}
use kumquat.Queueing.{app_key, new_scheduling_queue}
use kumquat.Scheduler.Events.{found, reconcile_cluster, reconcile_application, Shared}
use kumquat.Scheduler.Events.Outcomes.{
  cluster_of, reconcile_cluster-wanted, reconcile_cluster-IsConsistent,
}
use kumquat.Scheduler.Events.Assumptions.{IsTracked, reconcile_application-IsTracked}
use kumquat.Tests.Samples.{whole_units, in_zone, stateful_app}
use kumquat.Tests.Queues.{plain_list}

abbrev empty : ClusterCache ℤ
empty = record { clusters = []; indexer = new_indexer }

abbrev one_known : ClusterCache ℤ
one_known = record {
  clusters = ("east", new_cluster_info (in_zone "east" "a")) ∷ [];
  indexer = new_indexer;
}

reconcile_cluster-wanted_example :
    cluster_of
      (lookup "east" (reconcile_cluster "east" (found (in_zone "east" "b")) one_known).0.clusters)
    ≡ some (in_zone "east" "b")
reconcile_cluster-wanted_example =
    reconcile_cluster-wanted "east" (found (in_zone "east" "b")) refl one_known

reconcile_cluster-IsConsistent_example :
    IsConsistent (reconcile_cluster "east" (found (in_zone "east" "b")) empty).0
unfolding has_key
reconcile_cluster-IsConsistent_example =
    reconcile_cluster-IsConsistent "east" (found (in_zone "east" "b")) (refl, tt) empty
      new_cache-IsConsistent

abbrev shared : Shared plain_list whole_units
shared = record { queue = new_scheduling_queue plain_list; cache = one_known }

reconcile_application-IsTracked_example :
    IsTracked plain_list whole_units
      ("prod" ++ "/" ++ "db")
      (found (stateful_app 3 []))
      (reconcile_application plain_list whole_units "prod" "db"
        (found (stateful_app 3 []))
        shared).0
unfolding app_key
reconcile_application-IsTracked_example =
    reconcile_application-IsTracked plain_list whole_units "prod" "db" (found (stateful_app 3 []))
      shared refl
