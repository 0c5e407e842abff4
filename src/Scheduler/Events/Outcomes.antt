-- ===== src/Scheduler/Events/Outcomes.antt =====
-- What the reconcilers leave in the cache and in the queue.
use kumquat.Base.{
  String, ◌≡◌, refl, sym, Bool, true, false, inl, inr, Option, none, some, lookup, lookup-insert,
  lookup-delete, eq_refl, if◌then◌else◌, Option-cases, IsMap,
}
use kumquat.Api.{ManagedCluster}
use kumquat.Cache.Store.{
  ClusterInfo, ClusterCache, add_cluster, update_cluster, remove_cluster, new_cluster_info,
}
use kumquat.Cache.Consistency.{
  IsConsistent, add_cluster-IsConsistent, remove_cluster-IsConsistent, update_cluster-IsConsistent,
}
use kumquat.Scheduler.Events.{
  Fetched, found, missing, broken, reconcile_cluster, reconcile_found, add_or_update, dummy_cluster,
}

-- The cluster that an entry is about.
abbrev pub cluster_of : {Q : Type 0} → Option (ClusterInfo Q) → Option (ManagedCluster Q)
cluster_of none = none
cluster_of (some info) = some info.cluster

-- The cluster that the cache should know after a Get.
abbrev pub wanted : {Q : Type 0} → Fetched (ManagedCluster Q) → Option (ManagedCluster Q)
wanted (found cluster) = if cluster.deleting then none else some cluster
wanted missing = none
wanted (broken message) = none

-- A fetched object has the name of the request.
abbrev pub IsNamed : {Q : Type 0} → String → Fetched (ManagedCluster Q) → Type 0
IsNamed name (found cluster) = cluster.name ≡ name
IsNamed name missing = Unit
IsNamed name (broken message) = Unit

module _ {Q : Type 0} where
  lookup-remove_cluster :
      (cluster : ManagedCluster Q) (c : ClusterCache Q)
      → lookup cluster.name (remove_cluster cluster c).0.clusters ≡ none
  unfolding remove_cluster
  lookup-remove_cluster cluster c = elim (Option-cases (lookup cluster.name c.clusters)) [
    | inl e ↦ rw (e, remove_cluster) e
    | inr (info, e) ↦
        rw
          (
            e,
            remove_cluster,
            lookup-delete cluster.name cluster.name c.clusters,
            eq_refl cluster.name,
          )
          refl
  ]

  add_cluster_known :
      (cluster : ManagedCluster Q) (info : ClusterInfo Q) (c : ClusterCache Q)
      → lookup cluster.name c.clusters ≡ some info
      → (add_cluster cluster c).0 ≡ c
  unfolding add_cluster
  add_cluster_known cluster info c e = rw (e, add_cluster) refl

  lookup-update_cluster :
      (cluster : ManagedCluster Q) (info : ClusterInfo Q) (c : ClusterCache Q)
      → lookup cluster.name c.clusters ≡ some info
      → lookup cluster.name (update_cluster cluster cluster c).0.clusters
        ≡ some (record info { cluster = cluster })
  unfolding update_cluster
  lookup-update_cluster cluster info c e =
      rw
        (
          e,
          update_cluster,
          lookup-insert cluster.name cluster.name (record info { cluster = cluster }) c.clusters,
          eq_refl cluster.name,
        )
        refl

  lookup-add_or_update :
      (cluster : ManagedCluster Q) (c : ClusterCache Q)
      → cluster_of (lookup cluster.name (add_or_update cluster c).clusters) ≡ some cluster
  unfolding add_or_update add_cluster update_cluster
  lookup-add_or_update cluster c = elim (Option-cases (lookup cluster.name c.clusters)) [
    | inl e ↦
        rw (e, add_or_update)
          (rw
            (
              e,
              add_cluster,
              lookup-insert cluster.name cluster.name (new_cluster_info cluster) c.clusters,
              eq_refl cluster.name,
            )
            refl)
    | inr (info, e) ↦
        rw (e, add_or_update)
          (rw (add_cluster_known cluster info c e, lookup-update_cluster cluster info c e) refl)
  ]

  lookup-reconcile_found :
      (deleting : Bool) (cluster : ManagedCluster Q) (c : ClusterCache Q)
      → cluster_of (lookup cluster.name (reconcile_found deleting cluster c).clusters)
        ≡ (if deleting then none else some cluster)
  unfolding reconcile_found
  lookup-reconcile_found true cluster c = rw (lookup-remove_cluster cluster c) refl
  lookup-reconcile_found false cluster c = lookup-add_or_update cluster c

  -- After the reconciliation of a cluster the cache knows it, in the version that was fetched, or,
  -- where it was not fetched or is being deleted, does not know it, provided that the fetched
  -- cluster has the name of the request.
  pub reconcile_cluster-wanted :
      (name : String) (answer : Fetched (ManagedCluster Q)) (named : IsNamed name answer)
      (c : ClusterCache Q)
      → cluster_of (lookup name (reconcile_cluster name answer c).0.clusters) ≡ wanted answer
  unfolding reconcile_cluster
  reconcile_cluster-wanted name (found cluster) named c =
      rw (sym named) (lookup-reconcile_found cluster.deleting cluster c)
  reconcile_cluster-wanted name missing named c =
      rw (lookup-remove_cluster (dummy_cluster name) c) refl
  reconcile_cluster-wanted name (broken message) named c =
      rw (lookup-remove_cluster (dummy_cluster name) c) refl

  abbrev pub HasProperLabels : Fetched (ManagedCluster Q) → Type 0
  HasProperLabels (found cluster) = IsMap cluster.labels
  HasProperLabels missing = Unit
  HasProperLabels (broken message) = Unit

  add_or_update-IsConsistent :
      (cluster : ManagedCluster Q) (c : ClusterCache Q)
      → IsConsistent c
      → IsMap cluster.labels
      → IsConsistent (add_or_update cluster c)
  unfolding add_or_update
  add_or_update-IsConsistent cluster c v p =
      let added = add_cluster-IsConsistent cluster c v p in
      elim (Option-cases (add_cluster cluster c).1) [
        | inl e ↦ rw (e, add_or_update) added
        | inr (fault, e) ↦
            rw (e, add_or_update) (update_cluster-IsConsistent cluster cluster _ added p refl)
      ]

  reconcile_found-IsConsistent :
      (deleting : Bool) (cluster : ManagedCluster Q) (c : ClusterCache Q)
      → IsConsistent c
      → IsMap cluster.labels
      → IsConsistent (reconcile_found deleting cluster c)
  unfolding reconcile_found
  reconcile_found-IsConsistent true cluster c v p = remove_cluster-IsConsistent cluster c v
  reconcile_found-IsConsistent false cluster c v p = add_or_update-IsConsistent cluster c v p

  -- The reconciliation of a cluster keeps the label index in agreement with the clusters, provided
  -- that a fetched cluster has no label key twice.
  pub reconcile_cluster-IsConsistent :
      (name : String) (answer : Fetched (ManagedCluster Q)) (proper : HasProperLabels answer)
      (c : ClusterCache Q) (consistent : IsConsistent c)
      → IsConsistent (reconcile_cluster name answer c).0
  unfolding reconcile_cluster
  reconcile_cluster-IsConsistent name (found cluster) proper c consistent =
      reconcile_found-IsConsistent cluster.deleting cluster c consistent proper
  reconcile_cluster-IsConsistent name missing proper c consistent =
      remove_cluster-IsConsistent (dummy_cluster name) c consistent
  reconcile_cluster-IsConsistent name (broken message) proper c consistent =
      remove_cluster-IsConsistent (dummy_cluster name) c consistent
