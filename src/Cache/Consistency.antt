-- ===== src/Cache/Consistency.antt =====
-- The label index beside the clusters of the cache, scheduler/cache/cache.go.
use kumquat.Base.{
  String, ◌≡◌, refl, [], Option, none, some, Map, lookup, insert, IsMap, lookup-insert,
  lookup-delete, ◌=ˢ◌, if◌then◌else◌, arith, eq_iff, Option-cases, inl, inr,
}
use kumquat.Api.{ManagedCluster}
use kumquat.Cache.Indexer
use kumquat.Cache.Indexer.{new_indexer}
use kumquat.Cache.Indexer.Agreement.{
  IsIndexed, new_indexer-IsIndexed, add-IsIndexed, remove-IsIndexed, lookup-remove, lookup-add,
}
use kumquat.Cache.Store.{
  ClusterInfo, ClusterCache, new_cluster_info, add_cluster, update_cluster, remove_cluster,
}

-- The labels of a cluster that the cache may know.
abbrev pub labels_of : {Q : Type 0} → Option (ClusterInfo Q) → Option (Map String)
labels_of none = none
labels_of (some info) = some info.cluster.labels

pub record IsConsistent {Q : Type 0} (c : ClusterCache Q) : Type 0 where
  pub indexed : IsIndexed c.indexer
  pub same_labels :
      (n : String) → lookup n c.indexer.cluster_labels ≡ labels_of (lookup n c.clusters)

module _ {Q : Type 0} where
  pub new_cache-IsConsistent :
      IsConsistent {Q = Q} (record { clusters = []; indexer = new_indexer })
  unfolding new_indexer lookup
  new_cache-IsConsistent = record { indexed = new_indexer-IsIndexed; same_labels = λ n. refl }

  -- A cluster that joins, with its entry and its labels.
  join-IsConsistent :
      (key name : String) (info : ClusterInfo Q) (infos : Map (ClusterInfo Q))
      (ix : Indexer.SimpleIndexer)
      → name ≡ key
      → IsIndexed ix
      → ((n : String)
          → lookup n ix.cluster_labels ≡ (if name =ˢ n then none else labels_of (lookup n infos)))
      → IsMap info.cluster.labels
      → IsConsistent (record {
        clusters = insert key info infos;
        indexer = Indexer.add name info.cluster.labels ix;
      })
  join-IsConsistent key name info infos ix same h others m = record {
    indexed =
        add-IsIndexed name info.cluster.labels ix h (ground (arith, eq_iff name name, others name))
          m;
    same_labels = λ n. ground (
      arith,
      eq_iff name n,
      eq_iff key n,
      others n,
      lookup-add name n info.cluster.labels ix,
      lookup-insert key n info infos,
    );
  }

  pub add_cluster-IsConsistent :
      (cluster : ManagedCluster Q) (c : ClusterCache Q)
      → IsConsistent c
      → IsMap cluster.labels
      → IsConsistent (add_cluster cluster c).0
  unfolding add_cluster
  add_cluster-IsConsistent cluster c v m = elim (Option-cases (lookup cluster.name c.clusters)) [
    | inl e ↦
        rw (e, add_cluster)
          (join-IsConsistent cluster.name cluster.name (new_cluster_info cluster) c.clusters
            c.indexer refl v.indexed (λ n. ground (arith, eq_iff cluster.name n, v.same_labels n))
            m)
    | inr (info, e) ↦ rw (e, add_cluster) v
  ]

  pub remove_cluster-IsConsistent :
      (cluster : ManagedCluster Q) (c : ClusterCache Q)
      → IsConsistent c
      → IsConsistent (remove_cluster cluster c).0
  unfolding remove_cluster
  remove_cluster-IsConsistent cluster c v = elim (Option-cases (lookup cluster.name c.clusters)) [
    | inl e ↦ rw (e, remove_cluster) v
    | inr (info, e) ↦
        rw (e, remove_cluster)
          (record {
            indexed = remove-IsIndexed cluster.name c.indexer v.indexed;
            same_labels = λ n. ground (
              arith,
              eq_iff cluster.name n,
              v.same_labels n,
              lookup-remove cluster.name c.indexer v.indexed n,
              lookup-delete cluster.name n c.clusters,
            );
          })
  ]

  pub update_cluster-IsConsistent :
      (old new : ManagedCluster Q) (c : ClusterCache Q)
      → IsConsistent c
      → IsMap new.labels
      → new.name ≡ old.name
      → IsConsistent (update_cluster old new c).0
  unfolding update_cluster
  update_cluster-IsConsistent old new c v m same =
      elim (Option-cases (lookup old.name c.clusters)) [
        | inl e ↦ rw (e, update_cluster) v
        | inr (info, e) ↦
            rw (e, update_cluster)
              (join-IsConsistent old.name new.name (record info { cluster = new }) c.clusters
                (Indexer.remove old.name c.indexer) same
                (remove-IsIndexed old.name c.indexer v.indexed)
                (λ n. ground (
                  arith,
                  eq_iff old.name n,
                  eq_iff new.name n,
                  v.same_labels n,
                  lookup-remove old.name c.indexer v.indexed n,
                ))
                m)
      ]
