-- ===== src/Cache/Store.antt =====
-- The cluster cache of engine/internal/manager/scheduler/cache/cache.go and interface.go. An
-- operation returns the new cache and its error, if any.
use kumquat.Base.{
  ℕ, zero, suc, String, ◌||◌, List, [], ◌∷◌, Option, none, some, Map, ℤ, pos, negsuc, lookup,
  lookup_or, insert, delete, has_key, if◌then◌else◌,
}
use kumquat.Api.{Application, ManagedCluster, Resources, ResourceList, ResourceSummary}
use kumquat.Cache.Indexer.{SimpleIndexer, new_indexer}
use kumquat.Cache.Indexer
use kumquat.Cache.Requests.{calculate_pod_resources}

pub record AssumedApplicationInfo (Q : Type 0) : Type 0 where
  pub resources : ResourceList Q
  pub replicas : ℤ

pub record ClusterInfo (Q : Type 0) : Type 0 where
  pub cluster : ManagedCluster Q
  pub requested_resources : ResourceList Q
  pub assumed_applications : Map (AssumedApplicationInfo Q)

pub record ClusterCache (Q : Type 0) : Type 0 where
  pub clusters : Map (ClusterInfo Q)
  pub indexer : SimpleIndexer

pub record Snapshot (Q : Type 0) : Type 0 where
  pub clusters : Map (ClusterInfo Q)
  pub indexer : SimpleIndexer

pub data Fault : Type 0 where
  already_exists does_not_exist : String → Fault

module _ {Q : Type 0} where
  abbrev pub new_cluster_info : ManagedCluster Q → ClusterInfo Q
  new_cluster_info cluster = record {
    cluster = cluster;
    requested_resources = [];
    assumed_applications = [];
  }

  unfoldable pub add_cluster : ManagedCluster Q → ClusterCache Q → ClusterCache Q × Option Fault
  add_cluster cluster c = elim (lookup cluster.name c.clusters) [
    | some info ↦ (c, some (already_exists cluster.name))
    | none ↦ (
      record {
        clusters = insert cluster.name (new_cluster_info cluster) c.clusters;
        indexer = Indexer.add cluster.name cluster.labels c.indexer;
      },
      none,
    )
  ]

  unfoldable pub update_cluster :
      ManagedCluster Q → ManagedCluster Q → ClusterCache Q → ClusterCache Q × Option Fault
  update_cluster old new c = elim (lookup old.name c.clusters) [
    | none ↦ (c, some (does_not_exist old.name))
    | some info ↦ (
      record {
        clusters = insert old.name (record info { cluster = new }) c.clusters;
        indexer = Indexer.add new.name new.labels (Indexer.remove old.name c.indexer);
      },
      none,
    )
  ]

  unfoldable pub remove_cluster : ManagedCluster Q → ClusterCache Q → ClusterCache Q × Option Fault
  remove_cluster cluster c = elim (lookup cluster.name c.clusters) [
    | none ↦ (c, some (does_not_exist cluster.name))
    | some info ↦ (
      record {
        clusters = delete cluster.name c.clusters;
        indexer = Indexer.remove cluster.name c.indexer;
      },
      none,
    )
  ]

-- The rounds of `for i := int32(1); i < replicas; i++`.
abbrev pub rounds_after_first : ℤ → ℕ
rounds_after_first (pos zero) = 0
rounds_after_first (pos (suc n)) = n
rounds_after_first (negsuc n) = 0

module _ (r : Resources) where
  open r use {Quantity, none_of, add, sub, is_zero, is_negative}

  -- summary.Allocated[name] += quantity, for each requested resource
  add_requested : ResourceList Quantity → ResourceList Quantity → ResourceList Quantity
  add_requested allocated [] = allocated
  add_requested allocated ((name, quantity) ∷ reqs) =
      add_requested (insert name (add (lookup_or none_of name allocated) quantity) allocated) reqs

  with_requested :
      ResourceList Quantity → List (ResourceSummary Quantity) → List (ResourceSummary Quantity)
  with_requested requested [] = []
  with_requested requested (s ∷ summaries) =
      record s { allocated = add_requested s.allocated requested } ∷ summaries

  -- The clone of a cluster's entry that a snapshot holds.
  unfoldable pub snapshot_info : ClusterInfo Quantity → ClusterInfo Quantity
  unfolding with_requested add_requested
  snapshot_info info = record info {
    cluster = record (info.cluster) {
      resource_summary = with_requested info.requested_resources info.cluster.resource_summary;
    };
  }

  unfoldable pub snapshot_infos : Map (ClusterInfo Quantity) → Map (ClusterInfo Quantity)
  snapshot_infos [] = []
  snapshot_infos ((name, info) ∷ infos) = (name, snapshot_info info) ∷ snapshot_infos infos

  unfoldable pub snapshot : ClusterCache Quantity → Snapshot Quantity
  unfolding snapshot_infos
  snapshot c = record { clusters = snapshot_infos c.clusters; indexer = c.indexer }

  pub add_times : ℕ → Quantity → Quantity → Quantity
  add_times zero one total = total
  add_times (suc n) one total = add_times n one (add total one)

  -- The loop over the requests of one pod: the total for the application, and the aggregate.
  unfoldable pub assume_requests :
      ℤ
      → ResourceList Quantity
      → ResourceList Quantity × ResourceList Quantity
      → ResourceList Quantity × ResourceList Quantity
  assume_requests replicas [] acc = acc
  assume_requests replicas ((name, quantity) ∷ reqs) (total, requested) =
      let q = add_times (rounds_after_first replicas) quantity quantity in
      assume_requests replicas reqs
        (insert name q total, insert name (add (lookup_or none_of name requested) q) requested)

  abbrev pub assume_in :
      String → ℤ → ResourceList Quantity → ClusterInfo Quantity → ClusterInfo Quantity
  assume_in key replicas reqs info =
      let (total, requested) = assume_requests replicas reqs ([], info.requested_resources) in
      record info {
        requested_resources = requested;
        assumed_applications =
            insert key (record { resources = total; replicas = replicas })
              info.assumed_applications;
      }

  -- `key` is the application's "namespace/name".
  unfoldable pub assume_application :
      Application
      → String
      → String
      → ℤ
      → ClusterCache Quantity
      → ClusterCache Quantity × Option Fault
  assume_application app key cluster_name replicas c = elim (lookup cluster_name c.clusters) [
    | none ↦ (c, some (does_not_exist cluster_name))
    | some info ↦ elim (calculate_pod_resources r app) [
      | none ↦ (c, none)
      | some reqs ↦ if has_key key info.assumed_applications then (c, none) else (
        record c { clusters = insert cluster_name (assume_in key replicas reqs info) c.clusters },
        none,
      )
    ]
  ]

  -- agg -= quantity, and the entry goes when nothing is left
  unfoldable pub forget_requests :
      ResourceList Quantity → ResourceList Quantity → ResourceList Quantity
  forget_requests [] requested = requested
  forget_requests ((name, quantity) ∷ resources) requested =
      let agg = sub (lookup_or none_of name requested) quantity in
      forget_requests resources (
        if is_zero agg || is_negative agg then delete name requested else insert name agg requested)

  abbrev pub forget_in : String → ClusterInfo Quantity → ClusterInfo Quantity
  forget_in key info = elim (lookup key info.assumed_applications) [
    | none ↦ info
    | some assumed ↦ record info {
      requested_resources = forget_requests assumed.resources info.requested_resources;
      assumed_applications = delete key info.assumed_applications;
    }
  ]

  unfoldable pub forget_application :
      String → String → ClusterCache Quantity → ClusterCache Quantity × Option Fault
  forget_application key cluster_name c = elim (lookup cluster_name c.clusters) [
    | none ↦ (c, some (does_not_exist cluster_name))
    | some info ↦
        (record c { clusters = insert cluster_name (forget_in key info) c.clusters }, none)
  ]

  unfoldable pub forget_everywhere :
      String → Map (ClusterInfo Quantity) → Map (ClusterInfo Quantity)
  forget_everywhere key [] = []
  forget_everywhere key ((name, info) ∷ infos) =
      (name, forget_in key info) ∷ forget_everywhere key infos

  unfoldable pub remove_assumed_application : String → ClusterCache Quantity → ClusterCache Quantity
  unfolding forget_everywhere
  remove_assumed_application key c = record c { clusters = forget_everywhere key c.clusters }
