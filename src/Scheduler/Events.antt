-- ===== src/Scheduler/Events.antt =====
-- engine/internal/manager/scheduler/event_handler.go
pub mod Outcomes
pub mod Assumptions
use Prim.Native.String.{◌++◌}
use kumquat.Base.{
  String, Bool, true, false, not, ◌||◌, List, [], ◌∷◌, Option, none, some, ℤ, pos, eqb_ℤ, add32,
  is_nil, ◌=ˢ◌, if◌then◌else◌,
}
use kumquat.Api.{Application, ManagedCluster, ClusterTopology, Resources}
use kumquat.Cache.Store.{
  ClusterCache, add_cluster, update_cluster, remove_cluster, remove_assumed_application,
}
use kumquat.Queueing.{WorkQueue, SchedulingQueue, add, delete_app}

scheduled_replicas : List ClusterTopology → ℤ → ℤ
scheduled_replicas [] scheduled = scheduled
scheduled_replicas (t ∷ ts) scheduled = scheduled_replicas ts (add32 scheduled t.replicas)

pub needs_scheduling : Application → Bool
unfolding scheduled_replicas
needs_scheduling app =
    if is_nil app.topology
    then (app.scheduling_phase =ˢ "") || (app.scheduling_phase =ˢ "Pending")
    else (elim app.replicas [
      | none ↦ false
      | some desired ↦ not (eqb_ℤ desired (scheduled_replicas app.topology (pos 0)))
    ])

-- The answer of the API server to a Get: the object, or an error, which is NotFound or another one.
pub data Fetched (A : Type 0) : Type 0 where
  found : A → Fetched A
  missing : Fetched A
  broken : String → Fetched A

-- client.IgnoreNotFound
abbrev pub error_of : {A : Type 0} → Fetched A → Option String
error_of (found a) = none
error_of missing = none
error_of (broken message) = some message

-- The application that has the name and the namespace, and nothing else.
abbrev pub dummy_application : String → String → Application
dummy_application namespace name = record {
  name = name;
  namespace = namespace;
  annotations = [];
  workload_kind = "";
  replicas = none;
  template = [];
  cluster_affinity = none;
  cluster_tolerations = [];
  scheduling_phase = "";
  topology = [];
}

abbrev pub dummy_cluster : {Q : Type 0} → String → ManagedCluster Q
dummy_cluster name = record {
  name = name;
  labels = [];
  deleting = false;
  taints = [];
  resource_summary = [];
  conditions = [];
}

module _ {Q : Type 0} where
  add_or_update : ManagedCluster Q → ClusterCache Q → ClusterCache Q
  add_or_update cluster c = elim (add_cluster cluster c).1 [
    | none ↦ (add_cluster cluster c).0
    | some fault ↦ (update_cluster cluster cluster (add_cluster cluster c).0).0
  ]

  -- A cluster that the API server knows, which is being deleted or is not.
  reconcile_found : Bool → ManagedCluster Q → ClusterCache Q → ClusterCache Q
  unfolding add_or_update
  reconcile_found deleting cluster c =
      if deleting then (remove_cluster cluster c).0 else add_or_update cluster c

  -- ClusterReconciler.Reconcile, for the name of the request.
  pub reconcile_cluster :
      String → Fetched (ManagedCluster Q) → ClusterCache Q → ClusterCache Q × Option String
  unfolding reconcile_found
  reconcile_cluster name (found cluster) c = (reconcile_found cluster.deleting cluster c, none)
  reconcile_cluster name missing c = ((remove_cluster (dummy_cluster name) c).0, none)
  reconcile_cluster name (broken message) c =
      ((remove_cluster (dummy_cluster name) c).0, some message)

module _ (w : WorkQueue) (r : Resources) where
  -- What AppReconciler shares with the scheduler.
  pub record Shared : Type 0 where
    pub queue : SchedulingQueue w
    pub cache : ClusterCache r.Quantity

  forget_deleted : String → String → Shared → Shared
  forget_deleted namespace name s = record {
    queue = delete_app w (dummy_application namespace name) s.queue;
    cache = remove_assumed_application r (namespace ++ "/" ++ name) s.cache;
  }

  -- AppReconciler.Reconcile, for the namespace and the name of the request.
  pub reconcile_application :
      String → String → Fetched Application → Shared → Shared × Option String
  unfolding forget_deleted
  reconcile_application namespace name (found app) s = (
    if needs_scheduling app then record s { queue = add w app s.queue } else record s {
      cache = remove_assumed_application r (app.namespace ++ "/" ++ app.name) s.cache;
    },
    none,
  )
  reconcile_application namespace name missing s = (forget_deleted namespace name s, none)
  reconcile_application namespace name (broken message) s =
      (forget_deleted namespace name s, some message)
