-- ===== src/Controller.antt =====
-- engine/internal/manager/application/controller.go: what a run of Reconcile calls, and the loop over
-- the placement.
pub mod Reconcile
pub mod Placement
pub mod Finalizer
pub mod Health
pub mod Aggregation
use kumquat.Base.{
  String, Bool, true, false, not, ◌&&◌, ◌||◌, List, [], ◌∷◌, ◌++◌, Option, none, some, ℤ, pos,
  eqb_ℤ, ltb_ℤ, add32, to_int32, contains, add_all, sort_strings, is_nil, ◌=ˢ◌, if◌then◌else◌,
}
use kumquat.Api.{Application, ClusterTopology}
use kumquat.Scheduler.Events.{Fetched, found, missing, broken}

pub data ClusterPhase : Type 0 where
  healthy progressing degraded unknown : ClusterPhase

pub record ClusterStatus : Type 0 where
  pub cluster_name : String
  pub phase : ClusterPhase
  pub replicas : ℤ
  pub ready_replicas : ℤ
  pub available_replicas : ℤ

-- An application with the fields that only its controller uses.
pub record ManagedApplication : Type 0 where
  pub app : Application
  pub api_version : String
  -- DeletionTimestamp is set
  pub deleting : Bool
  pub finalizers : List String
  -- Spec.Resiliency != nil
  pub resilient : Bool
  pub applied_clusters : List String
  pub clusters_status : List ClusterStatus

-- The answer of ClientManager.GetClient. `no_cluster` is an error that is NotFound or has "not found"
-- in its text.
pub data ClientAnswer : Type 0 where
  client no_cluster : ClientAnswer
  no_client : String → ClientAnswer

-- The answer of a cluster to a Delete.
pub data Deletion : Type 0 where
  deleted gone : Deletion
  not_deleted : String → Deletion

-- status.replicas, status.readyReplicas and status.availableReplicas of a workload, each with whether
-- it is there.
pub record WorkloadStatus : Type 0 where
  pub replicas : Option ℤ
  pub ready_replicas : Option ℤ
  pub available_replicas : Option ℤ

-- What the clusters and the API server answer during one run.
pub record Answers : Type 0 where
  pub get_cluster : String → Fetched (Unit {0})
  pub get_client : String → ClientAnswer
  -- the first error of reconcileWorkload, reconcileResiliency and ReconcileRollout, by the cluster and
  -- its first ordinal
  pub deploy : String → ℤ → Option String
  pub delete_workload : String → Deletion
  pub delete_pdb : String → Deletion
  pub get_workload : String → Option WorkloadStatus
  -- the error of Update and of Status().Patch
  pub update : Option String
  pub patch_status : Option String

-- The status that a run writes.
pub record NewStatus : Type 0 where
  pub applied_clusters : List String
  pub global_ready_replicas : ℤ
  pub global_replicas : ℤ
  pub clusters_status : List ClusterStatus

-- The calls that change something outside the controller.
pub data Effect : Type 0 where
  deploys : String → ℤ → Effect
  deletes_workload deletes_pdb : String → Effect
  adds_finalizer removes_finalizer marks_failed : Effect
  patches_status : NewStatus → Effect

-- The calls of a run, in order, and its error.
pub record Run : Type 0 where
  pub effects : List Effect
  pub error : Option String

abbrev pub application_finalizer : String
application_finalizer = "apps.kumquat.io/finalizer"

abbrev pub is_healthy : ClusterPhase → Bool
is_healthy healthy = true
is_healthy _ = false

-- The first status of the previous cluster says Healthy.
unfoldable pub was_healthy : String → List ClusterStatus → Bool
was_healthy name [] = false
was_healthy name (status ∷ statuses) =
    let rest = was_healthy name statuses in
    if status.cluster_name =ˢ name then is_healthy status.phase else rest

-- The loop over the placement: the clusters that it counts as current, its calls and its error.
pub record Pass : Type 0 where
  pub current : List String
  pub run : Run

abbrev pub stops : String → List Effect → Option String → Pass
stops name effects error = record {
  current = name ∷ [];
  run = record { effects = effects; error = error };
}

abbrev pub goes_on : String → List Effect → Pass → Pass
goes_on name effects rest = record {
  current = name ∷ rest.current;
  run = record { effects = effects ++ rest.run.effects; error = rest.run.error };
}

abbrev pub previous_is_healthy : Option String → List ClusterStatus → Bool
previous_is_healthy none statuses = true
previous_is_healthy (some name) statuses = was_healthy name statuses

unfoldable pub visit :
    Answers → Bool → List ClusterStatus → Option String → ℤ → List ClusterTopology → Pass
visit answers stateful statuses previous cumulative [] = record {
  current = [];
  run = record { effects = []; error = none };
}
visit answers stateful statuses previous cumulative (t ∷ ts) =
    let start = if stateful then cumulative else pos 0 in
    let after = if stateful then add32 cumulative t.replicas else cumulative in
    let skip = goes_on t.name [] (visit answers stateful statuses (some t.name) cumulative ts) in
    let rest = visit answers stateful statuses (some t.name) after ts in
    if stateful && not (previous_is_healthy previous statuses)
    then stops t.name [] none
    else (elim (answers.get_cluster t.name) [
      | broken error ↦ stops t.name [] (some error)
      | missing ↦ skip
      | found u ↦ elim (answers.get_client t.name) [
        | client ↦ elim (answers.deploy t.name start) [
          | none ↦ goes_on t.name (deploys t.name start ∷ []) rest
          | some error ↦ stops t.name (deploys t.name start ∷ []) (some error)
        ]
        | no_cluster ↦ skip
        | no_client error ↦ skip
      ]
    ])
