-- ===== src/Controller/Aggregation.antt =====
-- aggregateStatus of engine/internal/manager/application/status_controller.go. An answer of a cluster
-- holds the fields of the workload that the code reads.
pub mod Outcomes
use kumquat.Base.{
  String, ◌≡◌, refl, ap, ◌∙◌, Bool, true, false, not, ◌&&◌, ◌||◌, List, [], ◌∷◌, Option, none, some,
  ℤ, pos, eqb_ℤ, ltb_ℤ, to_int32, any, all, ℕ, ◌=ˢ◌, if◌then◌else◌, arith, map, Bool-cases, inl,
  inr, is_nil,
}
use kumquat.Controller.{
  ClusterStatus, ClusterPhase, healthy, progressing, degraded, unknown, is_healthy,
}
use kumquat.Controller.Health.{
  HealthPhase, health_unknown, health_degraded, health_healthy, health_progressing, is_degraded,
  calculate_phase, calculate_phase_lem,
}
use kumquat.Controller.Reconcile.{found_or_zero}
use Prim.Native.String.{◌++◌}
use kumquat.Sharding.{ShardManager, is_responsible_for}

-- An entry of status.conditions that is a map; a field that is missing or no string is empty.
pub record WorkloadCondition : Type 0 where
  pub condition_type : String
  pub status : String
  pub message : String

pub record WorkloadReading : Type 0 where
  pub spec_replicas : Option ℤ
  pub ready_replicas : Option ℤ
  pub conditions : List WorkloadCondition

pub data WorkloadAnswer : Type 0 where
  fetched : WorkloadReading → WorkloadAnswer
  no_workload : WorkloadAnswer
  failed : String → WorkloadAnswer

-- The answers of GetClient, with its error, and of the client's Get.
pub record StatusAnswers : Type 0 where
  pub client_error : String → Option String
  pub workload : String → WorkloadAnswer

-- A status with its message.
pub record StatusReport : Type 0 where
  pub status : ClusterStatus
  pub message : String

abbrev pub is_failure : WorkloadCondition → Bool
is_failure c =
    ((c.condition_type =ˢ "Progressing") && (c.status =ˢ "False"))
    || ((c.condition_type =ˢ "ReplicaFailure") && (c.status =ˢ "True"))

-- The loop over the conditions; the last failure gives the message.
unfoldable pub note_conditions :
    List WorkloadCondition → ClusterPhase → String → ClusterPhase × String
note_conditions [] phase message = (phase, message)
note_conditions (c ∷ conditions) phase message =
    note_conditions conditions (if is_failure c then degraded else phase)
      (if is_failure c then c.message else message)

abbrev pub all_ready : WorkloadReading → Bool
all_ready w =
    let replicas = to_int32 (found_or_zero w.spec_replicas) in
    eqb_ℤ (to_int32 (found_or_zero w.ready_replicas)) replicas && ltb_ℤ (pos 0) replicas

abbrev report_status : String → ClusterPhase × String → ℤ → ℤ → StatusReport
report_status name (phase, message) replicas ready = record {
  status = record {
    cluster_name = name;
    phase = phase;
    replicas = replicas;
    ready_replicas = ready;
    available_replicas = pos 0;
  };
  message = message;
}

abbrev pub report_of : String → Option String → WorkloadAnswer → StatusReport
report_of name (some error) answer =
    report_status name (unknown, "Failed to get client: " ++ error) (pos 0) (pos 0)
report_of name none no_workload = report_status name (unknown, "Workload not found") (pos 0) (pos 0)
report_of name none (failed error) = report_status name (unknown, error) (pos 0) (pos 0)
report_of name none (fetched w) =
    report_status name
      (note_conditions w.conditions (if all_ready w then healthy else progressing) "")
      (to_int32 (found_or_zero w.spec_replicas)) (to_int32 (found_or_zero w.ready_replicas))

abbrev pub statuses_of : List StatusReport → List ClusterStatus
statuses_of [] = []
statuses_of (r ∷ reports) = r.status ∷ statuses_of reports

module _ (hash : String → ℕ) (shards : ShardManager) (answers : StatusAnswers) where
  unfoldable pub report_all : List String → List StatusReport
  report_all [] = []
  report_all (name ∷ names) =
      let rest = report_all names in
      if is_responsible_for hash shards name
      then report_of name (answers.client_error name) (answers.workload name) ∷ rest
      else rest

  -- The health follows as in calculatePhase, whose lines the code repeats.
  unfoldable pub aggregate_status : List String → List StatusReport × HealthPhase
  aggregate_status applied =
      let reports = report_all applied in (reports, calculate_phase (statuses_of reports))
