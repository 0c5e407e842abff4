-- ===== src/Controller/Aggregation/Outcomes.antt =====
-- The health that aggregateStatus of engine/internal/manager/application/status_controller.go finds,
-- in terms of the answers of the clusters.
use kumquat.Base.{String, Bool, false, not, ◌&&◌, ◌||◌, Option, none, any, ℕ}
use kumquat.Sharding.{ShardManager, is_responsible_for}
use kumquat.Controller.Aggregation.{WorkloadAnswer, fetched, StatusAnswers, is_failure, all_ready}

-- The workload could be read and reports a failure.
abbrev pub fails : Option String → WorkloadAnswer → Bool
fails none (fetched w) = any is_failure w.conditions
fails _ _ = false

-- The workload could be read, all its replicas are ready and it reports no failure.
abbrev pub does_well : Option String → WorkloadAnswer → Bool
does_well none (fetched w) = all_ready w && not (any is_failure w.conditions)
does_well _ _ = false

module _ (hash : String → ℕ) (shards : ShardManager) (answers : StatusAnswers) where
  -- The shard is responsible for the cluster, and the answers are as described.
  abbrev pub fails_on : String → Bool
  fails_on name =
      is_responsible_for hash shards name
      && fails (answers.client_error name) (answers.workload name)

  abbrev pub is_well_on : String → Bool
  is_well_on name =
      not (is_responsible_for hash shards name)
      || does_well (answers.client_error name) (answers.workload name)
