-- ===== src/Tests/Controlling.antt =====
-- Tests of the application controller over clusters that all answer.
use Prim.Native.String.{len}
use kumquat.Base.{
  ◌≡◌, refl, String, Bool, true, false, List, [], ◌∷◌, none, pos, contains, any, arith,
  if◌then◌else◌, insert, ℕ, some, ◌=ˢ◌,
}
use kumquat.Api.{ClusterTopology}
use kumquat.Controller.{
  ClusterStatus, healthy, progressing, ManagedApplication, client, deleted, Answers, was_healthy,
  visit,
}
use kumquat.Controller.Aggregation.{
  WorkloadReading, StatusAnswers, fetched, note_conditions, report_all, aggregate_status,
}
use kumquat.Controller.Health.{
  health_degraded, health_healthy, first_status, last_status, or_else, merge_cluster_status,
  phase_of, store_all, stored, calculate_phase, merge_cluster_status_lem,
}
use kumquat.Controller.Placement.{IsSmooth, removes, in_sequence, visit_ordinals, third_is_removed}
use kumquat.Controller.Reconcile.{reconcile_placement}
use kumquat.Scheduler.Events.{found}
use kumquat.Sharding.{ShardManager, new_shard_manager, is_responsible_for}
use kumquat.Tests.Samples.{sized, stateful_app}
use kumquat.Tests.Spreading.{insertion_sort, sort_by, insert_by}

abbrev all_well : Answers
all_well = record {
  get_cluster = λ name. found tt;
  get_client = λ name. client;
  deploy = λ name start. none;
  delete_workload = λ name. deleted;
  delete_pdb = λ name. deleted;
  get_workload = λ name. none;
  update = none;
  patch_status = none;
}

all_well-IsSmooth : IsSmooth all_well
all_well-IsSmooth = record {
  exists = λ name. refl;
  connected = λ name. refl;
  deployed = λ name start. refl;
  removed = λ name. refl;
}

abbrev status_of : String → Bool → ClusterStatus
status_of name well = record {
  cluster_name = name;
  phase = if well then healthy else progressing;
  replicas = pos 3;
  ready_replicas = pos 3;
  available_replicas = pos 3;
}

abbrev three : List ClusterTopology
three = sized "east" 3 ∷ sized "south" 2 ∷ sized "west" 4 ∷ []

visit_ordinals_example :
    (visit all_well true
      (status_of "east" true ∷ status_of "south" true ∷ status_of "west" true ∷ [])
      none
      (pos 0)
      three).run.effects
    ≡ in_sequence 0 three
unfolding was_healthy
visit_ordinals_example =
    visit_ordinals all_well all_well-IsSmooth
      (status_of "east" true ∷ status_of "south" true ∷ status_of "west" true ∷ []) three
      (refl, (refl, (refl, tt))) (refl, (refl, (refl, tt))) (omega arith)

-- A database on three clusters, the first of which is not healthy.
abbrev database : ManagedApplication
database = record {
  app = stateful_app 9 three;
  api_version = "apps/v1";
  deleting = false;
  finalizers = "apps.kumquat.io/finalizer" ∷ [];
  resilient = true;
  applied_clusters = "east" ∷ "south" ∷ "west" ∷ [];
  clusters_status = status_of "east" false ∷ status_of "south" true ∷ status_of "west" true ∷ [];
}

third_is_removed_example :
    any (removes "west") (reconcile_placement insertion_sort all_well database).effects ≡ true
unfolding was_healthy contains sort_by insert_by
third_is_removed_example =
    third_is_removed all_well all_well-IsSmooth insertion_sort database (sized "east" 3)
      (sized "south" 2) (sized "west" 4) [] refl refl refl refl refl

-- Earlier statuses, and those of the two clusters that answer now.
abbrev old_statuses : List ClusterStatus
old_statuses = status_of "east" false ∷ status_of "west" true ∷ []

abbrev fresh_statuses : List ClusterStatus
fresh_statuses = status_of "east" true ∷ status_of "south" true ∷ []

merge_cluster_status_lem_example :
    first_status "east" (merge_cluster_status old_statuses fresh_statuses)
    ≡ or_else (last_status "east" fresh_statuses) (last_status "east" old_statuses)
merge_cluster_status_lem_example = merge_cluster_status_lem "east" old_statuses fresh_statuses

abbrev reading : Bool → WorkloadReading
reading failing = record {
  spec_replicas = some (pos 3);
  ready_replicas = some (pos 3);
  conditions =
      record { condition_type = "Available"; status = "True"; message = "" }
      ∷ (if failing
          then record { condition_type = "ReplicaFailure"; status = "True"; message = "quota" } ∷ []
          else []);
}

abbrev readings : StatusAnswers
readings = record {
  client_error = λ name. none;
  workload = λ name. fetched (reading (name =ˢ "west"));
}

abbrev length_hash : String → ℕ
length_hash = len

-- The first of two shards has the names of an even length.
abbrev even_shard : ShardManager
even_shard = new_shard_manager (pos 0) (pos 2)

abbrev places : List String
places = "east" ∷ "south" ∷ "west" ∷ []

aggregated_phase : (aggregate_status length_hash even_shard readings places).1 ≡ health_degraded
unfolding aggregate_status report_all calculate_phase phase_of is_responsible_for note_conditions
    new_shard_manager
aggregated_phase = refl

merged_phase : calculate_phase (merge_cluster_status old_statuses fresh_statuses) ≡ health_healthy
unfolding calculate_phase phase_of merge_cluster_status store_all stored insert
merged_phase = refl
