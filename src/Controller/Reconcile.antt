-- ===== src/Controller/Reconcile.antt =====
-- Reconcile and reconcileDelete of engine/internal/manager/application/controller.go.
use kumquat.Base.{
  String, Bool, true, false, not, ◌&&◌, ◌||◌, List, [], ◌∷◌, ◌++◌, Option, none, some, ℤ, pos,
  eqb_ℤ, ltb_ℤ, add32, to_int32, contains, add_all, sort_strings, is_nil, ◌=ˢ◌, if◌then◌else◌,
}
use kumquat.Api.{ClusterTopology}
use kumquat.Controller.{
  healthy, progressing, unknown, ClusterStatus, ManagedApplication, ClientAnswer, client,
  no_cluster, no_client, Deletion, deleted, gone, not_deleted, WorkloadStatus, Answers, NewStatus,
  Effect, deletes_workload, deletes_pdb, adds_finalizer, removes_finalizer, marks_failed,
  patches_status, Run, application_finalizer, Pass, visit,
}
use kumquat.Scheduler.Slices.{Slices}
use kumquat.Scheduler.Spread.{by_name}
use kumquat.Scheduler.Waterfill.{placement_total}

abbrev pub then_run : List Effect → Run → Run
then_run effects rest = record { effects = effects ++ rest.effects; error = rest.error }

-- The cleanup of the clusters that are no longer current.
unfoldable pub clean_up : Answers → List String → List String → Run
clean_up answers current [] = record { effects = []; error = none }
clean_up answers current (old ∷ olds) =
    let rest = clean_up answers current olds in
    if contains old current then rest else (elim (answers.get_client old) [
      | no_cluster ↦ rest
      | no_client error ↦ record { effects = []; error = some error }
      | client ↦ elim (answers.delete_workload old) [
        | not_deleted error ↦ record { effects = deletes_workload old ∷ []; error = some error }
        | deleted ↦ then_run (deletes_workload old ∷ []) rest
        | gone ↦ then_run (deletes_workload old ∷ []) rest
      ]
    ])

abbrev pub found_or_zero : Option ℤ → ℤ
found_or_zero none = pos 0
found_or_zero (some n) = n

pub observed : String → WorkloadStatus → ClusterStatus
observed name w =
    let replicas = to_int32 (found_or_zero w.replicas) in
    let ready = to_int32 (found_or_zero w.ready_replicas) in
    record {
      cluster_name = name;
      phase = if eqb_ℤ replicas ready && ltb_ℤ (pos 0) replicas then healthy else progressing;
      replicas = replicas;
      ready_replicas = ready;
      available_replicas = to_int32 (found_or_zero w.available_replicas);
    }

-- A cluster without a client or without the workload.
abbrev unobserved : String → ClusterStatus
unobserved name = record {
  cluster_name = name;
  phase = unknown;
  replicas = pos 0;
  ready_replicas = pos 0;
  available_replicas = pos 0;
}

abbrev has_client : ClientAnswer → Bool
has_client client = true
has_client _ = false

unfoldable pub observe : Answers → String → ClusterStatus
observe answers name =
    let status : ClusterStatus = elim (answers.get_workload name) [
      | none ↦ unobserved name
      | some w ↦ observed name w
    ] in
    if has_client (answers.get_client name) then status else unobserved name

unfoldable pub observe_all : Answers → List String → List ClusterStatus
observe_all answers [] = []
observe_all answers (name ∷ names) = observe answers name ∷ observe_all answers names

-- globalReady; an unobserved cluster has no ready replicas.
unfoldable pub sum_ready : List ClusterStatus → ℤ → ℤ
sum_ready [] total = total
sum_ready (status ∷ statuses) total = sum_ready statuses (add32 total status.ready_replicas)

pub new_status : Answers → List ClusterTopology → List String → NewStatus
new_status answers topology current =
    let applied = sort_strings (add_all current []) in
    let statuses = observe_all answers applied in
    record {
      applied_clusters = applied;
      global_ready_replicas = sum_ready statuses (pos 0);
      global_replicas = placement_total topology (pos 0);
      clusters_status = statuses;
    }

-- The deletions on one cluster, with their errors.
abbrev pub failure : Deletion → List String
failure deleted = []
failure gone = []
failure (not_deleted error) = error ∷ []

-- The deletions on one cluster, before those on the clusters after it.
abbrev pub delete_from :
    Bool
    → Deletion
    → Deletion
    → String
    → ClientAnswer
    → List Effect × List String
    → List Effect × List String
delete_from resilient workload pdb name no_cluster rest = rest
delete_from resilient workload pdb name (no_client error) (effects, errors) =
    (effects, error ∷ errors)
delete_from true workload pdb name client (effects, errors) = (
  deletes_workload name ∷ deletes_pdb name ∷ effects,
  failure workload ++ (failure pdb ++ errors),
)
delete_from false workload pdb name client (effects, errors) =
    (deletes_workload name ∷ effects, failure workload ++ errors)

-- The loop of reconcileDelete: its calls and the errors that it gathers.
unfoldable pub delete_everywhere : Answers → Bool → List String → List Effect × List String
delete_everywhere answers resilient [] = ([], [])
delete_everywhere answers resilient (name ∷ names) =
    delete_from resilient (answers.delete_workload name) (answers.delete_pdb name) name
      (answers.get_client name) (delete_everywhere answers resilient names)

-- The finalizer goes where no error occurred.
abbrev pub release : Answers → List Effect × List String → Run
release answers (effects, []) = record {
  effects = effects ++ removes_finalizer ∷ [];
  error = answers.update;
}
release answers (effects, error ∷ errors) = record { effects = effects; error = some error }

unfoldable pub reconcile_delete : Answers → ManagedApplication → Run
reconcile_delete answers m =
    release answers (delete_everywhere answers m.resilient m.applied_clusters)

abbrev is_valid : ManagedApplication → Bool
is_valid m = not ((m.api_version =ˢ "") || ((m.app.workload_kind =ˢ "") || is_nil m.app.template))

-- The new status, where the calls so far gave no error.
abbrev pub patched : Answers → ManagedApplication → List String → List Effect → Option String → Run
patched answers m current effects (some error) = record { effects = effects; error = some error }
patched answers m current effects none = record {
  effects = effects ++ patches_status (new_status answers m.app.topology current) ∷ [];
  error = answers.patch_status;
}

-- The cleanup, where the loop over the placement gave no error.
abbrev pub cleaned : Answers → ManagedApplication → List String → List Effect → Option String → Run
cleaned answers m current effects (some error) = record { effects = effects; error = some error }
cleaned answers m current effects none =
    let cleanup = clean_up answers current m.applied_clusters in
    patched answers m current (effects ++ cleanup.effects) cleanup.error

module _ (s : Slices) where
  unfoldable pub visit_placement : Answers → ManagedApplication → Pass
  visit_placement answers m =
      visit answers (m.app.workload_kind =ˢ "StatefulSet") m.clusters_status none (pos 0)
        (s.sort by_name m.app.topology)

  -- What Reconcile does for a valid application: the placement, the cleanup and the new status.
  unfoldable pub reconcile_placement : Answers → ManagedApplication → Run
  reconcile_placement answers m =
      let pass = visit_placement answers m in
      cleaned answers m pass.current pass.run.effects pass.run.error

  -- Reconcile, for an application that the API server knows.
  pub reconcile : Answers → ManagedApplication → Run
  reconcile answers m =
      if m.deleting
      then reconcile_delete answers m
      else (if not (contains application_finalizer m.finalizers)
          then record { effects = adds_finalizer ∷ []; error = answers.update }
          else (if is_valid m
              then reconcile_placement answers m
              else record { effects = marks_failed ∷ []; error = none }))
