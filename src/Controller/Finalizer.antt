-- ===== src/Controller/Finalizer.antt =====
-- When reconcileDelete lets an application go.
use kumquat.Base.{String, Bool, true, false, not, ◌&&◌, ◌||◌, Option, none, some}
use kumquat.Controller.{
  ClientAnswer, client, no_cluster, no_client, Deletion, deleted, gone, not_deleted, Answers,
  Effect, removes_finalizer,
}

abbrev pub is_removal : Effect → Bool
is_removal removes_finalizer = true
is_removal _ = false

abbrev pub has_error : Option String → Bool
has_error none = false
has_error (some error) = true

abbrev is_gone : Deletion → Bool
is_gone deleted = true
is_gone gone = true
is_gone (not_deleted error) = false

abbrev gone_from : Bool → Deletion → Deletion → ClientAnswer → Bool
gone_from resilient workload pdb no_cluster = true
gone_from resilient workload pdb (no_client error) = false
gone_from resilient workload pdb client = is_gone workload && (not resilient || is_gone pdb)

-- The cluster is no more, or it has neither the workload nor, where the application has one, the
-- disruption budget.
abbrev pub is_clean : Answers → Bool → String → Bool
is_clean answers resilient name =
    gone_from resilient (answers.delete_workload name) (answers.delete_pdb name)
      (answers.get_client name)
