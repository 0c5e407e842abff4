-- ===== src/Controller/Health.antt =====
-- mergeClusterStatus and calculatePhase of engine/internal/manager/application/status_controller.go.
use kumquat.Base.{
  String, ◌≡◌, refl, ap, ◌∙◌, Bool, true, false, ◌&&◌, ◌||◌, List, [], ◌∷◌, Option, none, some, Map,
  lookup, insert, lookup-insert, any, all, All, Bool-cases, ◌=ˢ◌, if◌then◌else◌, arith, inl, inr,
}
use kumquat.Controller.{ClusterStatus, ClusterPhase, degraded, is_healthy}

pub data HealthPhase : Type 0 where
  health_unknown health_healthy health_degraded health_progressing : HealthPhase

abbrev pub is_degraded : ClusterPhase → Bool
is_degraded degraded = true
is_degraded _ = false

-- The two flags of the loop are allHealthy and anyDegraded.
unfoldable pub phase_of : Bool → Bool → List ClusterStatus → HealthPhase
phase_of all_healthy any_degraded [] =
    if any_degraded
    then health_degraded
    else (if all_healthy then health_healthy else health_progressing)
phase_of all_healthy any_degraded (cs ∷ statuses) =
    phase_of (if is_healthy cs.phase then all_healthy else false)
      (if is_degraded cs.phase then true else any_degraded) statuses

unfoldable pub calculate_phase : List ClusterStatus → HealthPhase
calculate_phase [] = health_unknown
calculate_phase (cs ∷ statuses) = phase_of true false (cs ∷ statuses)

unfoldable pub store_all : List ClusterStatus → Map ClusterStatus → Map ClusterStatus
store_all [] m = m
store_all (cs ∷ statuses) m = store_all statuses (insert cs.cluster_name cs m)

unfoldable pub stored : Map ClusterStatus → List ClusterStatus
stored [] = []
stored ((name, cs) ∷ m) = cs ∷ stored m

-- mergeClusterStatus(existing, new)
unfoldable pub merge_cluster_status : List ClusterStatus → List ClusterStatus → List ClusterStatus
merge_cluster_status existing observed = stored (store_all observed (store_all existing []))

-- The last status of a cluster in a list.
abbrev pub last_status : String → List ClusterStatus → Option ClusterStatus
last_status name [] = none
last_status name (cs ∷ statuses) = elim (last_status name statuses) [
  | some later ↦ some later
  | none ↦ if cs.cluster_name =ˢ name then some cs else none
]

-- The first status of a cluster in a list.
abbrev pub first_status : String → List ClusterStatus → Option ClusterStatus
first_status name [] = none
first_status name (cs ∷ statuses) =
    let later = first_status name statuses in if cs.cluster_name =ˢ name then some cs else later

abbrev pub or_else : Option ClusterStatus → Option ClusterStatus → Option ClusterStatus
or_else none b = b
or_else (some a) b = some a

later_or_this :
    (later before : Option ClusterStatus) (cs : ClusterStatus) (same : Bool)
    → or_else later (if same then some cs else before)
      ≡ or_else (elim later [ some s ↦ some s | none ↦ if same then some cs else none ]) before
later_or_this none before cs true = refl
later_or_this none before cs false = refl
later_or_this (some s) before cs same = refl

lookup-store_all :
    (name : String) (statuses : List ClusterStatus) (m : Map ClusterStatus)
    → lookup name (store_all statuses m) ≡ or_else (last_status name statuses) (lookup name m)
unfolding store_all
lookup-store_all name [] m = refl
lookup-store_all name (cs ∷ statuses) m =
    lookup-store_all name statuses (insert cs.cluster_name cs m)
    ∙ ap (or_else (last_status name statuses)) (lookup-insert cs.cluster_name name cs m)
    ∙ later_or_this (last_status name statuses) (lookup name m) cs (cs.cluster_name =ˢ name)

-- Each status stands under its cluster's name.
abbrev IsNamed : Map ClusterStatus → Type 0
IsNamed m = All (λ e. e.1.cluster_name ≡ e.0) m

insert-IsNamed :
    (cs : ClusterStatus) (m : Map ClusterStatus) → IsNamed m → IsNamed (insert cs.cluster_name cs m)
unfolding insert
insert-IsNamed cs [] h = (refl, tt)
insert-IsNamed cs ((k, v) ∷ m) h = elim (Bool-cases (k =ˢ cs.cluster_name)) [
  | inl e ↦ rw e (refl, h.1)
  | inr e ↦ rw e (h.0, insert-IsNamed cs m h.1)
]

store_all-IsNamed :
    (statuses : List ClusterStatus) (m : Map ClusterStatus)
    → IsNamed m
    → IsNamed (store_all statuses m)
unfolding store_all
store_all-IsNamed [] m h = h
store_all-IsNamed (cs ∷ statuses) m h = store_all-IsNamed statuses _ (insert-IsNamed cs m h)

first_status-stored :
    (name : String) (m : Map ClusterStatus)
    → IsNamed m
    → first_status name (stored m) ≡ lookup name m
unfolding stored lookup
first_status-stored name [] h = refl
first_status-stored name ((k, cs) ∷ m) h =
    ap (λ j. if j =ˢ name then some cs else first_status name (stored m)) h.0
    ∙ ap (λ later. if k =ˢ name then some cs else later) (first_status-stored name m h.1)

nothing_stored : (name : String) → lookup {V = ClusterStatus} name [] ≡ none
unfolding lookup
nothing_stored name = refl

-- After the merge a cluster has the status that was observed now or, where none was, the one that it
-- had before; of several in a list the last one counts.
pub merge_cluster_status_lem :
    (name : String) (existing observed : List ClusterStatus)
    → first_status name (merge_cluster_status existing observed)
      ≡ or_else (last_status name observed) (last_status name existing)
unfolding merge_cluster_status
merge_cluster_status_lem name existing observed =
    first_status-stored name (store_all observed (store_all existing []))
      (store_all-IsNamed observed _ (store_all-IsNamed existing [] tt))
    ∙ lookup-store_all name observed (store_all existing [])
    ∙ ap (or_else (last_status name observed)) (
        lookup-store_all name existing []
        ∙ ap (or_else (last_status name existing)) (nothing_stored name)
        ∙ itself (last_status name existing))
  where
    itself : (o : Option ClusterStatus) → or_else o none ≡ o
    itself none = refl
    itself (some a) = refl

regroup :
    (h d a g x y : Bool)
    → (if (if d then true else g) || x
        then health_degraded
        else (if (if h then a else false) && y then health_healthy else health_progressing))
      ≡ (if g || (d || x)
          then health_degraded
          else (if a && (h && y) then health_healthy else health_progressing))
regroup h d a g x y = ground arith

phase_of_lem :
    (all_healthy any_degraded : Bool) (statuses : List ClusterStatus)
    → phase_of all_healthy any_degraded statuses ≡ (
        if any_degraded || any (λ cs. is_degraded cs.phase) statuses
        then health_degraded
        else (if all_healthy && all (λ cs. is_healthy cs.phase) statuses
            then health_healthy
            else health_progressing))
unfolding phase_of
phase_of_lem all_healthy any_degraded [] = ground arith
phase_of_lem all_healthy any_degraded (cs ∷ statuses) =
    phase_of_lem (if is_healthy cs.phase then all_healthy else false)
      (if is_degraded cs.phase then true else any_degraded) statuses
    ∙ regroup (is_healthy cs.phase) (is_degraded cs.phase) all_healthy any_degraded
        (any (λ c. is_degraded c.phase) statuses) (all (λ c. is_healthy c.phase) statuses)

-- An application with a status is degraded exactly when it is degraded on some cluster, else healthy
-- when it is healthy on all of them, and progressing otherwise.
pub calculate_phase_lem :
    (cs : ClusterStatus) (statuses : List ClusterStatus)
    → calculate_phase (cs ∷ statuses) ≡ (
        if any (λ c. is_degraded c.phase) (cs ∷ statuses)
        then health_degraded
        else (if all (λ c. is_healthy c.phase) (cs ∷ statuses)
            then health_healthy
            else health_progressing))
unfolding calculate_phase
calculate_phase_lem cs statuses = phase_of_lem true false (cs ∷ statuses)
