-- ===== src/Plugins/Health.antt =====
-- engine/internal/manager/scheduler/plugins/health/health.go
pub mod Conditions
use kumquat.Base.{not, ◌&&◌, List, [], ◌∷◌, ◌=ˢ◌, if◌then◌else◌}
use kumquat.Api.{Application, ManagedCluster, Condition}
use kumquat.Framework.{CycleState, Status, FilterPlugin, ok, deny}

pub check_conditions : List Condition → Status
check_conditions [] = ok
check_conditions (c ∷ cs) =
    let rest = check_conditions cs in
    let is_true = c.status =ˢ "True" in
    if (c.type =ˢ "Ready") && not is_true
    then deny "cluster is not ready"
    else (if not (c.type =ˢ "Ready") && (c.type =ˢ "Reachable") && not is_true
        then deny "cluster is not reachable"
        else rest)

module _ {Q : Type 0} where
  pub filter : CycleState → Application → ManagedCluster Q → Status
  filter state app cluster = check_conditions cluster.conditions

  pub filter_plugin : FilterPlugin Q
  filter_plugin = record { name = "Health"; filter = filter }
