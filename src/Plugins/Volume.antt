-- ===== src/Plugins/Volume.antt =====
-- engine/internal/manager/scheduler/plugins/volumerestriction/plugin.go
use kumquat.Base.{Bool, false, not, ◌||◌, none, some, any, is_nil, ◌=ˢ◌, if◌then◌else◌}
use kumquat.Api.{Application, ManagedCluster, Resources}
use kumquat.Framework.{CycleState, Status, FilterPlugin, ok, deny}

module _ (r : Resources) where
  open r use {Quantity, unmarshal}

  has_pvc : Application → Bool
  has_pvc app = if is_nil app.template then false else (elim (unmarshal app.template) [
    | none ↦ false
    | some template ↦ any (λ claim. claim) template.volumes
  ])

  pub filter : CycleState → Application → ManagedCluster Quantity → Status
  unfolding has_pvc
  filter state app cluster =
      if not (has_pvc app) || is_nil app.topology
      then ok
      else (if any (λ t. t.name =ˢ cluster.name) app.topology
          then ok
          else deny
              "topology is fixed for applications with PVC; cannot schedule to new clusters automatically")

  pub filter_plugin : FilterPlugin Quantity
  filter_plugin = record { name = "VolumeRestriction"; filter = filter }
