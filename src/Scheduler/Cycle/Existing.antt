-- ===== src/Scheduler/Cycle/Existing.antt =====
-- What scheduleOne gathers for the topology spread: gatherExistingPlacements, getTopologyKey and
-- getAllClustersFromSnapshot of engine/internal/manager/scheduler/scheduler.go.
use kumquat.Base.{
  String, Bool, not, ◌&&◌, List, [], ◌∷◌, ◌++◌, Option, none, some, Map, ℤ, lookup, insert, is_nil,
  any, ◌=ˢ◌, if◌then◌else◌,
}
use kumquat.Api.{Application, ClusterTopology, ManagedCluster}
use kumquat.Framework.{PluginConfig, SchedulerConfig}
use kumquat.Cache.Store.{AssumedApplicationInfo, ClusterInfo}
use kumquat.Queueing.{app_key}
use kumquat.Scheduler.Setup.{default_topology_key}

abbrev is_scheduled : Application → Bool
is_scheduled app = app.scheduling_phase =ˢ "Scheduled"

-- The placements that the API server has.
pub committed_placements : List Application → List ClusterTopology
committed_placements [] = []
committed_placements (app ∷ apps) =
    let rest = committed_placements apps in
    if is_scheduled app && not (is_nil app.topology) then app.topology ++ rest else rest

abbrev is_committed : List Application → String → Bool
is_committed apps key = any (λ app. is_scheduled app && (app_key app =ˢ key)) apps

abbrev of_app : String → Map (Map ℤ) → Map ℤ
of_app key assumed = elim (lookup key assumed) [ none ↦ [] | some replicas ↦ replicas ]

module _ {Q : Type 0} where
  assumed_in : String → Map (AssumedApplicationInfo Q) → Map (Map ℤ) → Map (Map ℤ)
  assumed_in cluster [] acc = acc
  assumed_in cluster ((key, assumed) ∷ apps) acc =
      assumed_in cluster apps (insert key (insert cluster assumed.replicas (of_app key acc)) acc)

  -- application → cluster → replicas
  assumed_apps : Map (ClusterInfo Q) → Map (Map ℤ) → Map (Map ℤ)
  assumed_apps [] acc = acc
  assumed_apps ((cluster, info) ∷ infos) acc =
      assumed_apps infos (assumed_in cluster info.assumed_applications acc)

replicas_entries : Map ℤ → List ClusterTopology
replicas_entries [] = []
replicas_entries ((cluster, replicas) ∷ m) =
    record { name = cluster; replicas = replicas } ∷ replicas_entries m

-- The assumed placements of applications that are not committed.
assumed_placements : (String → Bool) → Map (Map ℤ) → List ClusterTopology
assumed_placements committed [] = []
assumed_placements committed ((key, replicas) ∷ m) =
    let rest = assumed_placements committed m in
    if committed key then rest else replicas_entries replicas ++ rest

pub gather_existing_placements :
    {Q : Type 0} → Option (List Application) → Map (ClusterInfo Q) → List ClusterTopology
gather_existing_placements listed infos =
    let apps : List Application = elim listed [ none ↦ [] | some items ↦ items ] in
    committed_placements apps ++ assumed_placements (is_committed apps) (assumed_apps infos [])

topology_key_of : List PluginConfig → String
topology_key_of [] = default_topology_key
topology_key_of (pc ∷ pcs) =
    let rest = topology_key_of pcs in
    if pc.name =ˢ "TopologySpread"
    then (elim (lookup "topologyKey" pc.args) [
      | none ↦ rest
      | some key ↦ if key =ˢ "" then rest else key
    ])
    else rest

pub get_topology_key : SchedulerConfig → String
get_topology_key config = topology_key_of config.score_plugins

unfoldable pub all_clusters : {Q : Type 0} → Map (ClusterInfo Q) → List (ManagedCluster Q)
all_clusters [] = []
all_clusters ((name, info) ∷ infos) = info.cluster ∷ all_clusters infos
