-- ===== src/Scheduler/Setup.antt =====
-- NewSchedulerWithConfig of engine/internal/manager/scheduler/scheduler.go.
use kumquat.Base.{String, List, [], ◌∷◌, Option, none, some, lookup, ◌=ˢ◌, if◌then◌else◌}
use kumquat.Api.{Resources, Taint}
use kumquat.Framework.{
  FilterPlugin, ScorePlugin, PluginConfig, SchedulerConfig, Framework, default_scheduler_config,
  new_framework_with_config,
}
use kumquat.Plugins.Affinity
use kumquat.Plugins.Capacity
use kumquat.Plugins.Health
use kumquat.Plugins.Resource
use kumquat.Plugins.Taint
use kumquat.Plugins.Topology
use kumquat.Plugins.Volume

abbrev pub default_topology_key : String
default_topology_key = "topology.kubernetes.io/zone"

-- The text of a taint is a parameter of the taint plugin.
module _ (r : Resources) (show : Taint → String) where
  open r use {Quantity}

  unfoldable pub filter_plugin_named : String → Option (FilterPlugin Quantity)
  filter_plugin_named name =
      if name =ˢ "Health"
      then some Health.filter_plugin
      else (if name =ˢ "Affinity"
          then some Affinity.filter_plugin
          else (if name =ˢ "TaintToleration"
              then some (Taint.filter_plugin show)
              else (if name =ˢ "Capacity"
                  then some (Capacity.filter_plugin r)
                  else (if name =ˢ "VolumeRestriction"
                      then some (Volume.filter_plugin r)
                      else none))))

  -- The names are those of the plugins that are enabled.
  unfoldable pub filter_plugins : List PluginConfig → List (FilterPlugin Quantity)
  filter_plugins [] = []
  filter_plugins (pc ∷ pcs) =
      let rest = filter_plugins pcs in
      if pc.enabled
      then (elim (filter_plugin_named pc.name) [ none ↦ rest | some pl ↦ pl ∷ rest ])
      else rest

  unfoldable pub score_plugin_for : PluginConfig → Option (ScorePlugin Quantity)
  score_plugin_for pc =
      if pc.name =ˢ "Affinity"
      then some Affinity.score_plugin
      else (if pc.name =ˢ "Resource"
          then some (
              Resource.score_plugin r (elim (lookup "strategy" pc.args) [
                | none ↦ "LeastAllocated"
                | some strategy ↦ strategy
              ]))
          else (if pc.name =ˢ "TopologySpread"
              then some (
                  Topology.score_plugin (elim (lookup "topologyKey" pc.args) [
                    | none ↦ default_topology_key
                    | some key ↦ key
                  ]))
              else none))

  unfoldable pub score_plugins : List PluginConfig → List (ScorePlugin Quantity)
  score_plugins [] = []
  score_plugins (pc ∷ pcs) =
      let rest = score_plugins pcs in
      if pc.enabled
      then (elim (score_plugin_for pc) [ none ↦ rest | some pl ↦ pl ∷ rest ])
      else rest

  -- The configuration and the framework of the scheduler.
  unfoldable pub new_scheduler_with_config :
      Option SchedulerConfig → SchedulerConfig × Framework Quantity
  new_scheduler_with_config config =
      let chosen : SchedulerConfig = elim config [ none ↦ default_scheduler_config | some c ↦ c ] in
      (
        chosen,
        new_framework_with_config (filter_plugins chosen.filter_plugins)
            (score_plugins chosen.score_plugins) (some chosen),
      )
