-- ===== src/Framework/Config.antt =====
-- engine/internal/manager/scheduler/framework/config.go
use kumquat.Base.{String, Bool, true, List, [], ◌∷◌, Option, some, Map, ℤ, pos}

pub record PluginConfig : Type 0 where
  pub name : String
  pub weight : ℤ
  pub enabled : Bool
  -- the arguments that are strings
  pub args : Map String

pub record SpreadConstraints : Type 0 where
  pub max_clusters : ℤ
  pub min_replicas : ℤ

pub record SchedulerConfig : Type 0 where
  pub filter_plugins : List PluginConfig
  pub score_plugins : List PluginConfig
  pub strategy : String
  -- nil is `none`
  pub spread_constraints : Option SpreadConstraints

abbrev pub strategy_single_cluster : String
strategy_single_cluster = "SingleCluster"

abbrev pub strategy_spread : String
strategy_spread = "Spread"

abbrev pub annotation_scheduler_strategy : String
annotation_scheduler_strategy = "apps.kumquat.io/scheduler-strategy"

abbrev plugin : String → ℤ → PluginConfig
plugin name weight = record { name = name; weight = weight; enabled = true; args = [] }

abbrev pub default_scheduler_config : SchedulerConfig
default_scheduler_config = record {
  filter_plugins =
      plugin "Health" (pos 0)
      ∷ plugin "Affinity" (pos 0)
      ∷ plugin "TaintToleration" (pos 0)
      ∷ plugin "Capacity" (pos 0)
      ∷ plugin "VolumeRestriction" (pos 0)
      ∷ [];
  score_plugins = plugin "Affinity" (pos 1) ∷ plugin "Resource" (pos 1) ∷ [];
  strategy = strategy_spread;
  spread_constraints = some (record { max_clusters = pos 5; min_replicas = pos 1 });
}
