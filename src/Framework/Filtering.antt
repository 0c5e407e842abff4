-- ===== src/Framework/Filtering.antt =====
-- When RunFilterPlugins lets a cluster pass.
use kumquat.Base.{◌≡◌, refl, List, [], ◌∷◌, arith, all}
use kumquat.Api.{Application, ManagedCluster}
use kumquat.Framework.Interface.{CycleState, FilterPlugin, is_success}
use kumquat.Framework.Runtime.{run_filter_plugins}

module _ {Q : Type 0} where
  -- A cluster passes exactly when every configured plugin lets it pass.
  pub run_filter_plugins_iff :
      (pls : List (FilterPlugin Q)) (state : CycleState) (app : Application)
      (cluster : ManagedCluster Q)
      → is_success (run_filter_plugins pls state app cluster)
        ≡ all (λ pl. is_success (pl.filter state app cluster)) pls
  unfolding run_filter_plugins
  run_filter_plugins_iff [] state app cluster = refl
  run_filter_plugins_iff (pl ∷ pls) state app cluster =
      ground (arith, run_filter_plugins_iff pls state app cluster)
