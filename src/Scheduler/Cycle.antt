-- ===== src/Scheduler/Cycle.antt =====
-- scheduleOne of engine/internal/manager/scheduler/scheduler.go.
pub mod Existing
pub mod Binding
pub mod Settled
pub mod Outcomes
pub mod Default
use kumquat.Base.{
  String, Bool, true, false, not, ◌&&◌, ◌||◌, List, [], ◌∷◌, ◌++◌, Option, none, some, Map, ℤ, pos,
  lookup, insert, is_nil, any, ◌=ˢ◌, if◌then◌else◌,
}
use kumquat.Api.{Application, ClusterTopology, ManagedCluster, Resources}
use kumquat.Api.Floats.{Floats}
use kumquat.Framework.{
  CycleState, new_cycle_state, Framework, Scored, scored, failed, run_score_plugins, PluginConfig,
  SchedulerConfig, strategy_spread, strategy_single_cluster, annotation_scheduler_strategy,
}
use kumquat.Cache.Store.{
  AssumedApplicationInfo, ClusterInfo, ClusterCache, Snapshot, snapshot, assume_application,
}
use kumquat.Plugins.Topology.{update_topology_distribution}
use kumquat.Queueing.{
  WorkQueue, SchedulingQueue, Popped, popped, not_found, pop, done, forget, requeue, app_key,
}
use kumquat.Queueing
use kumquat.Scheduler.Events.{Fetched, found, missing, broken}
use kumquat.Scheduler.Prefilter.{prefilter_by_affinity, feasible_clusters}
use kumquat.Scheduler.Setup.{default_topology_key}
use kumquat.Scheduler.Single.{select_cluster}
use kumquat.Scheduler.Cycle.Existing.{gather_existing_placements, get_topology_key, all_clusters}
use kumquat.Scheduler.Slices.{Slices}
use kumquat.Scheduler.Spread.{select_clusters_spread}
use kumquat.Scheduler.Waterfill.{desired_replicas, select_clusters_waterfill}

-- What the scheduler calls of controller-runtime's client, over the state of the API server.
pub record Client : Type 1 where
  pub State : Type 0
  -- `none` is an error
  pub list : State → Option (List Application)
  -- by namespace and name
  pub get : String → String → State → Fetched Application
  -- Status().Update, with its error
  pub update_status : Application → State → Option String × State

-- Annotation over global configuration.
unfoldable pub strategy_for : SchedulerConfig → Application → String
strategy_for config app = elim (lookup annotation_scheduler_strategy app.annotations) [
  | none ↦ config.strategy
  | some val ↦
      if (val =ˢ strategy_spread) || (val =ˢ strategy_single_cluster) then val else config.strategy
]

-- What a run of scheduleOne ends with. `attempted` carries the result that the metrics record.
pub data Outcome : Type 0 where
  nothing_popped panicked : Outcome
  attempted : String → Outcome

module _ (w : WorkQueue) (c : Client) (r : Resources) (f : Floats) (sl : Slices) where
  open r use {Quantity}

  -- What a run of scheduleOne reads and changes.
  pub record World : Type 0 where
    pub queue : SchedulingQueue w
    pub cache : ClusterCache Quantity
    pub api : c.State

  -- The fourth step: the strategy chooses the placement; `none` is a panic.
  unfoldable pub choose_placement :
      SchedulerConfig → Application → Map ℤ → Snapshot Quantity → Option (List ClusterTopology)
  choose_placement config app scores snap =
      if strategy_for config app =ˢ strategy_spread
      then (if app.workload_kind =ˢ "StatefulSet"
          then some (select_clusters_waterfill r app scores snap)
          else (elim config.spread_constraints [
            | none ↦ none
            | some constraints ↦ select_clusters_spread f sl constraints app scores
          ]))
      else some (record { name = select_cluster scores; replicas = desired_replicas app } ∷ [])

  abbrev pub with_placement : List ClusterTopology → Application → Application
  with_placement placement app = record app { topology = placement; scheduling_phase = "Scheduled" }

  abbrev pub update_fetched :
      List ClusterTopology → Fetched Application → c.State → Option String × c.State
  update_fetched placement (found latest) api =
      c.update_status (with_placement placement latest) api
  update_fetched placement missing api = (some "not found", api)
  update_fetched placement (broken message) api = (some message, api)

  unfoldable pub bind : Application → List ClusterTopology → c.State → Option String × c.State
  bind app placement api = update_fetched placement (c.get app.namespace app.name api) api

  -- An error of AssumeApplication is only logged.
  unfoldable pub assume_all :
      Application → List ClusterTopology → ClusterCache Quantity → ClusterCache Quantity
  assume_all app [] cache = cache
  assume_all app (p ∷ ps) cache =
      assume_all app ps (assume_application r app (app_key app) p.name p.replicas cache).0

  abbrev pub requeued : Application → World → World
  requeued app s = record s { queue = requeue w app s.queue }

  -- The fifth step, with what bind returned.
  abbrev pub bound :
      Application → List ClusterTopology → Option String × c.State → World → Outcome × World
  bound app placement (none, api) s = (
    attempted "success",
    record { queue = forget w app s.queue; cache = assume_all app placement s.cache; api = api },
  )
  bound app placement (some error, api) s =
      (attempted "error", requeued app (record s { api = api }))

  abbrev pub bind_chosen : Application → Option (List ClusterTopology) → World → Outcome × World
  bind_chosen app none s = (panicked, s)
  bind_chosen app (some []) s = (attempted "unschedulable", requeued app s)
  bind_chosen app (some (p ∷ ps)) s = bound app (p ∷ ps) (bind app (p ∷ ps) s.api) s

  abbrev pub choose_scored :
      SchedulerConfig → Application → Snapshot Quantity → Scored → World → Outcome × World
  choose_scored config app snap (failed status) s = (attempted "error", requeued app s)
  choose_scored config app snap (scored scores) s =
      bind_chosen app (choose_placement config app scores snap) s

  -- The state of the cycle that the score plugins read.
  unfoldable pub scoring_state : SchedulerConfig → Snapshot Quantity → World → CycleState
  scoring_state config snap s =
      update_topology_distribution new_cycle_state (all_clusters snap.clusters)
        (gather_existing_placements (c.list s.api) snap.clusters) (get_topology_key config)

  unfoldable pub feasible :
      Framework Quantity → Application → Snapshot Quantity → List (ManagedCluster Quantity)
  feasible fw app snap =
      feasible_clusters fw.filter_plugins new_cycle_state app (prefilter_by_affinity app snap)

  -- Between Pop and the deferred call of Done.
  unfoldable pub attempt :
      SchedulerConfig → Framework Quantity → Application → World → Outcome × World
  attempt config fw app s =
      let snap = snapshot r s.cache in
      let fits = feasible fw app snap in
      let scores = run_score_plugins fw (scoring_state config snap s) app fits in
      if is_nil snap.clusters || is_nil fits
      then (attempted "unschedulable", requeued app s)
      else choose_scored config app snap scores s

  abbrev pub finish : Application → Outcome × World → Outcome × World
  finish app (outcome, s) = (outcome, record s { queue = done w app s.queue })

  abbrev pub attempt_popped :
      SchedulerConfig → Framework Quantity → Popped × SchedulingQueue w → World → Outcome × World
  attempt_popped config fw (popped app, queue) s =
      finish app (attempt config fw app (record s { queue = queue }))
  attempt_popped config fw (Queueing.shut_down, queue) s =
      (nothing_popped, record s { queue = queue })
  attempt_popped config fw (not_found key, queue) s = (nothing_popped, record s { queue = queue })

  unfoldable pub schedule_one : SchedulerConfig → Framework Quantity → World → Outcome × World
  schedule_one config fw s = attempt_popped config fw (pop w s.queue) s
