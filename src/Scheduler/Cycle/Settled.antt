-- ===== src/Scheduler/Cycle/Settled.antt =====
-- What it means that scheduleOne scheduled an application or not.
use kumquat.Base.{
  String, Bool, true, false, ◌≡◌, if◌then◌else◌, ◌⊎◌, ◌||◌, List, [], none, some, Map, is_nil, ◌=ˢ◌,
  ℤ,
}
use kumquat.Api.{Application, ClusterTopology, Resources}
use kumquat.Api.Floats.{Floats}
use kumquat.Framework.{
  Status, new_cycle_state, SchedulerConfig, Framework, Scored, scored, failed, run_score_plugins,
}
use kumquat.Cache.Assuming.{or_else, assumed_on, can_assume}
use kumquat.Cache.Store.{ClusterCache, snapshot}
use kumquat.Queueing.{WorkQueue, app_key, queued}
use kumquat.Scheduler.Cycle.{
  Client, Outcome, nothing_popped, panicked, attempted, World, choose_placement, assume_all,
  feasible,
}
use kumquat.Scheduler.Events.{found}
use kumquat.Plugins.Topology.{update_topology_distribution}
use kumquat.Scheduler.Cycle.Existing.{gather_existing_placements, get_topology_key, all_clusters}
use kumquat.Scheduler.Slices.{Slices}
use kumquat.Scheduler.Cycle.Binding.{replicas_at, is_found}

abbrev pub succeeded : Outcome → Bool
succeeded nothing_popped = false
succeeded panicked = false
succeeded (attempted result) = result =ˢ "success"

module _ (w : WorkQueue) (c : Client) (r : Resources) (f : Floats) (sl : Slices) where
  abbrev State : Type 0
  State = World w c r f sl

  -- The scores of the clusters that pass the filters, by what the cache and the API server hold.
  abbrev pub ranking :
      SchedulerConfig
      → Framework r.Quantity
      → Application
      → ClusterCache r.Quantity
      → c.State
      → Scored
  ranking config fw app cache api =
      let snap = snapshot r cache in
      run_score_plugins fw
        (update_topology_distribution new_cycle_state (all_clusters snap.clusters)
          (gather_existing_placements (c.list api) snap.clusters) (get_topology_key config))
        app (feasible w c r f sl fw app snap)

  -- Why an application is not scheduled: no cluster passes the filters, a score plugin fails, the
  -- strategy selects no cluster or panics, the API server does not return the application, or it
  -- refuses the update.
  pub data Cause (config : SchedulerConfig) (fw : Framework r.Quantity) (app : Application)
      (cache : ClusterCache r.Quantity) (api : c.State) : Type 0 where
    nowhere :
        (is_nil (snapshot r cache).clusters
            || is_nil (feasible w c r f sl fw app (snapshot r cache)))
          ≡ true
        → Cause config fw app cache api
    unscored :
        (status : Status)
        → ranking config fw app cache api ≡ failed status
        → Cause config fw app cache api
    unplaced :
        (scores : Map ℤ)
        → ranking config fw app cache api ≡ scored scores
        → choose_placement w c r f sl config app scores (snapshot r cache) ≡ some []
        → Cause config fw app cache api
    out_of_range :
        (scores : Map ℤ)
        → ranking config fw app cache api ≡ scored scores
        → choose_placement w c r f sl config app scores (snapshot r cache) ≡ none
        → Cause config fw app cache api
    unknown :
        (scores : Map ℤ) (placement : List ClusterTopology)
        → ranking config fw app cache api ≡ scored scores
        → choose_placement w c r f sl config app scores (snapshot r cache) ≡ some placement
        → is_found (c.get app.namespace app.name api) ≡ false
        → Cause config fw app cache api
    refused :
        (scores : Map ℤ) (placement : List ClusterTopology) (latest : Application) (error : String)
        (after : c.State)
        → ranking config fw app cache api ≡ scored scores
        → choose_placement w c r f sl config app scores (snapshot r cache) ≡ some placement
        → c.get app.namespace app.name api ≡ found latest
        → c.update_status
            (record latest { topology = placement; scheduling_phase = "Scheduled" })
            api
          ≡ (some error, after)
        → Cause config fw app cache api

  -- The API server took the newest version of the application with a placement, the cache assumes the
  -- application on the clusters of the placement that it knows, and the queue does not know the
  -- application any more. An assumption that the cache had before stays.
  pub record IsBound (config : SchedulerConfig) (fw : Framework r.Quantity) (app : Application)
      (s : State) (result : Outcome × State) : Type 0 where
    pub success : succeeded result.0 ≡ true
    pub scores : Map ℤ
    pub ranked : ranking config fw app s.cache s.api ≡ scored scores
    pub placement : List ClusterTopology
    pub chosen : choose_placement w c r f sl config app scores (snapshot r s.cache) ≡ some placement
    pub placed : is_nil placement ≡ false
    pub latest : Application
    pub fetched : c.get app.namespace app.name s.api ≡ found latest
    pub accepted :
        c.update_status
          (record latest { topology = placement; scheduling_phase = "Scheduled" })
          s.api
        ≡ (none, result.1.api)
    pub by_loop : result.1.cache ≡ assume_all w c r f sl app placement s.cache
    pub assumed :
        (name : String)
        → assumed_on (app_key app) name result.1.cache ≡ (
            if can_assume r app name s.cache
            then or_else (assumed_on (app_key app) name s.cache) (replicas_at name placement)
            else assumed_on (app_key app) name s.cache)
    pub forgotten : queued w (app_key app) result.1.queue.active_q ≡ none

  -- The cache is as it was, and the queue still knows the application.
  pub record IsKept (config : SchedulerConfig) (fw : Framework r.Quantity) (app : Application)
      (s : State) (result : Outcome × State) : Type 0 where
    pub failure : succeeded result.0 ≡ false
    pub cause : Cause config fw app s.cache s.api
    pub same_cache : result.1.cache ≡ s.cache
    pub known : queued w (app_key app) result.1.queue.active_q ≡ some app

  abbrev pub Settled :
      SchedulerConfig → Framework r.Quantity → Application → State → Outcome × State → Type 0
  Settled config fw app s result = IsBound config fw app s result ⊎ IsKept config fw app s result
