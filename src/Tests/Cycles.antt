-- ===== src/Tests/Cycles.antt =====
-- Tests of the scheduling cycle over a queue that is a plain list and an API server that holds one
-- application.
use kumquat.Base.{
  ◌≡◌, refl, ◌↔◌, true, [], ◌∷◌, none, some, ℤ, lookup, insert, has_key, Member, all,
}
use kumquat.Api.{Application}
use kumquat.Framework.{new_cycle_state, SchedulerConfig, Framework, is_success}
use kumquat.Cache.Consistency.{IsConsistent}
use kumquat.Cache.Histories.{run}
use kumquat.Queueing.{app_key, add, pop, new_scheduling_queue}
use kumquat.Queueing.Keyed.{IsKeyed, add-IsKeyed, new-IsKeyed}
use kumquat.Scheduler.Cycle.{Client, Outcome, World, schedule_one}
use kumquat.Scheduler.Cycle.Default.{five_plugins, default_feasible_iff}
use kumquat.Scheduler.Cycle.Existing.{all_clusters}
use kumquat.Scheduler.Cycle.Outcomes.{schedule_one-IsConsistent}
use kumquat.Scheduler.Events.{found}
use kumquat.Scheduler.Prefilter.{prefilter_by_affinity, feasible_clusters}
use kumquat.Scheduler.Setup.{new_scheduler_with_config}
use kumquat.Tests.Caching.{two_zones, history, empty_cache, history-IsConsistent, two_zones-IsMap}
use kumquat.Tests.Queues.{plain_list}
use kumquat.Tests.Samples.{whole_units, fractions, in_zone, stateful_app}
use kumquat.Tests.Spreading.{insertion_sort}

abbrev db : Application
db = stateful_app 3 []

-- The state of the API server is the one application; every update succeeds.
abbrev one_app : Client
one_app = record {
  State = Application;
  list = λ app. some (app ∷ []);
  get = λ namespace name app. found app;
  update_status = λ app old. (none, app);
}

abbrev setup : SchedulerConfig × Framework ℤ
setup = new_scheduler_with_config whole_units (λ taint. taint.key) none

abbrev world : World plain_list one_app whole_units fractions insertion_sort
world = record {
  queue = add plain_list db (new_scheduling_queue plain_list);
  cache = run whole_units history empty_cache;
  api = db;
}

world-IsKeyed : IsKeyed plain_list world.queue.active_q
world-IsKeyed = add-IsKeyed plain_list db (new_scheduling_queue plain_list) (new-IsKeyed plain_list)

abbrev after : Outcome × World plain_list one_app whole_units fractions insertion_sort
after = schedule_one plain_list one_app whole_units fractions insertion_sort setup.0 setup.1 world

schedule_one-IsConsistent_example : IsConsistent after.1.cache
unfolding add pop new_scheduling_queue has_key insert lookup app_key
schedule_one-IsConsistent_example =
    schedule_one-IsConsistent plain_list one_app whole_units fractions insertion_sort setup.0
      setup.1 world db world-IsKeyed refl history-IsConsistent

default_feasible_iff_example :
    Member (in_zone "west" "a") (
      feasible_clusters
        (new_scheduler_with_config whole_units (λ taint. taint.key) none).1.filter_plugins
        new_cycle_state
        db
        (prefilter_by_affinity db two_zones))
    ↔ Member (in_zone "west" "a") (all_clusters two_zones.clusters)
      × (all
            (λ pl. is_success (pl.filter new_cycle_state db (in_zone "west" "a")))
            (five_plugins whole_units λ taint. taint.key)
          ≡ true)
default_feasible_iff_example =
    default_feasible_iff whole_units (λ taint. taint.key) two_zones db (in_zone "west" "a")
      history-IsConsistent two_zones-IsMap
