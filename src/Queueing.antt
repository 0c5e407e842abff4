-- ===== src/Queueing.antt =====
-- engine/internal/manager/scheduler/queue/queue.go
pub mod Calls
pub mod Keyed
pub mod Stale
use Prim.Native.String.{◌++◌}
use kumquat.Base.{
  String, Bool, not, List, [], ◌∷◌, Option, none, some, Map, ℤ, pos, add64, lookup, insert, delete,
  has_key, ◌=ˢ◌, if◌then◌else◌,
}
use kumquat.Api.{Application}

-- client-go's workqueue.RateLimitingInterface, over items that are strings.
pub record WorkQueue : Type 1 where
  pub State : Type 0
  pub new : State
  pub add : String → State → State
  pub add_rate_limited : String → State → State
  -- the delay in nanoseconds
  pub add_after : String → ℤ → State → State
  -- `none` when the queue is shut down
  pub get : State → Option String × State
  pub done : String → State → State
  pub forget : String → State → State
  pub shut_down : State → State

pub record QueuedApplicationInfo : Type 0 where
  -- nil is `none`
  pub application : Option Application
  pub attempts : ℤ

unfoldable pub app_key : Application → String
app_key app = app.namespace ++ "/" ++ app.name

pub data Popped : Type 0 where
  popped : Application → Popped
  shut_down : Popped
  not_found : String → Popped

-- 5 * time.Minute
abbrev default_unschedulable_delay : ℤ
default_unschedulable_delay = pos 300000000000

module _ (w : WorkQueue) where
  pub record SchedulingQueue : Type 0 where
    pub queue : w.State
    -- an entry may be nil
    pub active_q : Map (Option QueuedApplicationInfo)

  unfoldable pub new_scheduling_queue : SchedulingQueue
  new_scheduling_queue = record { queue = w.new; active_q = [] }

  unfoldable pub add : Application → SchedulingQueue → SchedulingQueue
  add app q =
      let key = app_key app in
      if has_key key q.active_q then q else record {
        queue = w.add key q.queue;
        active_q =
            insert key (some (record { application = some app; attempts = pos 0 })) q.active_q;
      }

  abbrev pub count_attempt : Option QueuedApplicationInfo → Option QueuedApplicationInfo
  count_attempt none = none
  count_attempt (some info) = some (record info { attempts = add64 info.attempts (pos 1) })

  unfoldable pub add_unschedulable_if_not_present :
      Application → Option QueuedApplicationInfo → SchedulingQueue → SchedulingQueue
  add_unschedulable_if_not_present app info q =
      let key = app_key app in
      if has_key key q.active_q then q else record {
        queue = w.add_rate_limited key q.queue;
        active_q = insert key (count_attempt info) q.active_q;
      }

  abbrev pub application_of : Option (Option QueuedApplicationInfo) → Option Application
  application_of none = none
  application_of (some none) = none
  application_of (some (some info)) = info.application

  -- The application of a key, where there is one and no pointer to it is nil.
  abbrev pub queued : String → Map (Option QueuedApplicationInfo) → Option Application
  queued key active_q = application_of (lookup key active_q)

  unfoldable pub pop : SchedulingQueue → Popped × SchedulingQueue
  pop q =
      let (item, queue) = w.get q.queue in
      elim item [
        | none ↦ (shut_down, record q { queue = queue })
        | some key ↦ elim (queued key q.active_q) [
          | none ↦ (not_found key, record q { queue = w.done key queue })
          | some app ↦ (popped app, record q { queue = queue })
        ]
      ]

  unfoldable pub done : Application → SchedulingQueue → SchedulingQueue
  done app q = record q { queue = w.done (app_key app) q.queue }

  unfoldable pub forget : Application → SchedulingQueue → SchedulingQueue
  forget app q = record {
    queue = w.forget (app_key app) q.queue;
    active_q = delete (app_key app) q.active_q;
  }

  unfoldable pub requeue : Application → SchedulingQueue → SchedulingQueue
  requeue app q = record q { queue = w.add_rate_limited (app_key app) q.queue }

  -- `delay` is `none` where the argument is not a duration.
  unfoldable pub requeue_after : Application → Option ℤ → SchedulingQueue → SchedulingQueue
  requeue_after app delay q = record q {
    queue =
        w.add_after (app_key app) (elim delay [ none ↦ default_unschedulable_delay | some d ↦ d ])
          q.queue;
  }

  abbrev pub drop_old :
      String → String → Map (Option QueuedApplicationInfo) → Map (Option QueuedApplicationInfo)
  drop_old old_key new_key active_q =
      if not (old_key =ˢ new_key) then delete old_key active_q else active_q

  -- `none` is the panic on a nil entry.
  unfoldable pub update : Application → Application → SchedulingQueue → Option SchedulingQueue
  update old_app new_app q =
      let key = app_key new_app in
      let active_q = drop_old (app_key old_app) key q.active_q in
      elim (lookup key active_q) [
        | some info ↦ elim info [
          | none ↦ none
          | some i ↦ some (record q {
            active_q = insert key (some (record i { application = some new_app })) active_q;
          })
        ]
        | none ↦ some (record {
          queue = w.add key q.queue;
          active_q =
              insert key (some (record { application = some new_app; attempts = pos 0 })) active_q;
        })
      ]

  unfoldable pub delete_app : Application → SchedulingQueue → SchedulingQueue
  delete_app app q = record q { active_q = delete (app_key app) q.active_q }

  unfoldable pub close : SchedulingQueue → SchedulingQueue
  close q = record q { queue = w.shut_down q.queue }
