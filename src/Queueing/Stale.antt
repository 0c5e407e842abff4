-- ===== src/Queueing/Stale.antt =====
-- What Add does to an application that the queue knows already.
use kumquat.Base.{
  String, ◌≡◌, Option, some, refl, Map, pos, has_key, insert, lookup-insert, has_key-lookup,
  eq_refl, false, true,
}
use kumquat.Api.{Application}
use kumquat.Queueing.{
  WorkQueue, QueuedApplicationInfo, SchedulingQueue, popped, app_key, queued, add, pop,
}

known :
    (key : String) (e : Option QueuedApplicationInfo) (m : Map (Option QueuedApplicationInfo))
    → has_key key (insert key e m) ≡ true
known key e m =
    rw (has_key-lookup key (insert key e m), lookup-insert key key e m, eq_refl key) refl

abbrev entry_of : Application → Option QueuedApplicationInfo
entry_of app = some (record { application = some app; attempts = pos 0 })

pop_found :
    (w : WorkQueue) (q : SchedulingQueue w) (key : String) (app : Application)
    → (w.get q.queue).0 ≡ some key
    → queued w key q.active_q ≡ some app
    → (pop w q).0 ≡ popped app
unfolding pop
pop_found w q key app f g = rw (f, g, pop) refl

module _ (w : WorkQueue) (old_app new_app : Application) (q : SchedulingQueue w)
    (same_key : app_key old_app ≡ app_key new_app)
    (unknown : has_key (app_key new_app) q.active_q ≡ false)
    (next : (w.get (w.add (app_key new_app) q.queue)).0 ≡ some (app_key new_app)) where
  -- Where an application is added and, before it is popped, added again in a newer version, Pop
  -- returns the older version, provided that the work queue hands out its key next.
  pub pop-add-add : (pop w (add w new_app (add w old_app q))).0 ≡ popped old_app
  unfolding add
  pop-add-add =
      rw (same_key, unknown, known (app_key new_app) _ q.active_q)
        (pop_found w _ (app_key new_app) old_app next (
          rw
            (
              lookup-insert (app_key new_app) (app_key new_app) (entry_of old_app) q.active_q,
              eq_refl (app_key new_app),
            )
            refl))
