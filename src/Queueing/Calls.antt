-- ===== src/Queueing/Calls.antt =====
-- Histories of the calls of the queue.
use kumquat.Base.{List, [], ◌∷◌, Option, none, some, ℤ}
use kumquat.Api.{Application}
use kumquat.Queueing.{
  WorkQueue, QueuedApplicationInfo, SchedulingQueue, add, add_unschedulable_if_not_present, pop,
  done, forget, requeue, requeue_after, update, delete_app, close,
}

pub data Call : Type 0 where
  adds dones forgets requeues deletes : Application → Call
  adds_unschedulable : Application → Option QueuedApplicationInfo → Call
  requeues_after : Application → Option ℤ → Call
  updates : Application → Application → Call
  pops closes : Call

module _ (w : WorkQueue) where
  unfoldable pub call : Call → SchedulingQueue w → Option (SchedulingQueue w)
  call (adds app) q = some (add w app q)
  call (adds_unschedulable app info) q = some (add_unschedulable_if_not_present w app info q)
  call (dones app) q = some (done w app q)
  call (forgets app) q = some (forget w app q)
  call (requeues app) q = some (requeue w app q)
  call (requeues_after app delay) q = some (requeue_after w app delay q)
  call (updates old_app new_app) q = update w old_app new_app q
  call (deletes app) q = some (delete_app w app q)
  call pops q = some (pop w q).1
  call closes q = some (close w q)

  -- `none` where a call panics
  unfoldable pub run : List Call → SchedulingQueue w → Option (SchedulingQueue w)
  run [] q = some q
  run (x ∷ xs) q = elim (call x q) [ none ↦ none | some q' ↦ run xs q' ]
