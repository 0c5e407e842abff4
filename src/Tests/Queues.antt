-- ===== src/Tests/Queues.antt =====
-- Tests of the scheduling queue, over a work queue that is a plain list.
use kumquat.Base.{
  lookup, insert, delete, has_key, ◌≡◌, refl, List, [], ◌∷◌, ◌++◌, Option, none, some, String, pos,
}
use kumquat.Api.{Application}
use kumquat.Queueing.{
  WorkQueue, SchedulingQueue, popped, app_key, new_scheduling_queue, add, pop, update,
}
use kumquat.Queueing.Calls.{adds, updates, call, run}
use kumquat.Queueing.Keyed.{IsProper, run-popped}
use kumquat.Queueing.Stale.{pop-add-add}
use kumquat.Tests.Samples.{stateful_app}

abbrev pub first : List String → Option String × List String
first [] = (none, [])
first (key ∷ keys) = (some key, keys)

abbrev pub plain_list : WorkQueue
plain_list = record {
  State = List String;
  new = [];
  add = λ key keys. keys ++ key ∷ [];
  add_rate_limited = λ key keys. keys ++ key ∷ [];
  add_after = λ key delay keys. keys ++ key ∷ [];
  get = first;
  done = λ key keys. keys;
  forget = λ key keys. keys;
  shut_down = λ keys. keys;
}

abbrev older : Application
older = stateful_app 3 []

abbrev newer : Application
newer = stateful_app 5 []

-- The queue after the older application is added, and then updated to the newer one.
abbrev updated_queue : SchedulingQueue plain_list
updated_queue = record {
  queue = app_key newer ∷ [];
  active_q = (app_key newer, some (record { application = some newer; attempts = pos 0 })) ∷ [];
}

run-popped_example : (plain_list.get updated_queue.queue).0 ≡ some (app_key newer)
unfolding IsProper run call add update new_scheduling_queue pop lookup insert delete has_key app_key
run-popped_example =
    run-popped plain_list (adds older ∷ updates older newer ∷ []) (tt, (tt, tt)) updated_queue refl
      newer refl

pop-add-add_example :
    (pop plain_list
      (add plain_list newer (add plain_list older (new_scheduling_queue plain_list)))).0
    ≡ popped older
unfolding new_scheduling_queue has_key app_key
pop-add-add_example =
    pop-add-add plain_list older newer (new_scheduling_queue plain_list) refl refl refl
