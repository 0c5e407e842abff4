-- ===== src/Queueing/Keyed.antt =====
-- The keys of the applications in the queue of scheduler/queue/queue.go.
use kumquat.Base.{
  String, ◌≡◌, refl, ap, ◌∙◌, List, [], ◌∷◌, Option, none, some, Map, ℤ, pos, lookup, has_key,
  insert, delete, lookup-insert, lookup-delete, ◌=ˢ◌, eq_iff, arith, Option-cases, inl, inr, All,
  Bool-cases,
}
use kumquat.Api.{Application}
use kumquat.Queueing.{
  WorkQueue, QueuedApplicationInfo, SchedulingQueue, popped, app_key, new_scheduling_queue, add,
  add_unschedulable_if_not_present, application_of, queued, count_attempt, drop_old, pop, done,
  forget, requeue, requeue_after, update, delete_app, close,
}
use kumquat.Queueing.Calls.{
  Call, adds, dones, forgets, requeues, deletes, adds_unschedulable, requeues_after, updates, pops,
  closes, call, run,
}

abbrev Entry : Type 0
Entry = Option (Option QueuedApplicationInfo)

module _ (w : WorkQueue) where
  -- The application of an entry, if it has one, has the key.
  pub IsOwn : String → Entry → Type 0
  IsOwn key e = (app : Application) → application_of w e ≡ some app → app_key app ≡ key

  pub IsKeyed : Map (Option QueuedApplicationInfo) → Type 0
  unfolding IsOwn
  IsKeyed m = (key : String) → IsOwn key (lookup key m)

  none-IsOwn : (key : String) → IsOwn key none
  unfolding IsOwn
  none-IsOwn key app h = cc

  insert-IsKeyed :
      (key : String) (e : Option QueuedApplicationInfo) (m : Map (Option QueuedApplicationInfo))
      → IsKeyed m
      → IsOwn key (some e)
      → IsKeyed (insert key e m)
  unfolding IsOwn IsKeyed
  insert-IsKeyed key e m h own k app found = elim (Bool-cases (key =ˢ k)) [
    | inl s ↦ own app (rw (lookup-insert key k e m, s) at found) ∙ ground (arith, eq_iff key k)
    | inr s ↦ h k app (rw (lookup-insert key k e m, s) at found)
  ]

  delete-IsKeyed :
      (key : String) (m : Map (Option QueuedApplicationInfo)) → IsKeyed m → IsKeyed (delete key m)
  unfolding IsOwn IsKeyed
  delete-IsKeyed key m h k app found = elim (Bool-cases (key =ˢ k)) [
    | inl s ↦ none-IsOwn k app (rw (lookup-delete key k m, s) at found)
    | inr s ↦ h k app (rw (lookup-delete key k m, s) at found)
  ]

  new-IsOwn :
      (app : Application) (n : ℤ)
      → IsOwn (app_key app) (some (some (record { application = some app; attempts = n })))
  unfolding IsOwn
  new-IsOwn app n other h = ground (arith, h)

  pub add-IsKeyed :
      (app : Application) (q : SchedulingQueue w)
      → IsKeyed q.active_q
      → IsKeyed (add w app q).active_q
  unfolding add
  add-IsKeyed app q h = elim (Bool-cases (has_key (app_key app) q.active_q)) [
    | inl e ↦ rw (e, add) h
    | inr e ↦ rw (e, add) (insert-IsKeyed (app_key app) _ q.active_q h (new-IsOwn app (pos 0)))
  ]

  counted-IsOwn :
      (key : String) (info : Option QueuedApplicationInfo)
      → IsOwn key (some info)
      → IsOwn key (some (count_attempt w info))
  unfolding IsOwn
  counted-IsOwn key none h app f = cc
  counted-IsOwn key (some info) h app f = h app f

  add_unschedulable-IsKeyed :
      (app : Application) (info : Option QueuedApplicationInfo) (q : SchedulingQueue w)
      → IsOwn (app_key app) (some info)
      → IsKeyed q.active_q
      → IsKeyed (add_unschedulable_if_not_present w app info q).active_q
  unfolding add_unschedulable_if_not_present
  add_unschedulable-IsKeyed app info q own h =
      elim (Bool-cases (has_key (app_key app) q.active_q)) [
        | inl e ↦ rw (e, add_unschedulable_if_not_present) h
        | inr e ↦
            rw (e, add_unschedulable_if_not_present)
              (insert-IsKeyed (app_key app) _ q.active_q h (counted-IsOwn (app_key app) info own))
      ]

  -- What a call leaves, if it does not panic.
  pub Keeps : Option (SchedulingQueue w) → Type 0
  unfolding IsKeyed
  Keeps none = Unit
  Keeps (some q) = IsKeyed q.active_q

  drop_old-IsKeyed :
      (old_key new_key : String) (m : Map (Option QueuedApplicationInfo))
      → IsKeyed m
      → IsKeyed (drop_old w old_key new_key m)
  drop_old-IsKeyed old_key new_key m h = elim (Bool-cases (old_key =ˢ new_key)) [
    | inl e ↦ rw e h
    | inr e ↦ rw e (delete-IsKeyed old_key m h)
  ]

  update-Keeps :
      (old_app new_app : Application) (q : SchedulingQueue w)
      → IsKeyed q.active_q
      → Keeps (update w old_app new_app q)
  unfolding update Keeps
  update-Keeps old_app new_app q h =
      let kept = drop_old-IsKeyed (app_key old_app) (app_key new_app) q.active_q h in
      elim (Option-cases
        (lookup (app_key new_app) (drop_old w (app_key old_app) (app_key new_app) q.active_q))) [
          | inl e ↦
              rw (e, update) (insert-IsKeyed (app_key new_app) _ _ kept (new-IsOwn new_app (pos 0)))
          | inr (info, e) ↦ elim (Option-cases info) [
            | inl f ↦ rw (e, f, update) tt
            | inr (i, f) ↦
                rw (e, f, update)
                  (insert-IsKeyed (app_key new_app) _ _ kept (new-IsOwn new_app i.attempts))
          ]
        ]

  -- An information that is handed in belongs to its application.
  unfoldable pub IsProper : Call → Type 0
  unfolding IsOwn
  IsProper (adds_unschedulable app info) = IsOwn (app_key app) (some info)
  IsProper _ = Unit

  pop-same : (q : SchedulingQueue w) → (pop w q).1.active_q ≡ q.active_q
  unfolding pop
  pop-same q = elim (Option-cases (w.get q.queue).0) [
    | inl e ↦ rw (e, pop) refl
    | inr (key, e) ↦ elim (Option-cases (queued w key q.active_q)) [
      | inl f ↦ rw (e, f, pop) refl
      | inr (app, f) ↦ rw (e, f, pop) refl
    ]
  ]

  call-Keeps :
      (x : Call) (q : SchedulingQueue w) → IsProper x → IsKeyed q.active_q → Keeps (call w x q)
  unfolding call Keeps IsProper done forget requeue requeue_after delete_app close
  call-Keeps (adds app) q p h = add-IsKeyed app q h
  call-Keeps (adds_unschedulable app info) q p h = add_unschedulable-IsKeyed app info q p h
  call-Keeps (dones app) q p h = h
  call-Keeps (forgets app) q p h = delete-IsKeyed (app_key app) q.active_q h
  call-Keeps (requeues app) q p h = h
  call-Keeps (requeues_after app delay) q p h = h
  call-Keeps (updates old_app new_app) q p h = update-Keeps old_app new_app q h
  call-Keeps (deletes app) q p h = delete-IsKeyed (app_key app) q.active_q h
  call-Keeps pops q p h = rw (pop-same q) h
  call-Keeps closes q p h = h

  run-Keeps :
      (xs : List Call) (q : SchedulingQueue w)
      → All IsProper xs
      → IsKeyed q.active_q
      → Keeps (run w xs q)
  unfolding run Keeps
  run-Keeps [] q p h = h
  run-Keeps (x ∷ xs) q p h = elim (Option-cases (call w x q)) [
    | inl f ↦ rw (f, run) tt
    | inr (q1, f) ↦ rw (f, run) (run-Keeps xs q1 p.1 (rw f at (call-Keeps x q p.0 h)))
  ]

  pop-app_key :
      (q : SchedulingQueue w) (app : Application)
      → IsKeyed q.active_q
      → (pop w q).0 ≡ popped app
      → (w.get q.queue).0 ≡ some (app_key app)
  unfolding pop IsKeyed IsOwn
  pop-app_key q app h e = elim (Option-cases (w.get q.queue).0) [
    | inl f ↦ cc (rw (f, pop) at e)
    | inr (key, f) ↦ elim (Option-cases (queued w key q.active_q)) [
      | inl g ↦ cc (rw (f, g, pop) at e)
      | inr (found, g) ↦
          let own : app_key found ≡ key = h key found g in
          let same : popped found ≡ popped app = rw (f, g, pop) at e in cc
    ]
  ]

  -- What Pop returns stands in the queue under its own key, before and after the call.
  pub pop-known :
      (q : SchedulingQueue w) (app : Application)
      → IsKeyed q.active_q
      → (pop w q).0 ≡ popped app
      → queued w (app_key app) (pop w q).1.active_q ≡ some app
  unfolding pop IsKeyed IsOwn
  pop-known q app h e = elim (Option-cases (w.get q.queue).0) [
    | inl f ↦ cc (rw (f, pop) at e)
    | inr (key, f) ↦ elim (Option-cases (queued w key q.active_q)) [
      | inl g ↦ cc (rw (f, g, pop) at e)
      | inr (known, g) ↦
          let own : app_key known ≡ key = h key known g in
          let same : popped known ≡ popped app = rw (f, g, pop) at e in
          let kept : queued w (app_key app) q.active_q ≡ some app = cc in
          ap (queued w (app_key app)) (pop-same q) ∙ kept
    ]
  ]

  pub new-IsKeyed : IsKeyed (new_scheduling_queue w).active_q
  unfolding IsKeyed new_scheduling_queue lookup
  new-IsKeyed key = none-IsOwn key

  -- After any history of calls that does not panic, an application that Pop returns has the key that
  -- the work queue handed out, so that Done on the application finishes that very item, provided
  -- that each information that AddUnschedulableIfNotPresent takes belongs to its application.
  pub run-popped :
      (xs : List Call) (proper : All IsProper xs) (q : SchedulingQueue w)
      (ran : run w xs (new_scheduling_queue w) ≡ some q) (app : Application)
      (found : (pop w q).0 ≡ popped app)
      → (w.get q.queue).0 ≡ some (app_key app)
  unfolding Keeps
  run-popped xs proper q ran app found =
      pop-app_key q app (rw ran at (run-Keeps xs (new_scheduling_queue w) proper new-IsKeyed)) found
