-- ===== src/Scheduler/Events/Assumptions.antt =====
-- What the reconciliation of an application leaves in the queue and of its assumptions.
use Prim.Native.String.{◌++◌}
use kumquat.Base.{
  String, ◌≡◌, refl, sym, Bool, true, false, ◌||◌, [], ◌∷◌, Map, lookup, insert, delete, has_key,
  lookup-insert, lookup-delete, has_key-lookup, eq_refl, if◌then◌else◌, Option-cases, Bool-cases,
  inl, inr,
}
use kumquat.Api.{Application, Resources}
use kumquat.Cache.Store.{ClusterInfo, forget_in, forget_everywhere, remove_assumed_application}
use kumquat.Queueing.{WorkQueue, SchedulingQueue, app_key, add, delete_app}
use kumquat.Scheduler.Events.{
  Fetched, found, missing, broken, Shared, needs_scheduling, forget_deleted, reconcile_application,
}

-- Whether some cluster assumes that it runs the application with the key.
abbrev pub is_assumed : {Q : Type 0} → String → Map (ClusterInfo Q) → Bool
is_assumed key [] = false
is_assumed key ((name, info) ∷ infos) =
    has_key key info.assumed_applications || is_assumed key infos

-- A fetched application has the key of the request.
abbrev pub HasKey : String → Fetched Application → Type 0
HasKey key (found app) = app_key app ≡ key
HasKey key missing = Unit
HasKey key (broken message) = Unit

has_key-insert_same :
    {V : Type 0} (key : String) (v : V) (m : Map V) → has_key key (insert key v m) ≡ true
has_key-insert_same key v m =
    rw (has_key-lookup key (insert key v m), lookup-insert key key v m, eq_refl key) refl

has_key-delete_same : {V : Type 0} (key : String) (m : Map V) → has_key key (delete key m) ≡ false
has_key-delete_same key m =
    rw (has_key-lookup key (delete key m), lookup-delete key key m, eq_refl key) refl

module _ (w : WorkQueue) (r : Resources) where
  forget_in-forgets :
      (key : String) (info : ClusterInfo r.Quantity)
      → has_key key (forget_in r key info).assumed_applications ≡ false
  forget_in-forgets key info = elim (Option-cases (lookup key info.assumed_applications)) [
    | inl e ↦ rw (e, forget_in) (rw (has_key-lookup key info.assumed_applications, e) refl)
    | inr (a, e) ↦ rw (e, forget_in) (has_key-delete_same key info.assumed_applications)
  ]

  forget_everywhere-forgets :
      (key : String) (infos : Map (ClusterInfo r.Quantity))
      → is_assumed key (forget_everywhere r key infos) ≡ false
  unfolding forget_everywhere
  forget_everywhere-forgets key [] = refl
  forget_everywhere-forgets key ((name, info) ∷ infos) =
      rw (forget_in-forgets key info) (forget_everywhere-forgets key infos)

  add-known :
      (app : Application) (q : SchedulingQueue w)
      → has_key (app_key app) (add w app q).active_q ≡ true
  unfolding add
  add-known app q = elim (Bool-cases (has_key (app_key app) q.active_q)) [
    | inl e ↦ rw (e, add) e
    | inr e ↦ rw (e, add) (has_key-insert_same (app_key app) _ q.active_q)
  ]

  -- The application with the key stands in the queue, or no cluster assumes it and, where it is
  -- gone, it stands in the queue no more.
  abbrev pub IsTracked : String → Fetched Application → Shared w r → Type 0
  IsTracked key (found app) s =
      if needs_scheduling app
      then has_key key s.queue.active_q ≡ true
      else is_assumed key s.cache.clusters ≡ false
  IsTracked key missing s =
      (has_key key s.queue.active_q ≡ false) × (is_assumed key s.cache.clusters ≡ false)
  IsTracked key (broken message) s =
      (has_key key s.queue.active_q ≡ false) × (is_assumed key s.cache.clusters ≡ false)

  forgotten :
      (key : String) (s : Shared w r)
      → is_assumed key (remove_assumed_application r key s.cache).clusters ≡ false
  unfolding remove_assumed_application
  forgotten key s = forget_everywhere-forgets key s.cache.clusters

  -- After the reconciliation of an application that was fetched, it stands in the queue or, where
  -- it needs no scheduling, no cluster assumes it any more; of one that was not fetched neither the
  -- queue nor a cluster knows the key. The condition is that a fetched application has the key of
  -- the request.
  pub reconcile_application-IsTracked :
      (namespace name : String) (answer : Fetched Application) (s : Shared w r)
      (named : HasKey (namespace ++ "/" ++ name) answer)
      → IsTracked
          (namespace ++ "/" ++ name)
          answer
          (reconcile_application w r namespace name answer s).0
  unfolding reconcile_application forget_deleted delete_app app_key
  reconcile_application-IsTracked namespace name (found app) s named =
      elim (Bool-cases (needs_scheduling app)) [
        | inl e ↦ rw (e, sym named) (add-known app s.queue)
        | inr e ↦ rw (e, sym named) (forgotten (app_key app) s)
      ]
  reconcile_application-IsTracked namespace name missing s named = (
    has_key-delete_same (namespace ++ "/" ++ name) s.queue.active_q,
    forgotten (namespace ++ "/" ++ name) s,
  )
  reconcile_application-IsTracked namespace name (broken message) s named = (
    has_key-delete_same (namespace ++ "/" ++ name) s.queue.active_q,
    forgotten (namespace ++ "/" ++ name) s,
  )
