-- ===== src/Scheduler/Cycle/Outcomes.antt =====
-- What a run of scheduleOne leaves behind: the queue, the cache and the API server.
use kumquat.Base.{
  String, false, ◌≡◌, refl, sym, ap, subst, ◌∙◌, inl, inr, ◌||◌, List, [], ◌∷◌, Option, none, some,
  Map, lookup, lookup-delete, delete, is_nil, eq_iff, arith, ◌=ˢ◌, Bool-cases, ℤ,
}
use kumquat.Api.{Application, ClusterTopology, Resources}
use kumquat.Api.Floats.{Floats}
use kumquat.Framework.{SchedulerConfig, Framework, Scored, scored, failed}
use kumquat.Cache.Consistency.{IsConsistent}
use kumquat.Cache.Histories.{assume_application-IsConsistent}
use kumquat.Cache.Store.{ClusterCache, snapshot}
use kumquat.Queueing.{
  WorkQueue, SchedulingQueue, QueuedApplicationInfo, Popped, popped, not_found, pop, done, forget,
  requeue, app_key, queued, application_of,
}
use kumquat.Queueing
use kumquat.Queueing.Keyed.{IsKeyed, pop-known}
use kumquat.Scheduler.Cycle.{
  Client, Outcome, attempted, World, choose_placement, bind, assume_all, requeued, bound,
  bind_chosen, choose_scored, scoring_state, feasible, attempt, finish, attempt_popped,
  schedule_one,
}
use kumquat.Scheduler.Slices.{Slices}
use kumquat.Scheduler.Cycle.Binding.{assumed_on-assume_all, found_and_updated, not_updated}
use kumquat.Scheduler.Cycle.Settled.{
  ranking, Cause, nowhere, unscored, unplaced, out_of_range, unknown, refused, IsKept, Settled,
}

gone : {V : Type 0} (k : String) (m : Map V) → lookup k (delete k m) ≡ none
gone k m = ground (arith, lookup-delete k k m, eq_iff k k)

module _ (w : WorkQueue) (c : Client) (r : Resources) (f : Floats) (sl : Slices) where
  module _ (config : SchedulerConfig) (fw : Framework r.Quantity) (app : Application)
      (s : World w c r f sl) (known : queued w (app_key app) s.queue.active_q ≡ some app) where
    requeued-IsKept :
        (reason : String) (s' : World w c r f sl)
        → Cause w c r f sl config fw app s.cache s.api
        → (reason =ˢ "success") ≡ false
        → s'.cache ≡ s.cache
        → s'.queue ≡ s.queue
        → IsKept w c r f sl config fw app s (attempted reason, requeued w c r f sl app s')
    unfolding requeue
    requeued-IsKept reason s' cause failure same same_queue = record {
      failure = failure;
      cause = cause;
      same_cache = same;
      known = ap (λ q. queued w (app_key app) q.active_q) same_queue ∙ known;
    }

    module _ (scores : Map ℤ)
        (ranked : ranking w c r f sl config fw app s.cache s.api ≡ scored scores) where
      bound-Settled :
          (placement : List ClusterTopology) (answer : Option String × c.State)
          → is_nil placement ≡ false
          → choose_placement w c r f sl config app scores (snapshot r s.cache) ≡ some placement
          → bind w c r f sl app placement s.api ≡ answer
          → Settled w c r f sl config fw app s (bound w c r f sl app placement answer s)
      unfolding forget bind
      bound-Settled placement (none, api) full chosen accepted =
          let taken =
            found_and_updated w c r f sl app placement s.api api
              (c.get app.namespace app.name s.api) refl accepted in
          inl (record {
            success = refl;
            scores = scores;
            ranked = ranked;
            placement = placement;
            chosen = chosen;
            placed = full;
            latest = taken.0;
            fetched = taken.1;
            accepted = taken.2;
            by_loop = refl;
            assumed = λ name. assumed_on-assume_all w c r f sl app name placement s.cache;
            forgotten = ap (application_of w) (gone (app_key app) s.queue.active_q);
          })
      bound-Settled placement (some error, api) full chosen accepted = inr (
          requeued-IsKept "error" (record s { api = api })
            (elim (not_updated w c r f sl app placement s.api api error
              (c.get app.namespace app.name s.api) refl accepted) [
                | inl taken ↦
                    refused scores placement taken.0 error api ranked chosen taken.1 taken.2
                | inr absent ↦ unknown scores placement ranked chosen absent
              ])
            refl refl refl)

      bind_chosen-Settled :
          (choice : Option (List ClusterTopology))
          → choose_placement w c r f sl config app scores (snapshot r s.cache) ≡ choice
          → Settled w c r f sl config fw app s (bind_chosen w c r f sl app choice s)
      bind_chosen-Settled none chosen = inr (record {
        failure = refl;
        cause = out_of_range scores ranked chosen;
        same_cache = refl;
        known = known;
      })
      bind_chosen-Settled (some []) chosen =
          inr (requeued-IsKept "unschedulable" s (unplaced scores ranked chosen) refl refl refl)
      bind_chosen-Settled (some (p ∷ ps)) chosen = bound-Settled (p ∷ ps) _ refl chosen refl

    choose_scored-Settled :
        (answer : Scored)
        → ranking w c r f sl config fw app s.cache s.api ≡ answer
        → Settled w c r f sl config fw app s
            (choose_scored w c r f sl config app (snapshot r s.cache) answer s)
    choose_scored-Settled (failed status) e =
        inr (requeued-IsKept "error" s (unscored status e) refl refl refl)
    choose_scored-Settled (scored scores) e =
        bind_chosen-Settled scores e
          (choose_placement w c r f sl config app scores (snapshot r s.cache)) refl

    attempt-Settled : Settled w c r f sl config fw app s (attempt w c r f sl config fw app s)
    unfolding attempt scoring_state
    attempt-Settled =
        let snap = snapshot r s.cache in
        elim (Bool-cases (is_nil snap.clusters || is_nil (feasible w c r f sl fw app snap))) [
          | inl e ↦
              rw (e, attempt) (inr (requeued-IsKept "unschedulable" s (nowhere e) refl refl refl))
          | inr e ↦
              rw (e, attempt)
                (choose_scored-Settled (ranking w c r f sl config fw app s.cache s.api) refl)
        ]

  finish-Settled :
      (config : SchedulerConfig) (fw : Framework r.Quantity) (app : Application)
      (s : World w c r f sl) (queue : SchedulingQueue w) (result : Outcome × World w c r f sl)
      → Settled w c r f sl config fw app (record s { queue = queue }) result
      → Settled w c r f sl config fw app s (finish w c r f sl app result)
  unfolding done
  finish-Settled config fw app s queue result (inl b) = inl (record {
    success = b.success;
    scores = b.scores;
    ranked = b.ranked;
    placement = b.placement;
    chosen = b.chosen;
    placed = b.placed;
    latest = b.latest;
    fetched = b.fetched;
    accepted = b.accepted;
    by_loop = b.by_loop;
    assumed = b.assumed;
    forgotten = b.forgotten;
  })
  finish-Settled config fw app s queue result (inr k) =
      inr (record {
        failure = k.failure;
        cause = k.cause;
        same_cache = k.same_cache;
        known = k.known;
      })

  popped-Settled :
      (config : SchedulerConfig) (fw : Framework r.Quantity) (s : World w c r f sl)
      (app : Application) (answer : Popped × SchedulingQueue w)
      → answer.0 ≡ popped app
      → queued w (app_key app) answer.1.active_q ≡ some app
      → Settled w c r f sl config fw app s (attempt_popped w c r f sl config fw answer s)
  popped-Settled config fw s app (popped other, queue) e known =
      let same : other ≡ app = cc in
      subst
        (λ a.
          Settled w c r f sl config fw app s
            (finish w c r f sl a (attempt w c r f sl config fw a (record s { queue = queue }))))
        (sym same)
        (finish-Settled config fw app s queue _
          (attempt-Settled config fw app (record s { queue = queue }) known))
  popped-Settled config fw s app (Queueing.shut_down, queue) e known = cc
  popped-Settled config fw s app (not_found key, queue) e known = cc

  pub schedule_one-settles :
      (config : SchedulerConfig) (fw : Framework r.Quantity) (s : World w c r f sl)
      (app : Application) (keyed : IsKeyed w s.queue.active_q)
      (taken : (pop w s.queue).0 ≡ popped app)
      → Settled w c r f sl config fw app s (schedule_one w c r f sl config fw s)
  unfolding schedule_one
  schedule_one-settles config fw s app keyed taken =
      popped-Settled config fw s app (pop w s.queue) taken (pop-known w s.queue app keyed taken)

  assume_all-IsConsistent :
      (app : Application) (ps : List ClusterTopology) (cache : ClusterCache r.Quantity)
      → IsConsistent cache
      → IsConsistent (assume_all w c r f sl app ps cache)
  unfolding assume_all
  assume_all-IsConsistent app [] cache h = h
  assume_all-IsConsistent app (p ∷ ps) cache h =
      assume_all-IsConsistent app ps _
        (assume_application-IsConsistent r app (app_key app) p.name p.replicas cache h)

  -- Under the same condition scheduleOne keeps the label index in agreement with the clusters.
  pub schedule_one-IsConsistent :
      (config : SchedulerConfig) (fw : Framework r.Quantity) (s : World w c r f sl)
      (app : Application) (keyed : IsKeyed w s.queue.active_q)
      (taken : (pop w s.queue).0 ≡ popped app) (consistent : IsConsistent s.cache)
      → IsConsistent (schedule_one w c r f sl config fw s).1.cache
  schedule_one-IsConsistent config fw s app keyed taken consistent =
      elim (schedule_one-settles config fw s app keyed taken) [
        | inl b ↦
            subst IsConsistent (sym b.by_loop)
              (assume_all-IsConsistent app b.placement s.cache consistent)
        | inr k ↦ subst IsConsistent (sym k.same_cache) consistent
      ]
