-- ===== src/Scheduler/Cycle/Binding.antt =====
-- What binding and assuming a placement do, in bind and in the last step of scheduleOne.
use kumquat.Base.{
  ◌⊎◌, inl, inr, String, Bool, true, false, ◌≡◌, refl, ap, ◌∙◌, ◌&&◌, ℤ, if◌then◌else◌, List, [],
  ◌∷◌, Option, none, some, ◌=ˢ◌,
}
use kumquat.Api.{Application, ClusterTopology, Resources}
use kumquat.Api.Floats.{Floats}
use kumquat.Cache.Assuming.{
  or_else, assumed_on, can_assume, assumed_on-assume_application, can_assume-assume_application,
}
use kumquat.Cache.Store.{ClusterCache, assume_application}
use kumquat.Queueing.{WorkQueue, app_key}
use kumquat.Scheduler.Cycle.{Client, update_fetched, assume_all}
use kumquat.Scheduler.Events.{Fetched, found, missing, broken}
use kumquat.Scheduler.Slices.{Slices}

-- The replicas of a cluster in a placement; the first entry counts.
abbrev pub replicas_at : String → List ClusterTopology → Option ℤ
replicas_at name [] = none
replicas_at name (p ∷ ps) =
    let later = replicas_at name ps in if p.name =ˢ name then some p.replicas else later

abbrev pub is_found : Fetched Application → Bool
is_found (found a) = true
is_found missing = false
is_found (broken message) = false

nothing_more : (b : Bool) (o : Option ℤ) → o ≡ (if b then or_else o none else o)
nothing_more true none = refl
nothing_more true (some x) = refl
nothing_more false o = refl

first_counts :
    (b same : Bool) (o rest : Option ℤ) (x : ℤ)
    → (if b
        then or_else (if same && b then or_else o (some x) else o) rest
        else (if same && b then or_else o (some x) else o))
      ≡ (if b then or_else o (if same then some x else rest) else o)
first_counts true true none rest x = refl
first_counts true true (some y) rest x = refl
first_counts true false o rest x = refl
first_counts false true o rest x = refl
first_counts false false o rest x = refl

module _ (w : WorkQueue) (c : Client) (r : Resources) (f : Floats) (sl : Slices) where
  pub assumed_on-assume_all :
      (app : Application) (n : String) (ps : List ClusterTopology) (cache : ClusterCache r.Quantity)
      → assumed_on (app_key app) n (assume_all w c r f sl app ps cache) ≡ (
          if can_assume r app n cache
          then or_else (assumed_on (app_key app) n cache) (replicas_at n ps)
          else assumed_on (app_key app) n cache)
  unfolding assume_all
  assumed_on-assume_all app n [] cache =
      nothing_more (can_assume r app n cache) (assumed_on (app_key app) n cache)
  assumed_on-assume_all app n (p ∷ ps) cache =
      assumed_on-assume_all app n ps
        (assume_application r app (app_key app) p.name p.replicas cache).0
      ∙ rw
          (
            can_assume-assume_application r app (app_key app) p.name n p.replicas cache,
            assumed_on-assume_application r app (app_key app) p.name n p.replicas cache,
          )
          (first_counts (can_assume r app n cache) (p.name =ˢ n) (assumed_on (app_key app) n cache)
            (replicas_at n ps) p.replicas)

  -- The API server takes a placement only for an application that it finds.
  pub found_and_updated :
      (app : Application) (placement : List ClusterTopology) (api after : c.State)
      (answer : Fetched Application)
      → c.get app.namespace app.name api ≡ answer
      → update_fetched w c r f sl placement answer api ≡ (none, after)
      → (latest : Application) × (c.get app.namespace app.name api ≡ found latest)
        × (c.update_status
              (record latest { topology = placement; scheduling_phase = "Scheduled" })
              api
            ≡ (none, after))
  found_and_updated app placement api after (found latest) e a = (latest, e, a)
  found_and_updated app placement api after missing e a =
      let error : Option String = some "not found" in
      let impossible : error ≡ none = ap (λ p. p.0) a in cc
  found_and_updated app placement api after (broken message) e a =
      let error : Option String = some message in
      let impossible : error ≡ none = ap (λ p. p.0) a in cc

  -- An error means that the application was not returned or that the update was refused.
  pub not_updated :
      (app : Application) (placement : List ClusterTopology) (api after : c.State) (error : String)
      (answer : Fetched Application)
      → c.get app.namespace app.name api ≡ answer
      → update_fetched w c r f sl placement answer api ≡ (some error, after)
      → ((latest : Application) × (c.get app.namespace app.name api ≡ found latest)
          × (c.update_status
                (record latest { topology = placement; scheduling_phase = "Scheduled" })
                api
              ≡ (some error, after)))
        ⊎ (is_found (c.get app.namespace app.name api) ≡ false)
  not_updated app placement api after error (found latest) e a = inl (latest, e, a)
  not_updated app placement api after error missing e a = inr (ap is_found e)
  not_updated app placement api after error (broken message) e a = inr (ap is_found e)
