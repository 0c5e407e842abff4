-- ===== src/Controller/Placement.antt =====
-- The loop over the placement and the cleanup after it.
use kumquat.Base.{
  ℕ, ◌+◌, ◌<◌, String, ◌≡◌, refl, ap, subst, ◌∙◌, Bool, true, false, ◌||◌, List, [], ◌∷◌, ◌++◌,
  Option, none, some, ℤ, pos, pos_part, neg_part, add32, add32-pos, any, All, contains, ◌=ˢ◌, arith,
  eq_iff, Bool-cases, inl, inr,
}
use kumquat.Api.{ClusterTopology}
use kumquat.Controller.{
  ClusterStatus, ManagedApplication, client, deleted, Answers, Effect, deploys, deletes_workload,
  was_healthy, goes_on, stops, previous_is_healthy, visit,
}
use kumquat.Controller.Reconcile.{
  clean_up, cleaned, patched, visit_placement, reconcile_placement, then_run,
}
use kumquat.Scheduler.Events.{found}
use kumquat.Scheduler.Slices.{Slices}
use kumquat.Scheduler.Spread.{by_name}
use kumquat.Scheduler.Waterfill.Sums.{total_replicas}

-- Every cluster exists, has a client, takes what is deployed, and deletes what is asked.
pub record IsSmooth (answers : Answers) : Type 0 where
  pub exists : (name : String) → answers.get_cluster name ≡ found tt
  pub connected : (name : String) → answers.get_client name ≡ client
  pub deployed : (name : String) (start : ℤ) → answers.deploy name start ≡ none
  pub removed : (name : String) → answers.delete_workload name ≡ deleted

abbrev pub removes : String → Effect → Bool
removes name (deletes_workload other) = other =ˢ name
removes name _ = false

any-append : (p : Effect → Bool) (xs ys : List Effect) → any p (xs ++ ys) ≡ (any p xs || any p ys)
any-append p [] ys = refl
any-append p (x ∷ xs) ys = ground (arith, any-append p xs ys)

-- The deployments, each from the ordinal after those of the clusters before it.
abbrev pub in_sequence : ℕ → List ClusterTopology → List Effect
in_sequence start [] = []
in_sequence start (t ∷ ts) =
    deploys t.name (pos start) ∷ in_sequence (start + pos_part t.replicas) ts

module _ (answers : Answers) (smooth : IsSmooth answers) (statuses : List ClusterStatus) where
  -- One round over a cluster whose predecessor is healthy.
  visit_next :
      (previous : Option String) (start : ℤ) (t : ClusterTopology) (ts : List ClusterTopology)
      → previous_is_healthy previous statuses ≡ true
      → visit answers true statuses previous start (t ∷ ts)
        ≡ goes_on t.name
            (deploys t.name start ∷ [])
            (visit answers true statuses (some t.name) (add32 start t.replicas) ts)
  unfolding visit
  visit_next previous start t ts h =
      rw (h, smooth.exists t.name, smooth.connected t.name, smooth.deployed t.name start) refl

  -- One round over a cluster whose predecessor is not.
  visit_held :
      (previous : Option String) (start : ℤ) (t : ClusterTopology) (ts : List ClusterTopology)
      → previous_is_healthy previous statuses ≡ false
      → visit answers true statuses previous start (t ∷ ts) ≡ stops t.name [] none
  unfolding visit
  visit_held previous start t ts h = rw h refl

  visit-in_sequence :
      (previous : Option String) (start : ℕ) (ts : List ClusterTopology)
      → previous_is_healthy previous statuses ≡ true
      → All (λ t. was_healthy t.name statuses ≡ true) ts
      → All (λ t. neg_part t.replicas ≡ 0) ts
      → start + total_replicas ts < 2147483648
      → (visit answers true statuses previous (pos start) ts).run.effects ≡ in_sequence start ts
  unfolding visit
  visit-in_sequence previous start [] h k n b = refl
  visit-in_sequence previous start (t ∷ ts) h k n b =
      let next : add32 (pos start) t.replicas ≡ pos (start + pos_part t.replicas) =
        ground (arith, add32-pos start (pos_part t.replicas), n.0) in
      ap (λ pass. pass.run.effects) (visit_next previous (pos start) t ts h)
      ∙ ap
          (λ z.
            deploys t.name (pos start)
            ∷ (visit answers true statuses (some t.name) z ts).run.effects)
          next
      ∙ ap (λ es. deploys t.name (pos start) ∷ es)
          (visit-in_sequence (some t.name) (start + pos_part t.replicas) ts k.0 k.1 n.1
            (omega arith))

  -- The clusters of a StatefulSet get consecutive ranges of ordinals: each is deployed from the number
  -- of replicas of the clusters before it, where every cluster answers and was healthy, the numbers of
  -- replicas are natural and their sum fits an int32.
  pub visit_ordinals :
      (ts : List ClusterTopology) (all_healthy : All (λ t. was_healthy t.name statuses ≡ true) ts)
      (natural : All (λ t. neg_part t.replicas ≡ 0) ts) (small : total_replicas ts < 2147483648)
      → (visit answers true statuses none (pos 0) ts).run.effects ≡ in_sequence 0 ts
  visit_ordinals ts all_healthy natural small =
      visit-in_sequence none 0 ts refl all_healthy natural (omega (arith, small))

module _ (answers : Answers) (smooth : IsSmooth answers) where
  clean_up_kept :
      (current : List String) (old : String) (olds : List String)
      → contains old current ≡ true
      → clean_up answers current (old ∷ olds) ≡ clean_up answers current olds
  unfolding clean_up
  clean_up_kept current old olds h = rw h refl

  clean_up_removed :
      (current : List String) (old : String) (olds : List String)
      → contains old current ≡ false
      → clean_up answers current (old ∷ olds)
        ≡ then_run (deletes_workload old ∷ []) (clean_up answers current olds)
  unfolding clean_up
  clean_up_removed current old olds h = rw (h, smooth.connected old, smooth.removed old) refl

  clean_up-error : (current applied : List String) → (clean_up answers current applied).error ≡ none
  unfolding clean_up
  clean_up-error current [] = refl
  clean_up-error current (old ∷ olds) = elim (Bool-cases (contains old current)) [
    | inl e ↦ ap (λ r. r.error) (clean_up_kept current old olds e) ∙ clean_up-error current olds
    | inr e ↦ ap (λ r. r.error) (clean_up_removed current old olds e) ∙ clean_up-error current olds
  ]

  -- The cleanup removes the workload from each applied cluster that is not current.
  clean_up-removes :
      (name : String) (current applied : List String)
      → contains name current ≡ false
      → contains name applied ≡ true
      → any (removes name) (clean_up answers current applied).effects ≡ true
  unfolding contains
  clean_up-removes name current [] away here = cc
  clean_up-removes name current (old ∷ olds) away here = elim (Bool-cases (contains old current)) [
    | inl e ↦
        let other : (old =ˢ name) ≡ false = not_same e in
        let later : contains name olds ≡ true = ground arith in
        ap (λ r. any (removes name) r.effects) (clean_up_kept current old olds e)
        ∙ clean_up-removes name current olds away later
    | inr e ↦ elim (Bool-cases (old =ˢ name)) [
      | inl same ↦
          ap (λ r. any (removes name) r.effects) (clean_up_removed current old olds e)
          ∙ ap (λ b. b || any (removes name) (clean_up answers current olds).effects) same
      | inr other ↦
          let later : contains name olds ≡ true = ground arith in
          ap (λ r. any (removes name) r.effects) (clean_up_removed current old olds e)
          ∙ ap (λ b. b || any (removes name) (clean_up answers current olds).effects) other
          ∙ clean_up-removes name current olds away later
    ]
  ]
    where
      not_same : contains old current ≡ true → (old =ˢ name) ≡ false
      not_same e = elim (Bool-cases (old =ˢ name)) [
        | inr other ↦ other
        | inl same ↦
            let equal : old ≡ name = ground (arith, eq_iff old name) in
            let there : contains name current ≡ true =
              subst (λ k. contains k current ≡ true) equal e in
            cc
      ]

module _ (answers : Answers) (smooth : IsSmooth answers) (s : Slices) (m : ManagedApplication) where
  -- The loop stops at the second cluster, where the first one was not healthy.
  visit_held_second :
      (a b : ClusterTopology) (rest : List ClusterTopology)
      → was_healthy a.name m.clusters_status ≡ false
      → visit answers true m.clusters_status none (pos 0) (a ∷ b ∷ rest)
        ≡ goes_on a.name (deploys a.name (pos 0) ∷ []) (stops b.name [] none)
  visit_held_second a b rest h =
      visit_next answers smooth m.clusters_status none (pos 0) a (b ∷ rest) refl
      ∙ ap (goes_on a.name (deploys a.name (pos 0) ∷ [])) (
          visit_held answers smooth m.clusters_status (some a.name) (add32 (pos 0) a.replicas) b
            rest h)

  -- Where the first cluster of a StatefulSet's placement was not healthy, the run removes the workload
  -- from the third one, on which it was applied, although the placement has it, provided that every
  -- cluster answers and the third name is not that of the first two.
  pub third_is_removed :
      (a b c : ClusterTopology) (rest : List ClusterTopology)
      (stateful : (m.app.workload_kind =ˢ "StatefulSet") ≡ true)
      (sorted : s.sort by_name m.app.topology ≡ a ∷ b ∷ c ∷ rest)
      (unhealthy : was_healthy a.name m.clusters_status ≡ false)
      (applied : contains c.name m.applied_clusters ≡ true)
      (distinct : contains c.name (a.name ∷ b.name ∷ []) ≡ false)
      → any (removes c.name) (reconcile_placement s answers m).effects ≡ true
  unfolding reconcile_placement visit_placement
  third_is_removed a b c rest stateful sorted unhealthy applied distinct =
      let pass = goes_on a.name (deploys a.name (pos 0) ∷ []) (stops b.name [] none) in
      let visited : visit_placement s answers m ≡ pass =
        ap (λ k. visit answers k m.clusters_status none (pos 0) (s.sort by_name m.app.topology))
          stateful
        ∙ ap (visit answers true m.clusters_status none (pos 0)) sorted
        ∙ visit_held_second a b (c ∷ rest) unhealthy in
      let current : List String = a.name ∷ b.name ∷ [] in
      let cleanup = clean_up answers current m.applied_clusters in
      let effects : List Effect = deploys a.name (pos 0) ∷ cleanup.effects in
      ap (λ p. any (removes c.name) (cleaned answers m p.current p.run.effects p.run.error).effects)
        visited
      ∙ ap (λ e. any (removes c.name) (patched answers m current effects e).effects)
          (clean_up-error answers smooth current m.applied_clusters)
      ∙ any-append (removes c.name) effects _
      ∙ ground (
        arith,
        clean_up-removes answers smooth c.name current m.applied_clusters distinct applied,
      )
