-- ===== src/Cache/Assuming.antt =====
-- The applications that the cache assumes, after AssumeApplication of scheduler/cache/cache.go.
use kumquat.Base.{
  String, ◌≡◌, refl, ap, subst, ◌∙◌, Bool, true, false, ◌&&◌, [], Option, none, some, Map, ℤ,
  lookup, insert, has_key, lookup-insert, has_key-insert, has_key-lookup, ◌=ˢ◌, eq_iff, eq_refl,
  if◌then◌else◌, arith, Bool-cases, Option-cases, inl, inr,
}
use kumquat.Api.{Application, Resources, ResourceList}
use kumquat.Cache.Requests.{calculate_pod_resources}
use kumquat.Cache.Store.{
  AssumedApplicationInfo, ClusterCache, ClusterInfo, assume_application, assume_in, assume_requests,
}

abbrev is_there : {A : Type 0} → Option A → Bool
is_there none = false
is_there (some x) = true

abbrev pub or_else : {A : Type 0} → Option A → Option A → Option A
or_else none b = b
or_else (some a) b = some a

module _ {Q : Type 0} where
  abbrev replicas_of : Option (AssumedApplicationInfo Q) → Option ℤ
  replicas_of none = none
  replicas_of (some a) = some a.replicas

  abbrev replicas_in : String → Option (ClusterInfo Q) → Option ℤ
  replicas_in key none = none
  replicas_in key (some info) = replicas_of (lookup key info.assumed_applications)

  -- With how many replicas the cache assumes an application on a cluster, if it does.
  abbrev pub assumed_on : String → String → ClusterCache Q → Option ℤ
  assumed_on key name c = replicas_in key (lookup name c.clusters)

module _ (r : Resources) where
  -- The cluster is known, and the template of the application can be decoded.
  abbrev pub can_assume : Application → String → ClusterCache r.Quantity → Bool
  can_assume app name c = has_key name c.clusters && is_there (calculate_pod_resources r app)

  -- The answers at the cluster itself, over what the cache and the template say.
  own_answer :
      (key : String) (replicas : ℤ) (reqs : ResourceList r.Quantity) (info : ClusterInfo r.Quantity)
      → replicas_in key (some (assume_in r key replicas reqs info)) ≡ some replicas
  own_answer key replicas reqs info =
      rw
        (
          lookup-insert key key
              (record {
                resources = (assume_requests r replicas reqs ([], info.requested_resources)).0;
                replicas = replicas;
              })
              info.assumed_applications,
          eq_refl key,
        )
        refl

  assumed_already :
      (key : String) (replicas : ℤ) (info : ClusterInfo r.Quantity)
      → has_key key info.assumed_applications ≡ true
      → replicas_in key (some info) ≡ or_else (replicas_in key (some info)) (some replicas)
  assumed_already key replicas info h = elim (Option-cases (lookup key info.assumed_applications)) [
    | inl e ↦
        let absent : has_key key info.assumed_applications ≡ false =
          has_key-lookup key info.assumed_applications ∙ rw e refl in
        cc
    | inr (a, e) ↦ rw e refl
  ]

  not_assumed :
      (key : String) (replicas : ℤ) (info : ClusterInfo r.Quantity)
      → has_key key info.assumed_applications ≡ false
      → some replicas ≡ or_else (replicas_in key (some info)) (some replicas)
  not_assumed key replicas info h = elim (Option-cases (lookup key info.assumed_applications)) [
    | inl e ↦ rw e refl
    | inr (a, e) ↦
        let present : has_key key info.assumed_applications ≡ true =
          has_key-lookup key info.assumed_applications ∙ rw e refl in
        cc
  ]

  assumed_on-own :
      (app : Application) (key name : String) (replicas : ℤ) (c : ClusterCache r.Quantity)
      → assumed_on key name (assume_application r app key name replicas c).0 ≡ (
          if can_assume app name c
          then or_else (assumed_on key name c) (some replicas)
          else assumed_on key name c)
  unfolding assume_application
  assumed_on-own app key name replicas c = elim (Option-cases (lookup name c.clusters)) [
    | inl e ↦ rw (has_key-lookup name c.clusters, e, assume_application) (ap (replicas_in key) e)
    | inr (info, e) ↦ elim (Option-cases (calculate_pod_resources r app)) [
      | inl d ↦
          rw (has_key-lookup name c.clusters, e, d, assume_application) (ap (replicas_in key) e)
      | inr (reqs, d) ↦ elim (Bool-cases (has_key key info.assumed_applications)) [
        | inl h ↦
            rw (has_key-lookup name c.clusters, e, d, h, assume_application)
              (ap (replicas_in key) e ∙ assumed_already key replicas info h)
        | inr h ↦
            let here : lookup name (insert name (assume_in r key replicas reqs info) c.clusters)
                ≡ some (assume_in r key replicas reqs info) =
              lookup-insert name name (assume_in r key replicas reqs info) c.clusters
              ∙ rw (eq_refl name) refl in
            rw (has_key-lookup name c.clusters, e, d, h, assume_application)
              (ap (replicas_in key) here
                ∙ own_answer key replicas reqs info
                ∙ not_assumed key replicas info h)
      ]
    ]
  ]

  assumed_on-other :
      (app : Application) (key name n : String) (replicas : ℤ) (c : ClusterCache r.Quantity)
      → (name =ˢ n) ≡ false
      → assumed_on key n (assume_application r app key name replicas c).0 ≡ assumed_on key n c
  unfolding assume_application
  assumed_on-other app key name n replicas c other = elim (Option-cases (lookup name c.clusters)) [
    | inl e ↦ rw (e, assume_application) refl
    | inr (info, e) ↦ elim (Option-cases (calculate_pod_resources r app)) [
      | inl d ↦ rw (e, d, assume_application) refl
      | inr (reqs, d) ↦ elim (Bool-cases (has_key key info.assumed_applications)) [
        | inl h ↦ rw (e, d, h, assume_application) refl
        | inr h ↦
            rw (e, d, h, assume_application)
              (ap (replicas_in key) (
                lookup-insert name n (assume_in r key replicas reqs info) c.clusters
                ∙ rw other refl))
      ]
    ]
  ]

  -- The first assumption on a cluster counts.
  pub assumed_on-assume_application :
      (app : Application) (key name n : String) (replicas : ℤ) (c : ClusterCache r.Quantity)
      → assumed_on key n (assume_application r app key name replicas c).0 ≡ (
          if (name =ˢ n) && can_assume app n c
          then or_else (assumed_on key n c) (some replicas)
          else assumed_on key n c)
  assumed_on-assume_application app key name n replicas c = elim (Bool-cases (name =ˢ n)) [
    | inl e ↦
        let same : name ≡ n = ground (arith, eq_iff name n) in
        rw e (
          subst
            (λ m. assumed_on key m (assume_application r app key name replicas c).0 ≡ (
              if can_assume app m c
              then or_else (assumed_on key m c) (some replicas)
              else assumed_on key m c))
            same (assumed_on-own app key name replicas c))
    | inr e ↦ rw e (assumed_on-other app key name n replicas c e)
  ]

  has_key-insert_known :
      (name n : String) (old new : ClusterInfo r.Quantity) (clusters : Map (ClusterInfo r.Quantity))
      → lookup name clusters ≡ some old
      → has_key n (insert name new clusters) ≡ has_key n clusters
  has_key-insert_known name n old new clusters e =
      let known : has_key name clusters ≡ true = has_key-lookup name clusters ∙ rw e refl in
      ground (arith, has_key-insert name n new clusters, eq_iff name n, known)

  -- No cluster becomes known or unknown.
  pub can_assume-assume_application :
      (app : Application) (key name n : String) (replicas : ℤ) (c : ClusterCache r.Quantity)
      → can_assume app n (assume_application r app key name replicas c).0 ≡ can_assume app n c
  unfolding assume_application
  can_assume-assume_application app key name n replicas c =
      elim (Option-cases (lookup name c.clusters)) [
        | inl e ↦ rw (e, assume_application) refl
        | inr (info, e) ↦ elim (Option-cases (calculate_pod_resources r app)) [
          | inl d ↦ rw (e, d, assume_application) refl
          | inr (reqs, d) ↦ elim (Bool-cases (has_key key info.assumed_applications)) [
            | inl h ↦ rw (e, d, h, assume_application) refl
            | inr h ↦
                rw (e, d, h, assume_application)
                  (ap (λ b. b && true)
                    (has_key-insert_known name n info (assume_in r key replicas reqs info)
                      c.clusters e))
          ]
        ]
      ]
