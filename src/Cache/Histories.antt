-- ===== src/Cache/Histories.antt =====
-- Histories of calls of the cache of scheduler/cache/cache.go.
use kumquat.Base.{
  String, ◌≡◌, refl, List, [], ◌∷◌, some, Map, ℤ, lookup, insert, IsMap, lookup-insert, arith,
  eq_iff, Option-cases, inl, inr, Bool-cases, has_key, All,
}
use kumquat.Api.{Application, ManagedCluster, Resources}
use kumquat.Cache.Requests.{calculate_pod_resources}
use kumquat.Cache.Store.{
  ClusterInfo, ClusterCache, add_cluster, update_cluster, remove_cluster, assume_application,
  assume_in, forget_application, forget_in, forget_everywhere, remove_assumed_application,
}
use kumquat.Cache.Consistency.{
  IsConsistent, labels_of, add_cluster-IsConsistent, remove_cluster-IsConsistent,
  update_cluster-IsConsistent,
}

-- A cluster whose entry changes, but not its labels.
amend-IsConsistent :
    {Q : Type 0} (name : String) (info info' : ClusterInfo Q) (c : ClusterCache Q)
    → IsConsistent c
    → lookup name c.clusters ≡ some info
    → info'.cluster.labels ≡ info.cluster.labels
    → IsConsistent (record c { clusters = insert name info' c.clusters })
amend-IsConsistent name info info' c v known same = record {
  indexed = v.indexed;
  same_labels =
      λ n. ground (arith, eq_iff name n, v.same_labels n, lookup-insert name n info' c.clusters);
}

-- The calls that the scheduler and the event handlers make of the cache.
pub data Call (r : Resources) : Type 0 where
  adds removes : ManagedCluster r.Quantity → Call r
  -- UpdateCluster(cluster, cluster), the one way in which it is called
  updates : ManagedCluster r.Quantity → Call r
  assumes : Application → String → String → ℤ → Call r
  forgets : String → String → Call r
  unassumes : String → Call r

module _ (r : Resources) where
  pub assume_application-IsConsistent :
      (app : Application) (key name : String) (n : ℤ) (c : ClusterCache r.Quantity)
      → IsConsistent c
      → IsConsistent (assume_application r app key name n c).0
  unfolding assume_application
  assume_application-IsConsistent app key name n c v =
      elim (Option-cases (lookup name c.clusters)) [
        | inl e ↦ rw (e, assume_application) v
        | inr (info, e) ↦ elim (Option-cases (calculate_pod_resources r app)) [
          | inl f ↦ rw (e, f, assume_application) v
          | inr (reqs, f) ↦ elim (Bool-cases (has_key key info.assumed_applications)) [
            | inl g ↦ rw (e, f, g, assume_application) v
            | inr g ↦
                rw (e, f, g, assume_application)
                  (amend-IsConsistent name info (assume_in r key n reqs info) c v e refl)
          ]
        ]
      ]

  forget_in-labels :
      (key : String) (info : ClusterInfo r.Quantity)
      → (forget_in r key info).cluster.labels ≡ info.cluster.labels
  forget_in-labels key info = ground arith

  forget_application-IsConsistent :
      (key name : String) (c : ClusterCache r.Quantity)
      → IsConsistent c
      → IsConsistent (forget_application r key name c).0
  unfolding forget_application
  forget_application-IsConsistent key name c v = elim (Option-cases (lookup name c.clusters)) [
    | inl e ↦ rw (e, forget_application) v
    | inr (info, e) ↦
        rw (e, forget_application)
          (amend-IsConsistent name info (forget_in r key info) c v e (forget_in-labels key info))
  ]

  labels_of-forget_everywhere :
      (key n : String) (infos : Map (ClusterInfo r.Quantity))
      → labels_of (lookup n (forget_everywhere r key infos)) ≡ labels_of (lookup n infos)
  unfolding forget_everywhere lookup
  labels_of-forget_everywhere key n [] = refl
  labels_of-forget_everywhere key n ((name, info) ∷ infos) =
      ground (arith, forget_in-labels key info, labels_of-forget_everywhere key n infos)

  remove_assumed_application-IsConsistent :
      (key : String) (c : ClusterCache r.Quantity)
      → IsConsistent c
      → IsConsistent (remove_assumed_application r key c)
  unfolding remove_assumed_application
  remove_assumed_application-IsConsistent key c v = record {
    indexed = v.indexed;
    same_labels =
        λ n. ground (arith, v.same_labels n, labels_of-forget_everywhere key n c.clusters);
  }

  unfoldable pub call : Call r → ClusterCache r.Quantity → ClusterCache r.Quantity
  call (adds cluster) c = (add_cluster cluster c).0
  call (removes cluster) c = (remove_cluster cluster c).0
  call (updates cluster) c = (update_cluster cluster cluster c).0
  call (assumes app key name n) c = (assume_application r app key name n c).0
  call (forgets key name) c = (forget_application r key name c).0
  call (unassumes key) c = remove_assumed_application r key c

  unfoldable pub run : List (Call r) → ClusterCache r.Quantity → ClusterCache r.Quantity
  run [] c = c
  run (x ∷ xs) c = run xs (call x c)

  -- The labels of a cluster object are a map: no key stands twice.
  abbrev pub IsProper : Call r → Type 0
  IsProper (adds cluster) = IsMap cluster.labels
  IsProper (updates cluster) = IsMap cluster.labels
  IsProper _ = Unit

  call-IsConsistent :
      (x : Call r) (c : ClusterCache r.Quantity)
      → IsProper x
      → IsConsistent c
      → IsConsistent (call x c)
  unfolding call
  call-IsConsistent (adds cluster) c p v = add_cluster-IsConsistent cluster c v p
  call-IsConsistent (removes cluster) c p v = remove_cluster-IsConsistent cluster c v
  call-IsConsistent (updates cluster) c p v = update_cluster-IsConsistent cluster cluster c v p refl
  call-IsConsistent (assumes app key name n) c p v =
      assume_application-IsConsistent app key name n c v
  call-IsConsistent (forgets key name) c p v = forget_application-IsConsistent key name c v
  call-IsConsistent (unassumes key) c p v = remove_assumed_application-IsConsistent key c v

  -- After any history of calls from a consistent cache, the label index holds a cluster under a
  -- label exactly when the cache knows the cluster with that label, provided that each cluster
  -- object that is added or updated has no label key twice.
  pub run-IsConsistent :
      (xs : List (Call r)) (c : ClusterCache r.Quantity)
      → All IsProper xs
      → IsConsistent c
      → IsConsistent (run xs c)
  unfolding run
  run-IsConsistent [] c p v = v
  run-IsConsistent (x ∷ xs) c p v = run-IsConsistent xs (call x c) p.1 (call-IsConsistent x c p.0 v)
