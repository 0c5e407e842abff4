-- ===== src/Scheduler/Prefilter/Complete.antt =====
-- The prefilter of scheduler.go beside a full scan.
use kumquat.Base.{
  String, ◌≡◌, refl, ◌↔◌, ◌⊎◌, Bool, true, false, List, [], ◌∷◌, Option, none, some, Map, lookup,
  contains, add_all, is_nil, any, all-Member, Member, IsMap, has_key-lookup, arith, eq_iff,
  contains-add_all, Option-cases, inl, inr, Bool-cases,
}
use kumquat.Api.{Application, ManagedCluster, Term, NodeAffinity}
use kumquat.Framework.{CycleState, FilterPlugin, is_success, run_filter_plugins}
use kumquat.Framework.Filtering.{run_filter_plugins_iff}
use kumquat.Plugins.Affinity.{match_term, match_required}
use kumquat.Plugins.Affinity
use kumquat.Cache.Store.{ClusterInfo, ClusterCache, Snapshot}
use kumquat.Cache.Indexer.{SimpleIndexer}
use kumquat.Cache.Indexer.Agreement.{IsIndexed}
use kumquat.Cache.Consistency.{IsConsistent}
use kumquat.Scheduler.Prefilter.{
  prefilter_by_term_using_indexer, candidates, all_cluster_infos, named_infos, named_or_all,
  required_terms, prefilter_by_affinity, feasible_clusters,
}
use kumquat.Scheduler.Prefilter.Terms.{keeps, prefilter_by_term-keeps}

module _ (ix : SimpleIndexer) (h : IsIndexed ix) (n : String) (labels : Map String)
    (known : lookup n ix.cluster_labels ≡ some labels) where
  candidates_grow :
      (terms : List Term) (set : List String)
      → contains n set ≡ true
      → keeps ix h n labels known (candidates ix terms set) ≡ true
  unfolding candidates
  candidates_grow [] set k = k
  candidates_grow (t ∷ ts) set k = elim (Option-cases (prefilter_by_term_using_indexer t ix)) [
    | inl e ↦ ground arith
    | inr (names, e) ↦
        ground (arith, candidates_grow ts (add_all names set), contains-add_all n names set)
  ]

  candidates-keeps :
      (terms : List Term) (set : List String)
      → any (λ t. match_term t labels) terms ≡ true
      → keeps ix h n labels known (candidates ix terms set) ≡ true
  unfolding candidates
  candidates-keeps [] set m = cc
  candidates-keeps (t ∷ ts) set m = elim (Option-cases (prefilter_by_term_using_indexer t ix)) [
    | inl e ↦ ground arith
    | inr (names, e) ↦ ground (
      arith,
      prefilter_by_term-keeps ix h n labels known t,
      candidates-keeps ts (add_all names set),
      candidates_grow ts (add_all names set),
      contains-add_all n names set,
    )
  ]

match_required-any :
    (affinity : Option NodeAffinity) (labels : Map String)
    → match_required affinity labels ≡ true
    → is_nil (required_terms affinity) ≡ false
    → any (λ t. match_term t labels) (required_terms affinity) ≡ true
unfolding match_required
match_required-any none labels m e = cc
match_required-any (some affinity) labels m e = elim (Option-cases affinity.required) [
  | inl f ↦ ground arith
  | inr (terms, f) ↦ ground arith
]

module _ {Q : Type 0} where
  -- A snapshot's index and clusters agree, as those of the cache that it was taken from.
  abbrev pub as_cache : Snapshot Q → ClusterCache Q
  as_cache s = record { clusters = s.clusters; indexer = s.indexer }

  Member-of_lookup :
      (n : String) (info : ClusterInfo Q) (infos : Map (ClusterInfo Q))
      → lookup n infos ≡ some info
      → Member info (all_cluster_infos infos)
  unfolding lookup all_cluster_infos
  Member-of_lookup n info [] e = cc
  Member-of_lookup n info ((j, i) ∷ infos) e = ground (arith, Member-of_lookup n info infos)

  Member-named_infos :
      (n : String) (info : ClusterInfo Q) (infos : Map (ClusterInfo Q)) (names : List String)
      → lookup n infos ≡ some info
      → contains n names ≡ true
      → Member info (named_infos infos names)
  unfolding named_infos contains
  Member-named_infos n info infos [] e k = cc
  Member-named_infos n info infos (x ∷ xs) e k =
      ground (arith, eq_iff x n, Member-named_infos n info infos xs e)

  named_infos-Member :
      (info : ClusterInfo Q) (infos : Map (ClusterInfo Q)) (names : List String)
      → Member info (named_infos infos names)
      → Member info (all_cluster_infos infos)
  unfolding named_infos
  named_infos-Member info infos [] m = absurd m
  named_infos-Member info infos (x ∷ xs) m = elim (Option-cases (lookup x infos)) [
    | inl e ↦ named_infos-Member info infos xs (rw (e, Member) at m)
    | inr (i, e) ↦
        let cases : (info ≡ i) ⊎ Member info (named_infos infos xs) = rw (e, Member) at m in
        elim cases [
          | inl same ↦ rw same (Member-of_lookup x i infos e)
          | inr rest ↦ named_infos-Member info infos xs rest
        ]
  ]

  named_or_all-Member :
      (info : ClusterInfo Q) (infos : Map (ClusterInfo Q)) (names : Option (List String))
      → Member info (named_or_all infos names)
      → Member info (all_cluster_infos infos)
  named_or_all-Member info infos none m = m
  named_or_all-Member info infos (some names) m = named_infos-Member info infos names m

  prefilter_sound :
      (app : Application) (s : Snapshot Q) (info : ClusterInfo Q)
      → Member info (prefilter_by_affinity app s)
      → Member info (all_cluster_infos s.clusters)
  unfolding prefilter_by_affinity
  prefilter_sound app s info m = elim (Bool-cases (is_nil (required_terms app.cluster_affinity))) [
    | inl e ↦ rw e at m
    | inr e ↦
        named_or_all-Member info s.clusters
          (candidates s.indexer (required_terms app.cluster_affinity) []) (rw e at m)
  ]

  kept_named :
      (ix : SimpleIndexer) (h : IsIndexed ix) (n : String) (info : ClusterInfo Q)
      (known : lookup n ix.cluster_labels ≡ some info.cluster.labels) (infos : Map (ClusterInfo Q))
      (names : Option (List String))
      → lookup n infos ≡ some info
      → keeps ix h n info.cluster.labels known names ≡ true
      → Member info (named_or_all infos names)
  kept_named ix h n info known infos none e k = Member-of_lookup n info infos e
  kept_named ix h n info known infos (some names) e k = Member-named_infos n info infos names e k

  prefilter_complete :
      (app : Application) (s : Snapshot Q) (n : String) (info : ClusterInfo Q)
      → IsConsistent (as_cache s)
      → lookup n s.clusters ≡ some info
      → match_required app.cluster_affinity info.cluster.labels ≡ true
      → Member info (prefilter_by_affinity app s)
  unfolding prefilter_by_affinity
  prefilter_complete app s n info v e m =
      let terms = required_terms app.cluster_affinity in
      let known : lookup n s.indexer.cluster_labels ≡ some info.cluster.labels =
        ground (arith, v.same_labels n) in
      elim (Bool-cases (is_nil terms)) [
        | inl f ↦ rw f (Member-of_lookup n info s.clusters e)
        | inr f ↦ rw f (
            kept_named s.indexer v.indexed n info known s.clusters (candidates s.indexer terms []) e
              (candidates-keeps s.indexer v.indexed n info.cluster.labels known terms []
                (match_required-any app.cluster_affinity info.cluster.labels m f)))
      ]

  Member-lookup :
      (info : ClusterInfo Q) (infos : Map (ClusterInfo Q))
      → IsMap infos
      → Member info (all_cluster_infos infos)
      → (n : String) × (lookup n infos ≡ some info)
  unfolding lookup all_cluster_infos
  Member-lookup info [] u m = absurd m
  Member-lookup info ((j, i) ∷ infos) u (inl e) = (j, ground (arith, eq_iff j j))
  Member-lookup info ((j, i) ∷ infos) u (inr m) =
      let (n, found) = Member-lookup info infos u.1 m in
      (n, ground (arith, eq_iff j n, has_key-lookup j infos, found))

  module _ (pls : List (FilterPlugin Q)) (state : CycleState) (app : Application) where
    abbrev passes : ClusterInfo Q → Bool
    passes info = is_success (run_filter_plugins pls state app info.cluster)

    -- A feasible cluster is that of an entry that passes.
    feasible_clusters-Member :
        (c : ManagedCluster Q) (infos : List (ClusterInfo Q))
        → Member c (feasible_clusters pls state app infos)
        → (info : ClusterInfo Q) × Member info infos × (c ≡ info.cluster) × (passes info ≡ true)
    unfolding feasible_clusters
    feasible_clusters-Member c [] m = absurd m
    feasible_clusters-Member c (i ∷ is) m = elim (Bool-cases (passes i)) [
      | inl e ↦
          elim (rw e at m)
            as (λ _.
              (info : ClusterInfo Q) × Member info (i ∷ is)
              × (c ≡ info.cluster)
              × (passes info ≡ true)) [
                | inl same ↦ (i, inl refl, same, e)
                | inr rest ↦
                    let (info, n, same, p) = feasible_clusters-Member c is rest in
                    (info, inr n, same, p)
              ]
      | inr e ↦
          let (info, n, same, p) = feasible_clusters-Member c is (rw e at m) in
          (info, inr n, same, p)
    ]

    Member-feasible_clusters :
        (info : ClusterInfo Q) (infos : List (ClusterInfo Q))
        → passes info ≡ true
        → Member info infos
        → Member info.cluster (feasible_clusters pls state app infos)
    unfolding feasible_clusters
    Member-feasible_clusters info [] p m = absurd m
    Member-feasible_clusters info (i ∷ is) p (inl e) = rw e (rw (rw e at p) (inl refl))
    Member-feasible_clusters info (i ∷ is) p (inr m) = elim (Bool-cases (passes i)) [
      | inl e ↦ rw e (inr (Member-feasible_clusters info is p m))
      | inr e ↦ rw e (Member-feasible_clusters info is p m)
    ]

    passes-match_required :
        (info : ClusterInfo Q)
        → Member Affinity.filter_plugin pls
        → passes info ≡ true
        → match_required app.cluster_affinity info.cluster.labels ≡ true
    unfolding Affinity.filter_plugin Affinity.filter
    passes-match_required info m p = ground (
      arith,
      all-Member (λ pl. is_success (pl.filter state app info.cluster)) Affinity.filter_plugin pls,
      run_filter_plugins_iff pls state app info.cluster,
    )

    -- A cluster is feasible among the prefiltered clusters exactly when it is feasible among all
    -- clusters of the snapshot, where the affinity plugin is one of the filter plugins, the
    -- snapshot's index agrees with its clusters, and no cluster name stands twice.
    pub prefilter_feasible_iff :
        (s : Snapshot Q) (c : ManagedCluster Q)
        → Member Affinity.filter_plugin pls
        → IsConsistent (as_cache s)
        → IsMap s.clusters
        → Member c (feasible_clusters pls state app (prefilter_by_affinity app s))
          ↔ Member c (feasible_clusters pls state app (all_cluster_infos s.clusters))
    prefilter_feasible_iff s c has v u = (only, found)
      where
        only :
            Member c (feasible_clusters pls state app (prefilter_by_affinity app s))
            → Member c (feasible_clusters pls state app (all_cluster_infos s.clusters))
        only m =
            let (info, n, same, p) = feasible_clusters-Member c (prefilter_by_affinity app s) m in
            rw same (Member-feasible_clusters info _ p (prefilter_sound app s info n))

        found :
            Member c (feasible_clusters pls state app (all_cluster_infos s.clusters))
            → Member c (feasible_clusters pls state app (prefilter_by_affinity app s))
        found m =
            let (info, n, same, p) = feasible_clusters-Member c (all_cluster_infos s.clusters) m in
            let (name, e) = Member-lookup info s.clusters u n in
            rw same (
              Member-feasible_clusters info _ p
                (prefilter_complete app s name info v e (passes-match_required info has p)))
