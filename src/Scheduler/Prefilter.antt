-- ===== src/Scheduler/Prefilter.antt =====
-- The prefilter of scheduler.go: clusters that the label index rules out are not looked at.
pub mod Terms
pub mod Complete
pub mod Live
use kumquat.Base.{
  String, Bool, not, List, [], ◌∷◌, Option, none, some, Map, lookup, contains, add_all, select,
  is_nil, if◌then◌else◌, map,
}
use kumquat.Api.{
  Application, ManagedCluster, Requirement, Term, NodeAffinity, Operator, in_values, not_in, exists,
  does_not_exist, gt, lt, other_operator,
}
use kumquat.Framework.{CycleState, FilterPlugin, is_success, run_filter_plugins}
use kumquat.Cache.Indexer.{SimpleIndexer, get_clusters_by_label, get_clusters_by_label_key}
use kumquat.Cache.Store.{ClusterInfo, Snapshot}

-- The clusters that have the key with one of the values.
union_matches : SimpleIndexer → String → List String → List String → List String
union_matches ix key [] set = set
union_matches ix key (v ∷ vs) set =
    union_matches ix key vs (add_all (get_clusters_by_label ix key v) set)

-- What the index says of an expression; `none` where it says nothing.
operator_matches : SimpleIndexer → Operator → String → List String → Option (List String)
operator_matches ix in_values key values = some (union_matches ix key values [])
operator_matches ix exists key values = some (get_clusters_by_label_key ix key)
operator_matches ix _ key values = none

indexed_matches : SimpleIndexer → Requirement → Option (List String)
unfolding operator_matches
indexed_matches ix expr = operator_matches ix expr.operator expr.key expr.values

-- The candidates so far, cut down to those that match.
narrow : Option (List String) → List String → List String
narrow none matches = add_all matches []
narrow (some set) matches = add_all (select (λ n. contains n set) matches) []

narrow_by : SimpleIndexer → List Requirement → Option (List String) → Option (List String)
narrow_by ix [] set = set
narrow_by ix (expr ∷ exprs) set = elim (indexed_matches ix expr) [
  | none ↦ narrow_by ix exprs set
  | some matches ↦
      let set' = narrow set matches in
      let rest = narrow_by ix exprs (some set') in if is_nil set' then some [] else rest
]

-- nil is `none`: the term cannot be optimised.
pub prefilter_by_term_using_indexer : Term → SimpleIndexer → Option (List String)
unfolding narrow_by narrow indexed_matches union_matches
prefilter_by_term_using_indexer term ix =
    if is_nil term.match_expressions then none else narrow_by ix term.match_expressions none

-- The loop over the terms; `none` is the full scan.
candidates : SimpleIndexer → List Term → List String → Option (List String)
candidates ix [] set = some set
candidates ix (term ∷ terms) set =
    if not (is_nil term.match_fields)
    then none
    else (elim (prefilter_by_term_using_indexer term ix) [
      | none ↦ none
      | some names ↦ candidates ix terms (add_all names set)
    ])

-- The terms of the required affinity, where there are any.
abbrev pub required_terms : Option NodeAffinity → List Term
required_terms none = []
required_terms (some affinity) = elim affinity.required [ none ↦ [] | some terms ↦ terms ]

module _ {Q : Type 0} where
  unfoldable pub all_cluster_infos : Map (ClusterInfo Q) → List (ClusterInfo Q)
  all_cluster_infos [] = []
  all_cluster_infos ((name, info) ∷ infos) = info ∷ all_cluster_infos infos

  named_infos : Map (ClusterInfo Q) → List String → List (ClusterInfo Q)
  named_infos infos [] = []
  named_infos infos (name ∷ names) =
      let rest = named_infos infos names in
      elim (lookup name infos) [ none ↦ rest | some info ↦ info ∷ rest ]

  abbrev named_or_all : Map (ClusterInfo Q) → Option (List String) → List (ClusterInfo Q)
  named_or_all infos none = all_cluster_infos infos
  named_or_all infos (some names) = named_infos infos names

  pub prefilter_by_affinity : Application → Snapshot Q → List (ClusterInfo Q)
  unfolding named_infos candidates all_cluster_infos
  prefilter_by_affinity app snapshot =
      let terms = required_terms app.cluster_affinity in
      if is_nil terms
      then all_cluster_infos snapshot.clusters
      else named_or_all snapshot.clusters (candidates snapshot.indexer terms [])

  -- The loop of scheduleOne that fills feasibleClusters.
  unfoldable pub feasible_clusters :
      List (FilterPlugin Q)
      → CycleState
      → Application
      → List (ClusterInfo Q)
      → List (ManagedCluster Q)
  feasible_clusters pls state app [] = []
  feasible_clusters pls state app (info ∷ infos) =
      let rest = feasible_clusters pls state app infos in
      if is_success (run_filter_plugins pls state app info.cluster)
      then info.cluster ∷ rest
      else rest
