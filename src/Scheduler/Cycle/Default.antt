-- ===== src/Scheduler/Cycle/Default.antt =====
-- The clusters that the scheduler finds feasible under its default configuration.
use kumquat.Base.{
  String, ◌≡◌, refl, sym, ap, subst, ◌∙◌, ◌↔◌, Bool, true, inl, inr, List, [], ◌∷◌, none, Map,
  IsMap, Member, all, Bool-cases,
}
use kumquat.Api.{Application, ManagedCluster, Resources, Taint}
use kumquat.Cache.Consistency.{IsConsistent}
use kumquat.Cache.Store.{ClusterInfo, Snapshot}
use kumquat.Framework.{
  CycleState, new_cycle_state, FilterPlugin, is_success, run_filter_plugins,
  new_framework_with_config,
}
use kumquat.Framework.Filtering.{run_filter_plugins_iff}
use kumquat.Plugins.Affinity
use kumquat.Plugins.Capacity
use kumquat.Plugins.Health
use kumquat.Plugins.Taint
use kumquat.Plugins.Volume
use kumquat.Scheduler.Cycle.Existing.{all_clusters}
use kumquat.Scheduler.Prefilter.{prefilter_by_affinity, feasible_clusters, all_cluster_infos}
use kumquat.Scheduler.Prefilter.Complete.{as_cache, prefilter_feasible_iff}
use kumquat.Scheduler.Setup.{filter_plugin_named, filter_plugins, new_scheduler_with_config}

module _ {Q : Type 0} (pls : List (FilterPlugin Q)) (state : CycleState) (app : Application)
    (c : ManagedCluster Q) where
  abbrev passes : ManagedCluster Q → Bool
  passes cluster = is_success (run_filter_plugins pls state app cluster)

  filtered :
      (infos : Map (ClusterInfo Q))
      → Member c (feasible_clusters pls state app (all_cluster_infos infos))
      → Member c (all_clusters infos) × (passes c ≡ true)
  unfolding feasible_clusters all_cluster_infos all_clusters
  filtered [] m = absurd m
  filtered ((n, i) ∷ infos) m = elim (Bool-cases (passes i.cluster)) [
    | inl e ↦
        elim (rw e at m) as (λ _. Member c (i.cluster ∷ all_clusters infos) × (passes c ≡ true)) [
          | inl same ↦ (inl same, ap passes same ∙ e)
          | inr rest ↦ let (known, p) = filtered infos rest in (inr known, p)
        ]
    | inr e ↦ let (known, p) = filtered infos (rw e at m) in (inr known, p)
  ]

  kept :
      (infos : Map (ClusterInfo Q))
      → Member c (all_clusters infos)
      → passes c ≡ true
      → Member c (feasible_clusters pls state app (all_cluster_infos infos))
  unfolding feasible_clusters all_cluster_infos all_clusters
  kept [] m p = absurd m
  kept ((n, i) ∷ infos) (inl same) p = rw (sym (ap passes same) ∙ p) (inl same)
  kept ((n, i) ∷ infos) (inr rest) p = elim (Bool-cases (passes i.cluster)) [
    | inl e ↦ rw e (inr (kept infos rest p))
    | inr e ↦ rw e (kept infos rest p)
  ]

module _ (r : Resources) (show : Taint → String) where
  abbrev default_filter_plugins : List (FilterPlugin r.Quantity)
  default_filter_plugins = (new_scheduler_with_config r show none).1.filter_plugins

  -- The five filters, one after the other.
  abbrev pub five_plugins : List (FilterPlugin r.Quantity)
  five_plugins =
      Health.filter_plugin
      ∷ Affinity.filter_plugin
      ∷ Taint.filter_plugin show
      ∷ Capacity.filter_plugin r
      ∷ Volume.filter_plugin r
      ∷ []

  all_five : default_filter_plugins ≡ five_plugins
  unfolding new_scheduler_with_config new_framework_with_config filter_plugins filter_plugin_named
  all_five = refl

  -- Under the default configuration a cluster is feasible for an application exactly when the snapshot
  -- knows it and each of the five filters lets it pass, where the snapshot's index agrees with its
  -- clusters and no cluster name stands twice.
  pub default_feasible_iff :
      (s : Snapshot r.Quantity) (app : Application) (c : ManagedCluster r.Quantity)
      (consistent : IsConsistent (as_cache s)) (unique : IsMap s.clusters)
      → Member c (
          feasible_clusters
            (new_scheduler_with_config r show none).1.filter_plugins
            new_cycle_state
            app
            (prefilter_by_affinity app s))
        ↔ Member c (all_clusters s.clusters)
          × (all (λ pl. is_success (pl.filter new_cycle_state app c)) five_plugins ≡ true)
  default_feasible_iff s app c consistent unique =
      subst
        (λ pls.
          Member c (feasible_clusters pls new_cycle_state app (prefilter_by_affinity app s))
          ↔ Member c (all_clusters s.clusters)
            × (all (λ pl. is_success (pl.filter new_cycle_state app c)) five_plugins ≡ true))
        (sym all_five)
        (
          (λ m.
              let (known, p) = filtered five_plugins new_cycle_state app c s.clusters (same.0 m) in
              (known, sym (run_filter_plugins_iff five_plugins new_cycle_state app c) ∙ p)),
          (λ m. same.1 (
              kept five_plugins new_cycle_state app c s.clusters m.0
                (run_filter_plugins_iff five_plugins new_cycle_state app c ∙ m.1))),
        )
    where
      same :
          Member c
            (feasible_clusters five_plugins new_cycle_state app (prefilter_by_affinity app s))
          ↔ Member c
              (feasible_clusters five_plugins new_cycle_state app (all_cluster_infos s.clusters))
      same =
          prefilter_feasible_iff five_plugins new_cycle_state app s c (inr (inl refl)) consistent
            unique
