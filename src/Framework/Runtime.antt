-- ===== src/Framework/Runtime.antt =====
-- engine/internal/manager/scheduler/framework/runtime.go
use kumquat.Base.{
  List, [], ◌∷◌, Option, none, some, Map, ℤ, pos, ltb_ℤ, eqb_ℤ, add64, sub64, mul64, div64,
  lookup_or, insert, if◌then◌else◌,
}
use kumquat.Api.{Application, ManagedCluster}
use kumquat.Framework.Interface.{CycleState, Status, FilterPlugin, ScorePlugin, ok, is_success}
use kumquat.Framework.Config.{PluginConfig, SchedulerConfig}

pub record Framework (Q : Type 0) : Type 0 where
  pub filter_plugins : List (FilterPlugin Q)
  pub score_plugins : List (ScorePlugin Q)
  pub plugin_weights : Map ℤ

set_weights : List PluginConfig → Map ℤ → Map ℤ
set_weights [] weights = weights
set_weights (pc ∷ pcs) weights =
    set_weights pcs (insert pc.name (if ltb_ℤ (pos 0) pc.weight then pc.weight else pos 1) weights)

module _ {Q : Type 0} where
  unfoldable pub new_framework_with_config :
      List (FilterPlugin Q) → List (ScorePlugin Q) → Option SchedulerConfig → Framework Q
  unfolding set_weights
  new_framework_with_config filters scores config = record {
    filter_plugins = filters;
    score_plugins = scores;
    plugin_weights = elim config [ none ↦ [] | some c ↦ set_weights c.score_plugins [] ];
  }

  unfoldable pub run_filter_plugins :
      List (FilterPlugin Q) → CycleState → Application → ManagedCluster Q → Status
  run_filter_plugins [] state app cluster = ok
  run_filter_plugins (pl ∷ pls) state app cluster =
      let rest = run_filter_plugins pls state app cluster in
      let status = pl.filter state app cluster in if is_success status then rest else status

-- The two results (scores, status) of a scoring step: scores stand only beside a success.
pub data Scored : Type 0 where
  scored : Map ℤ → Scored
  failed : Status → Scored

abbrev pub then_scores : Scored → (Map ℤ → Scored) → Scored
then_scores (scored scores) k = k scores
then_scores (failed status) k = failed status

-- min and max over the scores, from those of the first entry
unfoldable pub min_score : ℤ → Map ℤ → ℤ
min_score least [] = least
min_score least ((name, score) ∷ scores) =
    min_score (if ltb_ℤ score least then score else least) scores

unfoldable pub max_score : ℤ → Map ℤ → ℤ
max_score most [] = most
max_score most ((name, score) ∷ scores) =
    max_score (if ltb_ℤ most score then score else most) scores

-- A loop that gives each entry a new value.
unfoldable pub map_values : (ℤ → ℤ) → Map ℤ → Map ℤ
map_values f [] = []
map_values f ((name, score) ∷ scores) = (name, f score) ∷ map_values f scores

unfoldable pub normalize_final_scores : Map ℤ → Map ℤ
normalize_final_scores [] = []
normalize_final_scores ((name, score) ∷ rest) =
    let scores : Map ℤ = (name, score) ∷ rest in
    let least = min_score score rest in
    let most = max_score score rest in
    if eqb_ℤ most least
    then map_values (λ s. pos 50) scores
    else map_values (λ s. div64 (mul64 (sub64 s least) (pos 100)) (sub64 most least)) scores

unfoldable pub add_weighted : ℤ → Map ℤ → Map ℤ → Map ℤ
add_weighted weight [] final = final
add_weighted weight ((name, score) ∷ scores) final =
    add_weighted weight scores
      (insert name (add64 (lookup_or (pos 0) name final) (mul64 score weight)) final)

module _ {Q : Type 0} where
  unfoldable pub initial_scores : List (ManagedCluster Q) → Map ℤ → Map ℤ
  initial_scores [] final = final
  initial_scores (c ∷ cs) final = initial_scores cs (insert c.name (pos 0) final)

  -- The scores of one plugin, before they are normalised.
  unfoldable pub score_clusters :
      ScorePlugin Q → CycleState → Application → List (ManagedCluster Q) → Map ℤ → Scored
  score_clusters pl state app [] acc = scored acc
  score_clusters pl state app (c ∷ cs) acc =
      let (score, status) = pl.score state app c in
      let rest = score_clusters pl state app cs (insert c.name score acc) in
      if is_success status then rest else failed status

  unfoldable pub normalize_plugin : ScorePlugin Q → Map ℤ → Scored
  normalize_plugin pl scores = elim pl.normalize_score [
    | none ↦ scored scores
    | some normalize ↦
        let (scores', status) = normalize scores in
        if is_success status then scored scores' else failed status
  ]

  pub plugin_weight : Framework Q → ScorePlugin Q → ℤ
  plugin_weight fw pl =
      let weight = lookup_or (pos 0) pl.name fw.plugin_weights in
      if eqb_ℤ weight (pos 0) then pos 1 else weight

  unfoldable pub run_plugins :
      Framework Q
      → List (ScorePlugin Q)
      → CycleState
      → Application
      → List (ManagedCluster Q)
      → Map ℤ
      → Scored
  run_plugins fw [] state app clusters final = scored final
  run_plugins fw (pl ∷ pls) state app clusters final =
      then_scores (score_clusters pl state app clusters []) λ raw.
        then_scores (normalize_plugin pl raw) λ scores.
          run_plugins fw pls state app clusters (add_weighted (plugin_weight fw pl) scores final)

  unfoldable pub run_score_plugins :
      Framework Q → CycleState → Application → List (ManagedCluster Q) → Scored
  run_score_plugins fw state app clusters =
      then_scores (run_plugins fw fw.score_plugins state app clusters (initial_scores clusters []))
        λ final. scored (normalize_final_scores final)
