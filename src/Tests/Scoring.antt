-- ===== src/Tests/Scoring.antt =====
-- Tests of the scoring.
use kumquat.Base.{
  inl, inr, refl, ◌≤ℤ◌, [], ◌∷◌, Map, ℤ, pos, negsuc, lookup_or, has_key, All, arith,
}
use kumquat.Framework.Scoring.{HasScore, run_score_plugins-HasScore}
use kumquat.Plugins.Affinity
use kumquat.Tests.Samples.{in_zone, stateful_app}
use kumquat.Framework.{Framework, run_score_plugins, new_cycle_state, normalize_final_scores}
use kumquat.Framework.Normalize.{
  IsSmallScore, IsPercent, normalize_final_scores_range, normalize_final_scores_order,
}

abbrev three_scores : Map ℤ
three_scores = ("a", negsuc 9) ∷ ("b", pos 15) ∷ ("c", pos 40) ∷ []

small : All (λ e. IsSmallScore e.1) three_scores
small = ground arith

normalize_final_scores_range_example :
    All (λ e. IsPercent e.1) (normalize_final_scores three_scores)
normalize_final_scores_range_example = normalize_final_scores_range three_scores small

normalize_final_scores_order_example :
    lookup_or (pos 0) "a" (normalize_final_scores three_scores)
    ≤ℤ lookup_or (pos 0) "b" (normalize_final_scores three_scores)
unfolding lookup_or has_key
normalize_final_scores_order_example =
    normalize_final_scores_order three_scores "a" "b" small refl refl (omega arith)

abbrev framework : Framework ℤ
framework = record {
  filter_plugins = [];
  score_plugins = Affinity.score_plugin ∷ [];
  plugin_weights = ("Affinity", pos 2) ∷ [];
}

run_score_plugins-HasScore_example : HasScore "west" (
    run_score_plugins framework new_cycle_state
      (stateful_app 3 [])
      (in_zone "east" "a" ∷ in_zone "west" "b" ∷ []))
run_score_plugins-HasScore_example =
    run_score_plugins-HasScore framework new_cycle_state (stateful_app 3 [])
      (in_zone "east" "a" ∷ in_zone "west" "b" ∷ []) (in_zone "west" "b") (inr (inl refl))
