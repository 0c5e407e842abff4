-- ===== src/Framework/Scoring.antt =====
-- Which clusters RunScorePlugins scores.
use kumquat.Base.{
  String, ◌≡◌, refl, true, List, [], ◌∷◌, Map, ℤ, pos, has_key, has_key-insert, eq_refl, arith,
  Bool-cases, inl, inr, Member, eqb_ℤ, ap,
}
use kumquat.Api.{Application, ManagedCluster}
use kumquat.Framework.Interface.{CycleState, ScorePlugin}
use kumquat.Framework.Runtime.{
  Framework, Scored, scored, failed, then_scores, min_score, max_score, map_values,
  normalize_final_scores, add_weighted, initial_scores, score_clusters, normalize_plugin,
  plugin_weight, run_plugins, run_score_plugins,
}

has_key-map_values : (f : ℤ → ℤ) (n : String) (m : Map ℤ) → has_key n (map_values f m) ≡ has_key n m
unfolding has_key map_values
has_key-map_values f n [] = refl
has_key-map_values f n ((k, s) ∷ m) = ground (arith, has_key-map_values f n m)

has_key-normalize : (n : String) (m : Map ℤ) → has_key n (normalize_final_scores m) ≡ has_key n m
unfolding normalize_final_scores
has_key-normalize n [] = refl
has_key-normalize n ((k, s) ∷ m) = elim (Bool-cases (eqb_ℤ (max_score s m) (min_score s m))) [
  | inl e ↦ rw e (has_key-map_values _ n ((k, s) ∷ m))
  | inr e ↦ rw e (has_key-map_values _ n ((k, s) ∷ m))
]

add_weighted-keeps :
    (weight : ℤ) (n : String) (scores final : Map ℤ)
    → has_key n final ≡ true
    → has_key n (add_weighted weight scores final) ≡ true
unfolding add_weighted
add_weighted-keeps weight n [] final h = h
add_weighted-keeps weight n ((k, s) ∷ scores) final h =
    add_weighted-keeps weight n scores _ (rw (has_key-insert k n _ final) (ground (arith, h)))

-- The scores hold the name, if there are any.
abbrev pub HasScore : String → Scored → Type 0
HasScore n (scored m) = has_key n m ≡ true
HasScore n (failed status) = Unit

HasScore-then :
    (n : String) (s : Scored) (k : Map ℤ → Scored)
    → ((m : Map ℤ) → HasScore n (k m))
    → HasScore n (then_scores s k)
HasScore-then n (failed status) k h = tt
HasScore-then n (scored m) k h = h m

normalized :
    (n : String) (s : Scored)
    → HasScore n s
    → HasScore n (then_scores s λ final. scored (normalize_final_scores final))
normalized n (failed status) h = tt
normalized n (scored m) h = rw (has_key-normalize n m) h

module _ {Q : Type 0} where
  initial_scores-keeps :
      (n : String) (cs : List (ManagedCluster Q)) (final : Map ℤ)
      → has_key n final ≡ true
      → has_key n (initial_scores cs final) ≡ true
  unfolding initial_scores
  initial_scores-keeps n [] final h = h
  initial_scores-keeps n (c ∷ cs) final h =
      initial_scores-keeps n cs _ (rw (has_key-insert c.name n (pos 0) final) (ground (arith, h)))

  initial_scores-Member :
      (c : ManagedCluster Q) (cs : List (ManagedCluster Q)) (final : Map ℤ)
      → Member c cs
      → has_key c.name (initial_scores cs final) ≡ true
  unfolding initial_scores
  initial_scores-Member c [] final m = elim m [ ]
  initial_scores-Member c (x ∷ cs) final m = elim m [
    | inl same ↦ initial_scores-keeps c.name cs _ (
        rw (has_key-insert x.name c.name (pos 0) final, ap (λ y. y.name) same, eq_refl x.name) refl)
    | inr m' ↦ initial_scores-Member c cs _ m'
  ]

  run_plugins-keeps :
      (fw : Framework Q) (pls : List (ScorePlugin Q)) (state : CycleState) (app : Application)
      (cs : List (ManagedCluster Q)) (n : String) (final : Map ℤ)
      → has_key n final ≡ true
      → HasScore n (run_plugins fw pls state app cs final)
  unfolding run_plugins
  run_plugins-keeps fw [] state app cs n final h = h
  run_plugins-keeps fw (pl ∷ pls) state app cs n final h =
      HasScore-then n (score_clusters pl state app cs []) _ λ raw.
        HasScore-then n (normalize_plugin pl raw) _ λ scores.
          run_plugins-keeps fw pls state app cs n _
            (add_weighted-keeps (plugin_weight fw pl) n scores final h)

  -- Where the score plugins succeed, each cluster that they are run on has a score.
  pub run_score_plugins-HasScore :
      (fw : Framework Q) (state : CycleState) (app : Application) (cs : List (ManagedCluster Q))
      (c : ManagedCluster Q) (feasible : Member c cs)
      → HasScore c.name (run_score_plugins fw state app cs)
  unfolding run_score_plugins
  run_score_plugins-HasScore fw state app cs c feasible = normalized c.name _ (
      run_plugins-keeps fw fw.score_plugins state app cs c.name (initial_scores cs [])
        (initial_scores-Member c cs [] feasible))
