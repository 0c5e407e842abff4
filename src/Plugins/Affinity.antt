-- ===== src/Plugins/Affinity.antt =====
-- engine/internal/manager/scheduler/plugins/affinity/affinity.go
use Prim.Native.String.{compare}
use text.Mathlib.Text.{is_lt}
use kumquat.Base.{
  String, Bool, true, false, not, ◌&&◌, List, [], ◌∷◌, Option, none, some, Map, ℤ, pos, eqb_ℤ,
  add64, mul64, div64, lookup, all, any, ◌=ˢ◌, if◌then◌else◌,
}
use kumquat.Api.{
  Application, ManagedCluster, Requirement, Term, PreferredTerm, NodeAffinity, Operator, in_values,
  not_in, exists, does_not_exist, gt, lt, other_operator,
}
use kumquat.Framework.{
  CycleState, Status, FilterPlugin, ScorePlugin, ok, deny, max_score, map_values,
}

-- expr.Values[0], where the list is not empty
abbrev pub against_first : (String → Bool) → List String → Bool
against_first test [] = false
against_first test (v ∷ vs) = test v

abbrev pub match_operator : Operator → List String → Option String → Bool
match_operator in_values values none = false
match_operator in_values values (some value) = any (λ v. v =ˢ value) values
match_operator not_in values none = true
match_operator not_in values (some value) = not (any (λ v. v =ˢ value) values)
match_operator exists values none = false
match_operator exists values (some value) = true
match_operator does_not_exist values none = true
match_operator does_not_exist values (some value) = false
match_operator gt values none = false
match_operator gt values (some value) = against_first (λ v. is_lt (compare v value)) values
match_operator lt values none = false
match_operator lt values (some value) = against_first (λ v. is_lt (compare value v)) values
match_operator (other_operator op) values found = false

unfoldable pub match_expression : Requirement → Map String → Bool
match_expression expr labels = match_operator expr.operator expr.values (lookup expr.key labels)

unfoldable pub match_term : Term → Map String → Bool
match_term term labels =
    all (λ e. match_expression e labels) term.match_expressions
    && all (λ e. match_expression e labels) term.match_fields

-- The loop over the terms of a required affinity.
unfoldable pub match_required : Option NodeAffinity → Map String → Bool
match_required none labels = true
match_required (some affinity) labels = elim affinity.required [
  | none ↦ true
  | some terms ↦ any (λ t. match_term t labels) terms
]

-- The sum of the weights of the preferences that match.
preferred_score : List PreferredTerm → Map String → ℤ → ℤ
preferred_score [] labels score = score
preferred_score (p ∷ ps) labels score =
    preferred_score ps labels
      (if match_term p.preference labels then add64 score p.weight else score)

module _ {Q : Type 0} where
  unfoldable pub filter : CycleState → Application → ManagedCluster Q → Status
  filter state app cluster =
      if match_required app.cluster_affinity cluster.labels
      then ok
      else deny "cluster affinity mismatch"

  pub score : CycleState → Application → ManagedCluster Q → ℤ × Status
  unfolding preferred_score
  score state app cluster = elim app.cluster_affinity [
    | none ↦ (pos 0, ok)
    | some affinity ↦ (preferred_score affinity.preferred cluster.labels (pos 0), ok)
  ]

unfoldable pub normalize_score : Map ℤ → Map ℤ × Status
normalize_score scores =
    let most = max_score (pos 0) scores in
    if eqb_ℤ most (pos 0)
    then (scores, ok)
    else (map_values (λ s. div64 (mul64 s (pos 100)) most) scores, ok)

unfoldable pub filter_plugin : {Q : Type 0} → FilterPlugin Q
filter_plugin = record { name = "Affinity"; filter = filter }

pub score_plugin : {Q : Type 0} → ScorePlugin Q
score_plugin = record { name = "Affinity"; score = score; normalize_score = some normalize_score }
