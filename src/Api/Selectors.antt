-- ===== src/Api/Selectors.antt =====
-- Kubernetes' node selectors, taints and tolerations, as plain data.
use kumquat.Base.{ℤ, String, List, Option}

pub data Operator : Type 0 where
  in_values not_in exists does_not_exist gt lt : Operator
  other_operator : String → Operator

-- v1.NodeSelectorRequirement
pub record Requirement : Type 0 where
  pub key : String
  pub operator : Operator
  pub values : List String

-- v1.NodeSelectorTerm
pub record Term : Type 0 where
  pub match_expressions : List Requirement
  pub match_fields : List Requirement

-- v1.PreferredSchedulingTerm
pub record PreferredTerm : Type 0 where
  pub weight : ℤ
  pub preference : Term

-- v1.NodeAffinity; `required` is nil or a selector, which is its list of terms
pub record NodeAffinity : Type 0 where
  pub required : Option (List Term)
  pub preferred : List PreferredTerm

-- v1.Taint
pub record Taint : Type 0 where
  pub key : String
  pub value : String
  pub effect : String

pub data TolerationOperator : Type 0 where
  op_exists op_equal : TolerationOperator
  op_other : String → TolerationOperator

-- v1.Toleration
pub record Toleration : Type 0 where
  pub key : String
  pub operator : TolerationOperator
  pub value : String
  pub effect : String

-- metav1.Condition
pub record Condition : Type 0 where
  pub type : String
  pub status : String
