-- ===== src/Api/Applications.antt =====
-- engine/pkg/apis/apps/v1alpha1/application_types.go
use kumquat.Base.{ℕ, ℤ, String, List, Option, Map}
use kumquat.Api.Selectors.{NodeAffinity, Toleration}

pub record ClusterTopology : Type 0 where
  pub name : String
  pub replicas : ℤ

pub record Application : Type 0 where
  pub name : String
  pub namespace : String
  pub annotations : Map String
  -- spec
  pub workload_kind : String
  pub replicas : Option ℤ
  pub template : List ℕ
  pub cluster_affinity : Option NodeAffinity
  pub cluster_tolerations : List Toleration
  -- status
  pub scheduling_phase : String
  pub topology : List ClusterTopology
