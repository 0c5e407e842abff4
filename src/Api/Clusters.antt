-- ===== src/Api/Clusters.antt =====
-- engine/pkg/apis/storage/v1alpha1/types.go
use kumquat.Base.{String, List, Bool, Map}
use kumquat.Api.Selectors.{Taint, Condition}

-- v1.ResourceList
abbrev pub ResourceList : Type 0 → Type 0
ResourceList Q = Map Q

pub record ResourceSummary (Q : Type 0) : Type 0 where
  pub name : String
  pub allocatable : ResourceList Q
  pub allocating : ResourceList Q
  pub allocated : ResourceList Q

pub record ManagedCluster (Q : Type 0) : Type 0 where
  pub name : String
  pub labels : Map String
  -- DeletionTimestamp != nil
  pub deleting : Bool
  pub taints : List Taint
  pub resource_summary : List (ResourceSummary Q)
  pub conditions : List Condition
