-- ===== src/Framework/Interface.antt =====
-- engine/internal/manager/scheduler/framework/interface.go
use kumquat.Base.{String, Bool, true, false, [], Option, Map, ℤ, lookup, insert}
use kumquat.Api.{Application, ManagedCluster}

-- The only values that the plugins store are replica counts by topology domain.
pub data StateValue : Type 0 where
  distribution : Map ℤ → StateValue
  other_value : StateValue

pub record CycleState : Type 0 where
  pub storage : Map StateValue

abbrev pub new_cycle_state : CycleState
new_cycle_state = record { storage = [] }

abbrev pub read : CycleState → String → Option StateValue
read c key = lookup key c.storage

abbrev pub write : CycleState → String → StateValue → CycleState
write c key val = record c { storage = insert key val c.storage }

pub data Code : Type 0 where
  success error unschedulable : Code

pub record Status : Type 0 where
  pub code : Code
  pub message : String

abbrev pub ok : Status
ok = record { code = success; message = "" }

abbrev pub deny : String → Status
deny message = record { code = unschedulable; message = message }

abbrev pub is_success_code : Code → Bool
is_success_code success = true
is_success_code _ = false

abbrev pub is_success : Status → Bool
is_success s = is_success_code s.code

pub record FilterPlugin (Q : Type 0) : Type 0 where
  pub name : String
  pub filter : CycleState → Application → ManagedCluster Q → Status

pub record ScorePlugin (Q : Type 0) : Type 0 where
  pub name : String
  pub score : CycleState → Application → ManagedCluster Q → ℤ × Status
  -- ScoreExtensions(), which may be nil, with its one method NormalizeScore
  pub normalize_score : Option (Map ℤ → Map ℤ × Status)
