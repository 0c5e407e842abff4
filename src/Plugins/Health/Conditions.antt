-- ===== src/Plugins/Health/Conditions.antt =====
-- When the health filter lets a cluster pass.
use kumquat.Base.{◌≡◌, refl, Bool, not, ◌||◌, List, [], ◌∷◌, all, ◌=ˢ◌, arith}
use kumquat.Api.{Application, ManagedCluster, Condition}
use kumquat.Framework.{CycleState, is_success}
use kumquat.Plugins.Health.{check_conditions, filter}

-- A condition that does not matter, or that holds.
abbrev pub is_fine : Condition → Bool
is_fine c = not ((c.type =ˢ "Ready") || (c.type =ˢ "Reachable")) || (c.status =ˢ "True")

check_conditions-all : (cs : List Condition) → is_success (check_conditions cs) ≡ all is_fine cs
unfolding check_conditions
check_conditions-all [] = refl
check_conditions-all (c ∷ cs) = ground (arith, check_conditions-all cs)

module _ {Q : Type 0} where
  -- The health filter lets a cluster pass exactly when each of its Ready and Reachable conditions is
  -- True; a cluster without such conditions passes.
  pub health_filter_iff :
      (state : CycleState) (app : Application) (cluster : ManagedCluster Q)
      → is_success (filter state app cluster) ≡ all is_fine cluster.conditions
  unfolding filter
  health_filter_iff state app cluster = check_conditions-all cluster.conditions
