-- ===== src/Plugins/Taint.antt =====
-- engine/internal/manager/scheduler/plugins/taint/taint.go
pub mod Tolerated
use Prim.Native.String.{◌++◌}
use kumquat.Base.{
  String, Bool, true, false, not, ◌&&◌, ◌||◌, List, [], ◌∷◌, Option, none, some, ◌=ˢ◌,
  if◌then◌else◌,
}
use kumquat.Api.{Application, ManagedCluster, Taint, Toleration, op_exists, op_equal, op_other}
use kumquat.Framework.{CycleState, Status, FilterPlugin, ok, deny}

unfoldable pub tolerates_taint : Toleration → Taint → Bool
tolerates_taint t taint =
    if not (t.effect =ˢ "") && not (t.effect =ˢ taint.effect) then false else (elim t.operator [
      | op_exists ↦ if not (t.key =ˢ "") && not (t.key =ˢ taint.key) then false else true
      | op_equal ↦
          if not (t.key =ˢ taint.key)
          then false
          else (if not (t.value =ˢ taint.value) then false else true)
      | op_other op ↦ false
    ])

pub tolerations_tolerate_taint : List Toleration → Taint → Bool
tolerations_tolerate_taint [] taint = false
tolerations_tolerate_taint (t ∷ ts) taint =
    if tolerates_taint t taint then true else tolerations_tolerate_taint ts taint

-- The first taint that counts and that no toleration tolerates.
pub find_matching_untolerated_taint : List Taint → List Toleration → (Taint → Bool) → Option Taint
find_matching_untolerated_taint [] tolerations included = none
find_matching_untolerated_taint (taint ∷ taints) tolerations included =
    let rest = find_matching_untolerated_taint taints tolerations included in
    if not (included taint)
    then rest
    else (if not (tolerations_tolerate_taint tolerations taint) then some taint else rest)

pub repels : Taint → Bool
repels t = (t.effect =ˢ "NoSchedule") || (t.effect =ˢ "NoExecute")

-- `show` is a taint's ToString.
module _ {Q : Type 0} where
  pub filter : (Taint → String) → CycleState → Application → ManagedCluster Q → Status
  filter show state app cluster =
      elim (find_matching_untolerated_taint cluster.taints app.cluster_tolerations repels) [
        | none ↦ ok
        | some taint ↦ deny ("taint " ++ show taint ++ " not tolerated")
      ]

  pub filter_plugin : (Taint → String) → FilterPlugin Q
  filter_plugin show = record { name = "TaintToleration"; filter = filter show }
