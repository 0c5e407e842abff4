-- ===== src/Plugins/Taint/Tolerated.antt =====
-- When the taint filter lets a cluster pass.
use kumquat.Base.{String, Bool, true, false, not, ◌&&◌, ◌||◌, ◌=ˢ◌, List, Option, none, some, any}
use kumquat.Api.{Taint, Toleration, TolerationOperator, op_exists, op_equal, op_other}

-- The toleration names what the taint has, or nothing.
abbrev is_open_to : String → String → Bool
is_open_to wanted given = (wanted =ˢ "") || (wanted =ˢ given)

-- By the operator Exists the key alone counts, by Equal the key and the value.
abbrev covers_by : TolerationOperator → Toleration → Taint → Bool
covers_by op_exists t taint = is_open_to t.key taint.key
covers_by op_equal t taint = (t.key =ˢ taint.key) && (t.value =ˢ taint.value)
covers_by (op_other op) t taint = false

abbrev pub covers : Toleration → Taint → Bool
covers t taint = is_open_to t.effect taint.effect && covers_by t.operator t taint

-- A taint with another effect, or that some toleration covers.
abbrev pub is_harmless : List Toleration → Taint → Bool
is_harmless tolerations taint =
    (not (taint.effect =ˢ "NoSchedule") && not (taint.effect =ˢ "NoExecute"))
    || any (λ t. covers t taint) tolerations

abbrev is_nothing : Option Taint → Bool
is_nothing none = true
is_nothing (some t) = false
