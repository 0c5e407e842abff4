-- ===== src/Rollout/Calculator/Overshoot.antt =====
-- calculateProportional of application/replica_calculator.go, for clusters of equal size.
use kumquat.Base.{
  ℕ, ◌+◌, ◌*◌, ◌-◌, ◌/◌, ◌<◌, String, ◌≡◌, refl, ◌∙◌, ap, List, [], ◌∷◌, some, pos, negsuc, sub32,
  add32-pos, lookup, lookup-insert, eq_refl, arith,
}
use native.Mathlib.Nat.{div-eq_of_lt-le}
use kumquat.Api.{ClusterTopology}
use kumquat.Api.Floats.{Floats, IsCeiling, ceil_share}
use kumquat.Rollout.Calculator.{cap_at, assignment, share_out, sum_replicas, calculate_proportional}

abbrev pub cluster : String → ℕ → ClusterTopology
cluster name r = record { name = name; replicas = pos r }

abbrev pub three : String → String → String → ℕ → List ClusterTopology
three a b c r = cluster a r ∷ cluster b r ∷ cluster c r ∷ []

total_three :
    (a b c : String) (r : ℕ)
    → r * 3 < 2147483648
    → sum_replicas (three a b c r) (pos 0) ≡ pos (r * 3)
unfolding sum_replicas
total_three a b c r h =
    rw
      (
        add32-pos 0 r (omega arith),
        add32-pos (0 + r) r (omega arith),
        add32-pos (0 + r + r) r (omega arith),
      )
      (ap pos (omega arith))

rounds_up : (r : ℕ) → 0 < r → (1 * r + r * 3 - 1) / (r * 3) ≡ 1
rounds_up r h = div-eq_of_lt-le (r * 3) (omega arith) (omega arith)

one_share :
    (f : Floats) (r : ℕ)
    → IsCeiling f
    → 0 < r
    → r * 3 < 2147483648
    → ceil_share f (pos 1) (pos r) (pos (r * 3)) ≡ pos 1
one_share f r ceiling h k =
    ceiling 1 r (r * 3) (omega arith) (omega arith) k (rw (rounds_up r h) (omega arith))
    ∙ ap pos (rounds_up r h)

cap_one : (r : ℕ) → 0 < r → cap_at (pos 1) (pos r) ≡ pos 1
unfolding cap_at
cap_one r h = ground arith

cap_less : (r : ℕ) → 0 < r → cap_at (negsuc 0) (pos r) ≡ negsuc 0
unfolding cap_at
cap_less r h = ground arith

none_left : sub32 (pos 1) (pos 1) ≡ pos 0
unfolding sub32
none_left = refl

one_short : sub32 (pos 0) (pos 1) ≡ negsuc 0
unfolding sub32
one_short = refl

-- Where one canary replica is shared between three clusters of equal size, the last cluster is
-- assigned -1 of them, provided the total fits an int32 and shares are rounded
-- up exactly.
pub proportional_overshoot :
    (f : Floats) (ceiling : IsCeiling f) (a b c : String) (r : ℕ) (some_replica : 0 < r)
    (fits : r * 3 < 2147483648)
    → lookup c (calculate_proportional f (pos 1) (three a b c r))
      ≡ some (assignment (cluster c r) (negsuc 0) 2)
unfolding calculate_proportional share_out
proportional_overshoot f ceiling a b c r some_replica fits =
    rw
      (
        total_three a b c r fits,
        one_share f r ceiling some_replica fits,
        cap_one r some_replica,
        none_left,
        one_short,
        cap_less r some_replica,
      )
      (lookup-insert c c (assignment (cluster c r) (negsuc 0) 2) _ ∙ rw (eq_refl c) refl)
