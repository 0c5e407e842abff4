-- ===== src/Base/Sums.antt =====
-- Sums over lists, which a permutation keeps.
use Prim.Native.Nat.{ℕ, suc, ◌+◌}
use mathlib.Core.Path.{◌≡◌, refl, ap, ◌∙◌}
use mathlib.Core.List.{List, [], ◌∷◌, ◌++◌, Permᴰ}
use native.Mathlib.Omega.{arith}
use kumquat.Base.Lists.{length}

module _ {A : Type 0} where
  abbrev pub sum_by : (A → ℕ) → List A → ℕ
  sum_by g [] = 0
  sum_by g (x ∷ xs) = g x + sum_by g xs

  pub sum_by-append : (g : A → ℕ) (xs ys : List A) → sum_by g (xs ++ ys) ≡ sum_by g xs + sum_by g ys
  sum_by-append g [] ys = omega arith
  sum_by-append g (x ∷ xs) ys = omega (arith, sum_by-append g xs ys)

  pub sum_by-perm : (g : A → ℕ) {xs ys : List A} → Permᴰ xs ys → sum_by g xs ≡ sum_by g ys
  sum_by-perm g Permᴰ.nil = refl
  sum_by-perm g (Permᴰ.cons e d) = omega (arith, ap g e, sum_by-perm g d)
  sum_by-perm g (Permᴰ.swap e d) = omega (arith, ap g e, ap g d)
  sum_by-perm g (Permᴰ.trans d e) = sum_by-perm g d ∙ sum_by-perm g e

  pub length-perm : {xs ys : List A} → Permᴰ xs ys → length xs ≡ length ys
  length-perm Permᴰ.nil = refl
  length-perm (Permᴰ.cons e d) = ap suc (length-perm d)
  length-perm (Permᴰ.swap e d) = refl
  length-perm (Permᴰ.trans d e) = length-perm d ∙ length-perm e
