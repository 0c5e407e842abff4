-- ===== src/Base/Sets.antt =====
-- Go's sets of strings, map[string]struct{}, as lists in the order of a `range` loop.
use Prim.Native.String.{String}
use mathlib.Core.Path.{◌≡◌, refl}
use mathlib.Core.Bool.{Bool, false, ◌&&◌, ◌||◌}
use mathlib.Core.List.{List, [], ◌∷◌, ◌++◌}
use native.Mathlib.Omega.{arith}
use text.Mathlib.TextEquality.{eq_iff}
use kumquat.Base.Tests.{◌=ˢ◌, if◌then◌else◌}
use kumquat.Base.Lists.{select}

unfoldable pub contains : String → List String → Bool
contains k [] = false
contains k (x ∷ xs) = (x =ˢ k) || contains k xs

-- set[k] = struct{}{}
unfoldable pub add : String → List String → List String
add k xs = if contains k xs then xs else xs ++ k ∷ []

unfoldable pub add_all : List String → List String → List String
add_all [] set = set
add_all (k ∷ ks) set = add_all ks (add k set)

pub contains-append :
    (k : String) (xs ys : List String) → contains k (xs ++ ys) ≡ (contains k xs || contains k ys)
unfolding contains
contains-append k [] ys = refl
contains-append k (x ∷ xs) ys = ground (arith, contains-append k xs ys)

pub contains-add :
    (k j : String) (xs : List String) → contains j (add k xs) ≡ ((k =ˢ j) || contains j xs)
unfolding add contains
contains-add k j xs = ground (arith, eq_iff k j, contains-append j xs (k ∷ []))

pub contains-add_all :
    (j : String) (ks set : List String)
    → contains j (add_all ks set) ≡ (contains j ks || contains j set)
unfolding add_all contains
contains-add_all j [] set = refl
contains-add_all j (k ∷ ks) set =
    ground (arith, contains-add_all j ks (add k set), contains-add k j set)

pub contains-select :
    (p : String → Bool) (j : String) (xs : List String)
    → contains j (select p xs) ≡ (p j && contains j xs)
unfolding contains
contains-select p j [] = ground arith
contains-select p j (x ∷ xs) = ground (arith, eq_iff x j, contains-select p j xs)
