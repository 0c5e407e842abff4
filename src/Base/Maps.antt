-- ===== src/Base/Maps.antt =====
-- Go's maps with string keys, as association lists. The order of the entries is the order in which
-- a `range` loop meets them; Go leaves it open, and the theorems hold for every order.
use Prim.Native.String.{String}
use mathlib.Core.Path.{◌≡◌, refl}
use mathlib.Core.Bool.{Bool, true, false, ◌||◌}
use mathlib.Core.Option.{Option, none, some}
use mathlib.Core.List.{List, [], ◌∷◌}
use native.Mathlib.Omega.{arith}
use text.Mathlib.TextEquality.{eq_iff}
use kumquat.Base.Tests.{◌=ˢ◌, if◌then◌else◌}

abbrev pub Map {ℓ} : Type ℓ → Type ℓ
Map V = List (String × V)

module _ {ℓ} {V : Type ℓ} where
  -- v, ok := m[k]
  unfoldable pub lookup : String → Map V → Option V
  lookup k [] = none
  lookup k ((j, v) ∷ m) = if j =ˢ k then some v else lookup k m

  -- m[k], with the zero value of the type for a missing key
  unfoldable pub lookup_or : V → String → Map V → V
  lookup_or z k [] = z
  lookup_or z k ((j, v) ∷ m) = if j =ˢ k then v else lookup_or z k m

  -- m[k] = v
  unfoldable pub insert : String → V → Map V → Map V
  insert k v [] = (k, v) ∷ []
  insert k v ((j, w) ∷ m) = if j =ˢ k then (k, v) ∷ m else (j, w) ∷ insert k v m

  -- delete(m, k)
  unfoldable pub delete : String → Map V → Map V
  delete k [] = []
  delete k ((j, v) ∷ m) = let rest = delete k m in if j =ˢ k then rest else (j, v) ∷ rest

  unfoldable pub has_key : String → Map V → Bool
  has_key k [] = false
  has_key k ((j, v) ∷ m) = (j =ˢ k) || has_key k m

  unfoldable pub keys : Map V → List String
  keys [] = []
  keys ((j, v) ∷ m) = j ∷ keys m

  pub lookup-insert :
      (k j : String) (v : V) (m : Map V)
      → lookup j (insert k v m) ≡ (if k =ˢ j then some v else lookup j m)
  unfolding lookup insert
  lookup-insert new asked x [] = refl
  lookup-insert new asked x ((old, y) ∷ rest) =
      ground
        (arith, lookup-insert new asked x rest, eq_iff old new, eq_iff old asked, eq_iff new asked)

  pub lookup_or-insert :
      (z : V) (k j : String) (v : V) (m : Map V)
      → lookup_or z j (insert k v m) ≡ (if k =ˢ j then v else lookup_or z j m)
  unfolding lookup_or insert
  lookup_or-insert z k j v [] = refl
  lookup_or-insert z k j v ((i, w) ∷ m) =
      ground (arith, eq_iff k j, eq_iff i k, eq_iff i j, lookup_or-insert z k j v m)

  pub lookup-delete :
      (k j : String) (m : Map V) → lookup j (delete k m) ≡ (if k =ˢ j then none else lookup j m)
  unfolding lookup delete
  lookup-delete k j [] = ground arith
  lookup-delete k j ((i, w) ∷ m) =
      ground (arith, eq_iff k j, eq_iff i k, eq_iff i j, lookup-delete k j m)

  pub lookup_or-delete :
      (z : V) (k j : String) (m : Map V)
      → lookup_or z j (delete k m) ≡ (if k =ˢ j then z else lookup_or z j m)
  unfolding lookup_or delete
  lookup_or-delete z k j [] = ground arith
  lookup_or-delete z k j ((i, w) ∷ m) =
      ground (arith, eq_iff k j, eq_iff i k, eq_iff i j, lookup_or-delete z k j m)

  pub lookup_or-nil : (z : V) (k : String) → lookup_or z k [] ≡ z
  unfolding lookup_or
  lookup_or-nil z k = refl

  pub lookup_or-lookup :
      (z : V) (k : String) (m : Map V)
      → lookup_or z k m ≡ elim (lookup k m) [ none ↦ z | some v ↦ v ]
  unfolding lookup_or lookup
  lookup_or-lookup z k [] = refl
  lookup_or-lookup z k ((j, v) ∷ m) = ground (arith, lookup_or-lookup z k m)

  pub has_key-lookup :
      (k : String) (m : Map V) → has_key k m ≡ elim (lookup k m) [ none ↦ false | some v ↦ true ]
  unfolding has_key lookup
  has_key-lookup k [] = refl
  has_key-lookup k ((j, v) ∷ m) = ground (arith, has_key-lookup k m)

  -- No key stands twice, as in every map of Go.
  abbrev pub IsMap : Map V → Type 0
  IsMap [] = Unit
  IsMap ((k, v) ∷ m) = (has_key k m ≡ false) × IsMap m
