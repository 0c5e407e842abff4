-- ===== src/Base/Keys.antt =====
-- Laws of maps whose keys are distinct.
use Prim.Native.String.{String}
use mathlib.Core.Path.{◌≡◌, refl}
use mathlib.Core.Logic.{inl, inr}
use mathlib.Core.Bool.{false, ◌||◌}
use mathlib.Core.List.{[], ◌∷◌}
use native.Mathlib.Omega.{arith}
use text.Mathlib.TextEquality.{eq_iff}
use kumquat.Base.Tests.{◌=ˢ◌, Bool-cases}
use kumquat.Base.Lists.{All}
use kumquat.Base.Maps.{Map, lookup_or, insert, has_key, IsMap}

pub lookup_or_absent :
    {V : Type 0} (z : V) (n : String) (m : Map V) → has_key n m ≡ false → lookup_or z n m ≡ z
unfolding lookup_or has_key
lookup_or_absent z n [] h = refl
lookup_or_absent z n ((k, v) ∷ m) h = ground (arith, lookup_or_absent z n m)

pub has_key-insert :
    {V : Type 0} (k n : String) (v : V) (m : Map V)
    → has_key n (insert k v m) ≡ ((k =ˢ n) || has_key n m)
unfolding has_key insert
has_key-insert k n v [] = refl
has_key-insert k n v ((j, w) ∷ m) =
    ground (arith, has_key-insert k n v m, eq_iff j k, eq_iff j n, eq_iff k n)

pub insert-IsMap : {V : Type 0} (k : String) (v : V) (m : Map V) → IsMap m → IsMap (insert k v m)
unfolding insert has_key
insert-IsMap k v [] h = (refl, tt)
insert-IsMap k v ((j, w) ∷ m) h = elim (Bool-cases (j =ˢ k)) [
  | inl e ↦ rw e (ground (arith, h.0, eq_iff j k), h.1)
  | inr e ↦ rw e (
    rw (has_key-insert k j v m) (ground (arith, h.0, eq_iff j k, eq_iff k j)),
    insert-IsMap k v m h.1,
  )
]

pub still_new :
    {V : Type 0} (k : String) (q : V) (total reqs : Map V)
    → has_key k reqs ≡ false
    → All (λ e. has_key e.0 total ≡ false) reqs
    → All (λ e. has_key e.0 (insert k q total) ≡ false) reqs
unfolding has_key
still_new k q total [] h new = tt
still_new k q total ((n, v) ∷ reqs) h new = (
  rw (has_key-insert k n q total) (ground (arith, new.0, eq_iff k n, eq_iff n k)),
  still_new k q total reqs (ground arith) new.1,
)
