-- ===== src/Base/Sorting.antt =====
-- sort.Strings, and lists of strings without repetition.
use Prim.Native.String.{String, compare}
use mathlib.Core.Path.{◌≡◌, refl}
use mathlib.Core.Bool.{false, ◌||◌}
use mathlib.Core.List.{List, [], ◌∷◌, ◌++◌}
use native.Mathlib.Omega.{arith}
use text.Mathlib.Text.{is_lt}
use text.Mathlib.TextEquality.{eq_iff}
use kumquat.Base.Tests.{◌=ˢ◌, if◌then◌else◌}
use kumquat.Base.Sets.{contains, add, add_all, contains-append}

unfoldable pub insert_sorted : String → List String → List String
insert_sorted k [] = k ∷ []
insert_sorted k (x ∷ xs) =
    let rest = insert_sorted k xs in if is_lt (compare x k) then x ∷ rest else k ∷ x ∷ xs

unfoldable pub sort_strings : List String → List String
unfolding insert_sorted
sort_strings [] = []
sort_strings (x ∷ xs) = insert_sorted x (sort_strings xs)

abbrev pub IsDistinct : List String → Type 0
IsDistinct [] = Unit {0}
IsDistinct (x ∷ xs) = (contains x xs ≡ false) × IsDistinct xs

contains-insert_sorted :
    (j k : String) (xs : List String)
    → contains j (insert_sorted k xs) ≡ ((k =ˢ j) || contains j xs)
unfolding insert_sorted contains
contains-insert_sorted j k [] = refl
contains-insert_sorted j k (x ∷ xs) = ground (arith, contains-insert_sorted j k xs)

pub contains-sort_strings :
    (j : String) (xs : List String) → contains j (sort_strings xs) ≡ contains j xs
unfolding sort_strings contains
contains-sort_strings j [] = refl
contains-sort_strings j (x ∷ xs) =
    ground (arith, contains-insert_sorted j x (sort_strings xs), contains-sort_strings j xs)

insert_sorted-IsDistinct :
    (k : String) (xs : List String)
    → contains k xs ≡ false
    → IsDistinct xs
    → IsDistinct (insert_sorted k xs)
unfolding insert_sorted contains
insert_sorted-IsDistinct k [] h d = (refl, tt)
insert_sorted-IsDistinct k (x ∷ xs) h d =
    ground
      (arith, eq_iff x k, eq_iff k x, insert_sorted-IsDistinct k xs, contains-insert_sorted x k xs)

pub sort_strings-IsDistinct : (xs : List String) → IsDistinct xs → IsDistinct (sort_strings xs)
unfolding sort_strings
sort_strings-IsDistinct [] d = tt
sort_strings-IsDistinct (x ∷ xs) d = ground (
  arith,
  insert_sorted-IsDistinct x (sort_strings xs),
  sort_strings-IsDistinct xs,
  contains-sort_strings x xs,
)

append-IsDistinct :
    (k : String) (xs : List String)
    → contains k xs ≡ false
    → IsDistinct xs
    → IsDistinct (xs ++ k ∷ [])
unfolding contains
append-IsDistinct k [] h d = (refl, tt)
append-IsDistinct k (x ∷ xs) h d =
    ground (arith, eq_iff x k, eq_iff k x, contains-append x xs (k ∷ []), append-IsDistinct k xs)

pub add-IsDistinct : (k : String) (xs : List String) → IsDistinct xs → IsDistinct (add k xs)
unfolding add
add-IsDistinct k xs d = ground (arith, append-IsDistinct k xs)

pub add_all-IsDistinct : (ks xs : List String) → IsDistinct xs → IsDistinct (add_all ks xs)
unfolding add_all
add_all-IsDistinct [] xs d = d
add_all-IsDistinct (k ∷ ks) xs d = add_all-IsDistinct ks (add k xs) (add-IsDistinct k xs d)
