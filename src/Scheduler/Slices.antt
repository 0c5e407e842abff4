-- ===== src/Scheduler/Slices.antt =====
-- sort.Slice of Go's package sort, as a parameter: which order it gives to equal elements is left
-- open.
use kumquat.Base.{Bool, List}
use mathlib.Core.List.{Permᴰ}

pub record Slices : Type 1 where
  -- `less` compares two elements.
  pub sort : {A : Type 0} → (A → A → Bool) → List A → List A

-- Sorting only reorders the elements.
abbrev pub IsReordering : Slices → Type 1
IsReordering s = (A : Type 0) (less : A → A → Bool) (xs : List A) → Permᴰ xs (s.sort less xs)
