-- ===== src/Scheduler/Single.antt =====
-- selectCluster of engine/internal/manager/scheduler/scheduler.go.
pub mod Best
use kumquat.Base.{
  String, Bool, List, [], ◌∷◌, Map, ℤ, pos, negsuc, ltb_ℤ, lookup_or, keys, sort_strings,
  if◌then◌else◌,
}

-- The loop over the sorted names, with the best name and score so far.
pub best_of : Map ℤ → List String → String → ℤ → String
best_of scores [] selected most = selected
best_of scores (name ∷ names) selected most =
    let score = lookup_or (pos 0) name scores in
    if ltb_ℤ most score then best_of scores names name score else best_of scores names selected most

pub select_cluster : Map ℤ → String
select_cluster scores = best_of scores (sort_strings (keys scores)) "" (negsuc 0)
