-- ===== src/Tests/Selecting.antt =====
-- Tests of the selection of one cluster and of the shards.
use kumquat.Base.{
  ℕ, ◌≡◌, refl, ◌≤ℤ◌, String, Map, [], ◌∷◌, ℤ, pos, negsuc, lookup_or, has_key, arith,
}
use kumquat.Scheduler.Single.{select_cluster}
use kumquat.Scheduler.Single.Best.{select_cluster_best}
use kumquat.Sharding.Partition.{responsible_below, one_responsible}

abbrev scores : Map ℤ
scores = ("west", pos 40) ∷ ("east", pos 90) ∷ ("south", negsuc 2) ∷ []

select_cluster_best_example :
    lookup_or (pos 0) "west" scores ≤ℤ lookup_or (pos 0) (select_cluster scores) scores
unfolding has_key lookup_or
select_cluster_best_example = select_cluster_best scores "west" refl refl

abbrev constant_hash : String → ℕ
constant_hash key = 2166136261

one_responsible_example : responsible_below constant_hash (pos 4) "prod/db" 4 ≡ 1
one_responsible_example = one_responsible constant_hash "prod/db" 4 (omega arith)
