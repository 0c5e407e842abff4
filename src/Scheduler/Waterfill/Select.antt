-- ===== src/Scheduler/Waterfill/Select.antt =====
-- The water filling over the capacities that the capacity plugin calculates.
use kumquat.Base.{ℕ, ◌≤◌, ◌<◌, String, ◌≡◌, false, Map, ℤ, pos, is_nil, arith}
use kumquat.Api.{Application, Resources}
use kumquat.Cache.Store.{Snapshot}
use kumquat.Scheduler.Waterfill.{cluster_capacity, desired_replicas, select_clusters_waterfill}
use kumquat.Scheduler.Waterfill.Sums.{total_replicas, replicas_in, IsPlacement}
use kumquat.Scheduler.Waterfill.Fill.{IsCapacity}
use kumquat.Scheduler.Waterfill.Total.{waterfill_total, waterfill_grows, waterfill_shrinks}

module _ (r : Resources) (app : Application) (scores : Map ℤ) (snapshot : Snapshot r.Quantity) where
  cluster_capacity-IsCapacity : IsCapacity (cluster_capacity r app scores snapshot)
  unfolding cluster_capacity
  cluster_capacity-IsCapacity name c h = ground arith

  module _ (n : ℕ) (desired : desired_replicas app ≡ pos n) (feasible : is_nil scores ≡ false)
      (placed : IsPlacement app.topology) (small : n < 2147483648)
      (small_before : total_replicas app.topology < 2147483648) where
    -- For a StatefulSet the spread strategy places exactly the desired number of replicas, whatever
    -- the capacities, where some cluster is feasible, the placement so far names each cluster once
    -- with a natural number of replicas, and both totals fit an int32.
    pub select_waterfill_total :
        total_replicas (select_clusters_waterfill r app scores snapshot) ≡ n
    unfolding select_clusters_waterfill
    select_waterfill_total = rw desired (
        waterfill_total (cluster_capacity r app scores snapshot) scores app.topology n
          cluster_capacity-IsCapacity feasible placed small small_before)

    -- Under the same conditions, where the desired number is at least the number placed so far, no
    -- cluster loses a replica.
    pub select_waterfill_grows :
        (more : total_replicas app.topology ≤ n) (name : String)
        → replicas_in name app.topology
          ≤ replicas_in name (select_clusters_waterfill r app scores snapshot)
    unfolding select_clusters_waterfill
    select_waterfill_grows = rw desired (
        waterfill_grows (cluster_capacity r app scores snapshot) scores app.topology n
          cluster_capacity-IsCapacity feasible placed small small_before)

    -- Under the same conditions, where the desired number is at most the number placed so far, no
    -- cluster gains a replica.
    pub select_waterfill_shrinks :
        (fewer : n ≤ total_replicas app.topology) (name : String)
        → replicas_in name (select_clusters_waterfill r app scores snapshot)
          ≤ replicas_in name app.topology
    unfolding select_clusters_waterfill
    select_waterfill_shrinks = rw desired (
        waterfill_shrinks (cluster_capacity r app scores snapshot) scores app.topology n
          cluster_capacity-IsCapacity feasible placed small small_before)
