-- ===== src/Rollout/Calculator/Keys.antt =====
-- Which clusters the modes of application/replica_calculator.go assign replicas to.
use kumquat.Base.{
  ℕ, zero, suc, String, ◌≡◌, refl, ◌∙◌, Bool, ◌||◌, List, [], ◌∷◌, Map, ℤ, pos, eqb_ℤ, insert,
  has_key, has_key-insert, contains, ◌=ˢ◌, arith, Bool-cases, inl, inr,
}
use kumquat.Api.{ClusterTopology}
use kumquat.Api.Floats.{Floats}
use kumquat.Rollout.Calculator.{
  ClusterReplicaAssignment, ClusterReplicaWeight, share_out, equal_out, sequential_out,
  calculate_equal, calculate_sequential, calculate_proportional, calculate_weighted, sum_weights,
}
use kumquat.Rollout.Calculator.Equal.{cluster_names}

-- An entry that is inserted on the way is one of the entries at the end.
one_more_key :
    (n k : String) (a : ClusterReplicaAssignment) (ts : List ClusterTopology)
    (m : Map ClusterReplicaAssignment)
    → (contains n (cluster_names ts) || has_key n (insert k a m))
      ≡ (((k =ˢ n) || contains n (cluster_names ts)) || has_key n m)
one_more_key n k a ts m = ground (arith, has_key-insert k n a m)

has_key-share_out :
    (share : ClusterTopology → ℤ) (i : ℕ) (remaining : ℤ) (ts : List ClusterTopology)
    (m : Map ClusterReplicaAssignment) (n : String)
    → has_key n (share_out share i remaining ts m) ≡ (contains n (cluster_names ts) || has_key n m)
unfolding share_out contains
has_key-share_out share i remaining [] m n = refl
has_key-share_out share i remaining (t ∷ ts) m n =
    has_key-share_out share (suc i) _ ts _ n ∙ one_more_key n t.name _ ts m

has_key-equal_out :
    (q r : ℤ) (i : ℕ) (ts : List ClusterTopology) (m : Map ClusterReplicaAssignment) (n : String)
    → has_key n (equal_out q r i ts m) ≡ (contains n (cluster_names ts) || has_key n m)
unfolding equal_out contains
has_key-equal_out q r i [] m n = refl
has_key-equal_out q r i (t ∷ ts) m n =
    has_key-equal_out q r (suc i) ts _ n ∙ one_more_key n t.name _ ts m

has_key-sequential_out :
    (canary : ℤ) (i : ℕ) (ts : List ClusterTopology) (m : Map ClusterReplicaAssignment) (n : String)
    → has_key n (sequential_out canary i ts m) ≡ (contains n (cluster_names ts) || has_key n m)
unfolding sequential_out contains
has_key-sequential_out canary i [] m n = refl
has_key-sequential_out canary zero (t ∷ ts) m n =
    has_key-sequential_out canary 1 ts _ n ∙ one_more_key n t.name _ ts m
has_key-sequential_out canary (suc i) (t ∷ ts) m n =
    has_key-sequential_out canary (suc (suc i)) ts _ n ∙ one_more_key n t.name _ ts m

-- The keys are the names of the clusters of the topology.
abbrev pub CoversAll : List ClusterTopology → Map ClusterReplicaAssignment → Type 0
CoversAll ts m = (n : String) → has_key n m ≡ contains n (cluster_names ts)

nothing_yet : (n : String) (b : Bool) → (b || has_key {V = ClusterReplicaAssignment} n []) ≡ b
unfolding has_key
nothing_yet n b = ground arith

pub calculate_equal-CoversAll :
    (canary : ℤ) (ts : List ClusterTopology) → CoversAll ts (calculate_equal canary ts)
unfolding calculate_equal
calculate_equal-CoversAll canary ts n = has_key-equal_out _ _ 0 ts [] n ∙ nothing_yet n _

pub calculate_sequential-CoversAll :
    (canary : ℤ) (ts : List ClusterTopology) → CoversAll ts (calculate_sequential canary ts)
unfolding calculate_sequential
calculate_sequential-CoversAll canary ts n =
    has_key-sequential_out canary 0 ts [] n ∙ nothing_yet n _

module _ (f : Floats) where
  pub calculate_proportional-CoversAll :
      (canary : ℤ) (ts : List ClusterTopology) → CoversAll ts (calculate_proportional f canary ts)
  unfolding calculate_proportional
  calculate_proportional-CoversAll canary ts n =
      has_key-share_out _ 0 canary ts [] n ∙ nothing_yet n _

  pub calculate_weighted-CoversAll :
      (canary : ℤ) (ts : List ClusterTopology) (weights : List ClusterReplicaWeight)
      → CoversAll ts (calculate_weighted f canary ts weights)
  unfolding calculate_weighted
  calculate_weighted-CoversAll canary ts weights n =
      elim (Bool-cases (eqb_ℤ (sum_weights weights (pos 0)) (pos 0))) [
        | inl e ↦ rw e (calculate_equal-CoversAll canary ts n)
        | inr e ↦ rw e (has_key-share_out _ 0 canary ts [] n ∙ nothing_yet n _)
      ]
