-- ===== src/Rollout/Calculator/Shares.antt =====
-- The canary and the stable replicas of an assignment, in the loops of
-- application/replica_calculator.go.
use kumquat.Base.{
  ℕ, zero, suc, String, ◌≡◌, List, [], ◌∷◌, Map, ℤ, pos, neg_part, ltb_ℤ, ◌≤ℤ◌, add32, sub32, refl,
  Member, ◌=ˢ◌, add32-IsInt32, sub32-IsInt32, add32-zero, IsInt32, insert, is_nil, All, ◌=ˢ◌,
  if◌then◌else◌, arith, Bool-cases, inl, inr,
}
use kumquat.Api.{ClusterTopology}
use kumquat.Rollout.Calculator.{
  ClusterReplicaAssignment, cap_at, assignment, share_out, equal_out, sequential_out,
}

-- The entry `a` under `name` is for a cluster of the topology: it has the cluster's name and all of
-- its replicas, the canary replicas are at most these, and with the stable ones they are these, as
-- int32 numbers.
pub record IsSplit (topology : List ClusterTopology) (name : String) (a : ClusterReplicaAssignment)
    : Type 0 where
  pub cluster : ClusterTopology
  pub listed : Member cluster topology
  pub key : cluster.name ≡ name
  pub named : a.cluster_name ≡ name
  pub total : a.total_replicas ≡ cluster.replicas
  pub within : a.canary_replicas ≤ℤ cluster.replicas
  pub whole : add32 a.canary_replicas a.stable_replicas ≡ cluster.replicas

abbrev pub AreSplit : List ClusterTopology → Map ClusterReplicaAssignment → Type 0
AreSplit topology m = All (λ e. IsSplit topology e.0 e.1) m

add32-sub32 : (c r : ℤ) → IsInt32 c → IsInt32 r → add32 c (sub32 r c) ≡ r
unfolding add32 sub32
add32-sub32 c r hc hr = ground arith

cap_at-IsInt32 : (c r : ℤ) → IsInt32 c → IsInt32 r → IsInt32 (cap_at c r)
unfolding cap_at
cap_at-IsInt32 c r hc hr = ground arith

cap_at-le : (c r : ℤ) → cap_at c r ≤ℤ r
unfolding cap_at
cap_at-le c r = ground arith

assignment-IsSplit :
    (all : List ClusterTopology) (t : ClusterTopology) (c : ℤ) (i : ℕ)
    → Member t all
    → IsInt32 c
    → IsInt32 t.replicas
    → IsSplit all t.name (assignment t (cap_at c t.replicas) i)
assignment-IsSplit all t c i listed hc hr = record {
  cluster = t;
  listed = listed;
  key = refl;
  named = refl;
  total = refl;
  within = cap_at-le c t.replicas;
  whole = add32-sub32 (cap_at c t.replicas) t.replicas (cap_at-IsInt32 c t.replicas hc hr) hr;
}

insert-AreSplit :
    (all : List ClusterTopology) (k : String) (a : ClusterReplicaAssignment)
    (m : Map ClusterReplicaAssignment)
    → IsSplit all k a
    → AreSplit all m
    → AreSplit all (insert k a m)
unfolding insert
insert-AreSplit all k a [] h hs = (h, tt)
insert-AreSplit all k a ((j, b) ∷ m) h hs = elim (Bool-cases (j =ˢ k)) [
  | inl e ↦ rw e (h, hs.1)
  | inr e ↦ rw e (hs.0, insert-AreSplit all k a m h hs.1)
]

abbrev pub AreInt32 : List ClusterTopology → Type 0
AreInt32 = All (λ t. IsInt32 t.replicas)

pub share_out-AreSplit :
    (all : List ClusterTopology) (share : ClusterTopology → ℤ) (i : ℕ) (remaining : ℤ)
    (ts : List ClusterTopology) (m : Map ClusterReplicaAssignment)
    → ((t : ClusterTopology) → IsInt32 (share t))
    → IsInt32 remaining
    → All (λ t. Member t all) ts
    → AreInt32 ts
    → AreSplit all m
    → AreSplit all (share_out share i remaining ts m)
unfolding share_out
share_out-AreSplit all share i remaining [] m hs hr l h v = v
share_out-AreSplit all share i remaining (t ∷ ts) m hs hr l h v =
    let c : ℤ = if is_nil ts then remaining else share t in
    let small : IsInt32 c = (ground (arith, hs t), ground (arith, hs t)) in
    share_out-AreSplit all share (suc i) (sub32 remaining (cap_at c t.replicas)) ts
      (insert t.name (assignment t (cap_at c t.replicas) i) m) hs
      (sub32-IsInt32 remaining (cap_at c t.replicas)) l.1 h.1
      (insert-AreSplit all t.name _ m (assignment-IsSplit all t c i l.0 small h.0) v)

pub equal_out-AreSplit :
    (all : List ClusterTopology) (q r : ℤ) (i : ℕ) (ts : List ClusterTopology)
    (m : Map ClusterReplicaAssignment)
    → IsInt32 q
    → All (λ t. Member t all) ts
    → AreInt32 ts
    → AreSplit all m
    → AreSplit all (equal_out q r i ts m)
unfolding equal_out
equal_out-AreSplit all q r i [] m hq l h v = v
equal_out-AreSplit all q r i (t ∷ ts) m hq l h v =
    let c : ℤ = if ltb_ℤ (pos i) r then add32 q (pos 1) else q in
    let plus : IsInt32 (add32 q (pos 1)) = add32-IsInt32 q (pos 1) in
    let small : IsInt32 c = (ground (arith, plus), ground (arith, plus)) in
    equal_out-AreSplit all q r (suc i) ts (insert t.name (assignment t (cap_at c t.replicas) i) m)
      hq l.1 h.1 (insert-AreSplit all t.name _ m (assignment-IsSplit all t c i l.0 small h.0) v)

pub sequential_out-AreSplit :
    (all : List ClusterTopology) (c : ℤ) (i : ℕ) (ts : List ClusterTopology)
    (m : Map ClusterReplicaAssignment)
    → IsInt32 c
    → All (λ t. Member t all) ts
    → AreInt32 ts
    → All (λ t. neg_part t.replicas ≡ 0) ts
    → AreSplit all m
    → AreSplit all (sequential_out c i ts m)
unfolding sequential_out
sequential_out-AreSplit all c i [] m hc l h n v = v
sequential_out-AreSplit all c zero (t ∷ ts) m hc l h n v =
    sequential_out-AreSplit all c 1 ts _ hc l.1 h.1 n.1
      (insert-AreSplit all t.name _ m (assignment-IsSplit all t c 0 l.0 hc h.0) v)
sequential_out-AreSplit all c (suc i) (t ∷ ts) m hc l h n v =
    sequential_out-AreSplit all c (suc (suc i)) ts _ hc l.1 h.1 n.1 (
      insert-AreSplit all t.name _ m
        (record {
          cluster = t;
          listed = l.0;
          key = refl;
          named = refl;
          total = refl;
          within = omega (arith, n.0);
          whole = add32-zero t.replicas h.0;
        })
        v)

listed_later :
    (t : ClusterTopology) (ts xs : List ClusterTopology)
    → All (λ x. Member x ts) xs
    → All (λ x. Member x (t ∷ ts)) xs
listed_later t ts [] h = tt
listed_later t ts (x ∷ xs) h = (inr h.0, listed_later t ts xs h.1)

pub all_listed : (ts : List ClusterTopology) → All (λ t. Member t ts) ts
all_listed [] = tt
all_listed (t ∷ ts) = (inl refl, listed_later t ts ts (all_listed ts))
