-- ===== src/Rollout/Calculator/Equal.antt =====
-- The shares that calculateEqual of application/replica_calculator.go hands out.
use kumquat.Base.{
  ℕ, suc, ◌+◌, ◌-◌, ◌*◌, ◌/◌, ◌%◌, ◌≤◌, ◌<◌, String, ◌≡◌, refl, ap, ◌∙◌, ◌⊎◌, inl, inr, Bool, true,
  false, List, [], ◌∷◌, Map, pos, pos_part, neg_part, ltb_ℤ, ltb, ◌/ℤ◌, add32, add32-pos, sub32-pos,
  to_int32, to_int32_exact, insert, has_key, contains, IsDistinct, length, All, ◌=ˢ◌, if◌then◌else◌,
  arith, eq_iff, Bool-cases, *ℤ-pos,
}
use native.Mathlib.Nat.{div-add-mod', mod-lt, div-le_self, div-mul-le_self}
use kumquat.Api.{ClusterTopology}
use kumquat.Rollout.Calculator.{
  ClusterReplicaAssignment, cap_at, assignment, equal_out, rem32, calculate_equal,
}

abbrev pub cluster_names : List ClusterTopology → List String
cluster_names [] = []
cluster_names (t ∷ ts) = t.name ∷ cluster_names ts

abbrev pub canaries : Map ClusterReplicaAssignment → ℕ
canaries [] = 0
canaries (e ∷ m) = pos_part e.1.canary_replicas + canaries m

canaries-insert :
    (k : String) (a : ClusterReplicaAssignment) (m : Map ClusterReplicaAssignment)
    → has_key k m ≡ false
    → canaries (insert k a m) ≡ canaries m + pos_part a.canary_replicas
unfolding insert has_key
canaries-insert k a [] h = omega arith
canaries-insert k a ((j, b) ∷ m) h = ground (arith, canaries-insert k a m)

has_key-insert :
    (k j : String) (a : ClusterReplicaAssignment) (m : Map ClusterReplicaAssignment)
    → has_key j m ≡ false
    → (k =ˢ j) ≡ false
    → has_key j (insert k a m) ≡ false
unfolding insert has_key
has_key-insert k j a [] h e = ground arith
has_key-insert k j a ((i, b) ∷ m) h e = ground (arith, eq_iff i k, has_key-insert k j a m)

-- The clusters that are not yet in the result.
Fresh : Map ClusterReplicaAssignment → List ClusterTopology → Type 0
Fresh m = All (λ t. has_key t.name m ≡ false)

Fresh-insert :
    (k : String) (a : ClusterReplicaAssignment) (m : Map ClusterReplicaAssignment)
    (ts : List ClusterTopology)
    → Fresh m ts
    → contains k (cluster_names ts) ≡ false
    → Fresh (insert k a m) ts
unfolding Fresh contains
Fresh-insert k a m [] f d = tt
Fresh-insert k a m (t ∷ ts) f d = (
  ground (arith, eq_iff k t.name, eq_iff t.name k, has_key-insert k t.name a m),
  Fresh-insert k a m ts f.1 (ground arith),
)

-- Room for a rounded-up share in each cluster.
abbrev pub HasRoom : ℕ → List ClusterTopology → Type 0
HasRoom q = All (λ t. (q + 1 ≤ pos_part t.replicas) × (neg_part t.replicas ≡ 0))

abbrev share_at : ℕ → ℕ → ℕ → ℕ
share_at q r i = if ltb i r then q + 1 else q

capped_share :
    (q r i : ℕ) (t : ClusterTopology)
    → q < 2147483647
    → q + 1 ≤ pos_part t.replicas
    → cap_at (if ltb_ℤ (pos i) (pos r) then add32 (pos q) (pos 1) else pos q) t.replicas
      ≡ pos (share_at q r i)
unfolding cap_at
capped_share q r i t h room = rw (add32-pos q 1 (omega arith)) (ground arith)

-- A share is the rounded one, or one more.
abbrev pub IsEven : ℕ → ClusterReplicaAssignment → Type 0
IsEven q a = (a.canary_replicas ≡ pos q) ⊎ (a.canary_replicas ≡ pos (q + 1))

All-IsEven-insert :
    (q : ℕ) (k : String) (a : ClusterReplicaAssignment) (m : Map ClusterReplicaAssignment)
    → IsEven q a
    → All (λ e. IsEven q e.1) m
    → All (λ e. IsEven q e.1) (insert k a m)
unfolding insert
All-IsEven-insert q k a [] h hs = (h, tt)
All-IsEven-insert q k a ((j, b) ∷ m) h hs = elim (Bool-cases (j =ˢ k)) [
  | inl e ↦ rw e (h, hs.1)
  | inr e ↦ rw e (hs.0, All-IsEven-insert q k a m h hs.1)
]

module _ (q r : ℕ) (small : q < 2147483647) where
  equal_out_sum :
      (i : ℕ) (ts : List ClusterTopology) (m : Map ClusterReplicaAssignment)
      → HasRoom q ts
      → IsDistinct (cluster_names ts)
      → Fresh m ts
      → r ≤ i + length ts
      → canaries (equal_out (pos q) (pos r) i ts m) ≡ canaries m + q * length ts + (r - i)
  unfolding equal_out Fresh
  equal_out_sum i [] m room d f h = omega arith
  equal_out_sum i (t ∷ ts) m room d f h = rw (capped_share q r i t small room.0.0) (
      equal_out_sum (suc i) ts (insert t.name (assignment t (pos (share_at q r i)) i) m) room.1 d.1
        (Fresh-insert t.name _ m ts f.1 d.0) (omega arith)
      ∙ ground (arith, canaries-insert t.name (assignment t (pos (share_at q r i)) i) m f.0))

  equal_out-IsEven :
      (i : ℕ) (ts : List ClusterTopology) (m : Map ClusterReplicaAssignment)
      → HasRoom q ts
      → All (λ e. IsEven q e.1) m
      → All (λ e. IsEven q e.1) (equal_out (pos q) (pos r) i ts m)
  unfolding equal_out
  equal_out-IsEven i [] m room v = v
  equal_out-IsEven i (t ∷ ts) m room v = rw (capped_share q r i t small room.0.0) (
      equal_out-IsEven (suc i) ts _ room.1
        (All-IsEven-insert q t.name _ m (even_share (ltb i r)) v))
    where
      even_share : (b : Bool) → IsEven q (assignment t (pos (if b then q + 1 else q)) i)
      even_share true = inr refl
      even_share false = inl refl

pos-/ℤ : (a b : ℕ) → a < 2147483648 → to_int32 (pos a /ℤ pos b) ≡ pos (a / b)
unfolding ◌/ℤ◌
pos-/ℤ a b h = to_int32_exact (pos (a / b)) (omega (arith, div-le_self a b), omega arith)

pos-rem32 : (a b : ℕ) → a < 2147483648 → rem32 (pos a) (pos b) ≡ pos (a % b)
unfolding ◌/ℤ◌
pos-rem32 a b h =
    rw
      (
        *ℤ-pos (a / b) b,
        to_int32_exact (pos (a / b * b)) (omega (arith, div-mul-le_self a b), omega arith),
        sub32-pos a (a / b * b) (div-mul-le_self a b) h,
      )
      (ap pos (omega (arith, div-add-mod' a b)))

Fresh-empty : (ts : List ClusterTopology) → Fresh [] ts
unfolding Fresh has_key
Fresh-empty [] = tt
Fresh-empty (t ∷ ts) = (refl, Fresh-empty ts)

module _ (canary : ℕ) (ts : List ClusterTopology) (some_cluster : 0 < length ts)
    (few : length ts < 2147483648) (small : canary < 2147483647)
    (room : HasRoom (canary / length ts) ts) where
  equal_parts :
      calculate_equal (pos canary) ts
      ≡ equal_out (pos (canary / length ts)) (pos (canary % length ts)) 0 ts []
  unfolding calculate_equal
  equal_parts =
      rw
        (
          to_int32_exact (pos (length ts)) (few, omega arith),
          pos-/ℤ canary (length ts) (omega arith),
          pos-rem32 canary (length ts) (omega arith),
        )
        refl

  -- The equal distribution assigns exactly the canary replicas, where each cluster has room for
  -- its rounded-up share and is named once, and the numbers fit an int32.
  pub calculate_equal_sum :
      (distinct : IsDistinct (cluster_names ts))
      → canaries (calculate_equal (pos canary) ts) ≡ canary
  unfolding Fresh has_key
  calculate_equal_sum distinct = rw equal_parts (
      equal_out_sum (canary / length ts) (canary % length ts)
        (omega (arith, div-le_self canary (length ts))) 0 ts [] room distinct (Fresh-empty ts)
        (omega (arith, mod-lt canary some_cluster))
      ∙ omega (arith, div-add-mod' canary (length ts)))

  -- In the equal distribution each share is the quotient of the canary replicas by the clusters, or
  -- one more, where each cluster has room for its rounded-up share and the numbers fit an int32.
  pub calculate_equal-IsEven :
      All (λ e. IsEven (canary / length ts) e.1) (calculate_equal (pos canary) ts)
  calculate_equal-IsEven = rw equal_parts (
      equal_out-IsEven (canary / length ts) (canary % length ts)
        (omega (arith, div-le_self canary (length ts))) 0 ts [] room tt)
