-- ===== src/Scheduler/Waterfill/Sums.antt =====
-- Sums of a placement over the names of the clusters.
use kumquat.Base.{
  ℕ, ◌+◌, ◌≤◌, ◌<◌, String, ◌≡◌, refl, true, false, List, [], ◌∷◌, Map, ℤ, pos, pos_part, neg_part,
  add32-pos, lookup_or, insert, contains, IsDistinct, All, ◌=ˢ◌, if◌then◌else◌, arith, eq_iff,
  lookup_or-insert,
}
use kumquat.Api.{ClusterTopology}
use kumquat.Scheduler.Waterfill.{placement_map, placement_total, positive_entries}

abbrev pub amount : String → Map ℤ → ℕ
amount name m = pos_part (lookup_or (pos 0) name m)

-- No cluster has a negative number of replicas.
abbrev pub IsNatural : Map ℤ → Type 0
IsNatural m = (name : String) → neg_part (lookup_or (pos 0) name m) ≡ 0

abbrev pub sum_over : List String → Map ℤ → ℕ
sum_over [] m = 0
sum_over (name ∷ names) m = amount name m + sum_over names m

natural_eq : (z : ℤ) → neg_part z ≡ 0 → z ≡ pos (pos_part z)
natural_eq z h = ground arith

pub lookup-natural :
    (name : String) (m : Map ℤ) → IsNatural m → lookup_or (pos 0) name m ≡ pos (amount name m)
lookup-natural name m h = ground (arith, h name)

pub insert-IsNatural :
    (k : String) (n : ℕ) (m : Map ℤ) → IsNatural m → IsNatural (insert k (pos n) m)
insert-IsNatural k n m h name = ground (arith, h name, lookup_or-insert (pos 0) k name (pos n) m)

pub amount-insert :
    (k name : String) (n : ℕ) (m : Map ℤ)
    → amount name (insert k (pos n) m) ≡ (if k =ˢ name then n else amount name m)
amount-insert k name n m = ground (arith, lookup_or-insert (pos 0) k name (pos n) m)

pub sum_over-insert_absent :
    (k : String) (n : ℕ) (m : Map ℤ) (names : List String)
    → contains k names ≡ false
    → sum_over names (insert k (pos n) m) ≡ sum_over names m
unfolding contains
sum_over-insert_absent k n m [] h = refl
sum_over-insert_absent k n m (x ∷ xs) h =
    ground (arith, eq_iff k x, eq_iff x k, amount-insert k x n m, sum_over-insert_absent k n m xs)

pub sum_over-insert :
    (k : String) (n : ℕ) (m : Map ℤ) (names : List String)
    → IsDistinct names
    → contains k names ≡ true
    → sum_over names (insert k (pos n) m) + amount k m ≡ sum_over names m + n
unfolding contains
sum_over-insert k n m [] d h = cc
sum_over-insert k n m (x ∷ xs) d h = ground (
  arith,
  eq_iff k x,
  eq_iff x k,
  amount-insert k x n m,
  sum_over-insert k n m xs d.1,
  sum_over-insert_absent k n m xs,
)

pub amount-le-sum_over :
    (k : String) (m : Map ℤ) (names : List String)
    → contains k names ≡ true
    → amount k m ≤ sum_over names m
unfolding contains
amount-le-sum_over k m [] h = cc
amount-le-sum_over k m (x ∷ xs) h = ground (arith, eq_iff x k, amount-le-sum_over k m xs)

-- The replicas of a list of assignments.
abbrev pub total_replicas : List ClusterTopology → ℕ
total_replicas [] = 0
total_replicas (t ∷ ts) = pos_part t.replicas + total_replicas ts

-- The replicas of one cluster: those of its first entry.
abbrev pub replicas_in : String → List ClusterTopology → ℕ
replicas_in name [] = 0
replicas_in name (t ∷ ts) = if t.name =ˢ name then pos_part t.replicas else replicas_in name ts

abbrev pub names_of : List ClusterTopology → List String
names_of [] = []
names_of (t ∷ ts) = t.name ∷ names_of ts

pub total_replicas-positive_entries :
    (names : List String) (m : Map ℤ) → total_replicas (positive_entries names m) ≡ sum_over names m
unfolding positive_entries
total_replicas-positive_entries [] m = refl
total_replicas-positive_entries (x ∷ xs) m = ground (arith, total_replicas-positive_entries xs m)

pub replicas_in-absent :
    (name : String) (names : List String) (m : Map ℤ)
    → contains name names ≡ false
    → replicas_in name (positive_entries names m) ≡ 0
unfolding positive_entries contains
replicas_in-absent name [] m h = refl
replicas_in-absent name (x ∷ xs) m h = ground (arith, replicas_in-absent name xs m)

pub replicas_in-positive_entries :
    (name : String) (names : List String) (m : Map ℤ)
    → IsDistinct names
    → contains name names ≡ true
    → replicas_in name (positive_entries names m) ≡ amount name m
unfolding positive_entries contains
replicas_in-positive_entries name [] m d h = cc
replicas_in-positive_entries name (x ∷ xs) m d h =
    ground (
      arith,
      eq_iff x name,
      replicas_in-absent name xs m,
      replicas_in-positive_entries name xs m d.1,
    )

-- A placement with natural numbers, each cluster named once.
pub record IsPlacement (ts : List ClusterTopology) : Type 0 where
  pub natural : All (λ t. neg_part t.replicas ≡ 0) ts
  pub distinct : IsDistinct (names_of ts)

pub placement_total_lem :
    (ts : List ClusterTopology) (n : ℕ)
    → All (λ t. neg_part t.replicas ≡ 0) ts
    → n + total_replicas ts < 2147483648
    → placement_total ts (pos n) ≡ pos (n + total_replicas ts)
unfolding placement_total
placement_total_lem [] n h b = ground arith
placement_total_lem (t ∷ ts) n h b = ground (
  arith,
  natural_eq t.replicas,
  add32-pos n (pos_part t.replicas),
  placement_total_lem ts (n + pos_part t.replicas) h.1,
)

pub placement_map-IsNatural :
    (ts : List ClusterTopology) (m : Map ℤ)
    → All (λ t. neg_part t.replicas ≡ 0) ts
    → IsNatural m
    → IsNatural (placement_map ts m)
unfolding placement_map
placement_map-IsNatural [] m h n = n
placement_map-IsNatural (t ∷ ts) m h n =
    placement_map-IsNatural ts (insert t.name t.replicas m) h.1
      (λ name. ground (arith, h.0, n name, lookup_or-insert (pos 0) t.name name t.replicas m))

unplaced_after :
    (k : String) (z : ℤ) (m : Map ℤ) (ts : List ClusterTopology)
    → contains k (names_of ts) ≡ false
    → All (λ t. amount t.name m ≡ 0) ts
    → All (λ t. amount t.name (insert k z m) ≡ 0) ts
unfolding contains
unplaced_after k z m [] h a = tt
unplaced_after k z m (t ∷ ts) h a = (
  ground (arith, a.0, eq_iff k t.name, eq_iff t.name k, lookup_or-insert (pos 0) k t.name z m),
  unplaced_after k z m ts (ground arith) a.1,
)

-- The sum over the map is the total of the list, as no name stands twice.
pub sum_over-placement_map :
    (names : List String) (ts : List ClusterTopology) (m : Map ℤ)
    → IsDistinct names
    → All (λ t. contains t.name names ≡ true) ts
    → All (λ t. neg_part t.replicas ≡ 0) ts
    → IsDistinct (names_of ts)
    → All (λ t. amount t.name m ≡ 0) ts
    → sum_over names (placement_map ts m) ≡ sum_over names m + total_replicas ts
unfolding placement_map
sum_over-placement_map names [] m d c h u z = omega arith
sum_over-placement_map names (t ∷ ts) m d c h u z = ground (
  arith,
  natural_eq t.replicas h.0,
  z.0,
  c.0,
  sum_over-insert t.name (pos_part t.replicas) m names d,
  sum_over-placement_map names ts (insert t.name t.replicas m) d c.1 h.1 u.1
      (unplaced_after t.name t.replicas m ts u.0 z.1),
)
