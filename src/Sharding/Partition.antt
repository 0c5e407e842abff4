-- ===== src/Sharding/Partition.antt =====
-- The keys of the shards of sharding/sharding.go.
use native.Mathlib.Nat.{mod-lt}
use kumquat.Base.{ℕ, zero, suc, ◌%◌, ◌<◌, String, ◌≡◌, refl, ℤ, pos, ltb, if◌then◌else◌, arith}
use kumquat.Sharding.{new_shard_manager, is_responsible_for}

-- How many of the shards 0, …, k - 1 of `total` are responsible for the key.
abbrev pub responsible_below : (String → ℕ) → ℤ → String → ℕ → ℕ
responsible_below hash total key zero = 0
responsible_below hash total key (suc k) =
    let rest = responsible_below hash total key k in
    if is_responsible_for hash (new_shard_manager (pos k) total) key then suc rest else rest

below_lem :
    (hash : String → ℕ) (key : String) (n k : ℕ)
    → 1 < n
    → responsible_below hash (pos n) key k ≡ (if ltb (hash key % n) k then 1 else 0)
unfolding is_responsible_for new_shard_manager
below_lem hash key n zero h = ground arith
below_lem hash key n (suc k) h = ground (arith, below_lem hash key n k h)

-- Of the shards 0, …, n - 1 of n, where n is positive, exactly one is responsible for each key.
pub one_responsible :
    (hash : String → ℕ) (key : String) (n : ℕ) (some_shard : 0 < n)
    → responsible_below hash (pos n) key n ≡ 1
unfolding is_responsible_for new_shard_manager
one_responsible hash key zero some_shard = elim some_shard [ ]
one_responsible hash key (suc zero) some_shard = refl
one_responsible hash key (suc (suc n)) some_shard = ground (
  arith,
  below_lem hash key (suc (suc n)) (suc (suc n)) (omega arith),
  mod-lt (hash key) {m = suc (suc n)} (omega arith),
)
