-- ===== src/Sharding.antt =====
-- engine/internal/manager/sharding/sharding.go
pub mod Partition
use kumquat.Base.{ℕ, ◌%◌, String, Bool, true, ℤ, pos, pos_part, ltb_ℤ, eqb_ℤ, if◌then◌else◌}

pub record ShardManager : Type 0 where
  pub shard_id : ℤ
  pub total_shards : ℤ

unfoldable pub new_shard_manager : ℤ → ℤ → ShardManager
new_shard_manager shard_id total_shards = record {
  shard_id = shard_id;
  total_shards = if ltb_ℤ total_shards (pos 1) then pos 1 else total_shards;
}

-- `hash` is hash/fnv's New32a over the bytes of the key; an int has 64 bits, so that the hash is not
-- negative as an int.
unfoldable pub is_responsible_for : (String → ℕ) → ShardManager → String → Bool
is_responsible_for hash s key =
    if ltb_ℤ (pos 1) s.total_shards
    then eqb_ℤ (pos (hash key % pos_part s.total_shards)) s.shard_id
    else true
