-- ===== src/Hub/Shard.antt =====
-- `Hub.shard`: FNV-1a in 32 bits, and its remainder by the number of shards.
use chat_service.Text.{lit, Bytes}
use chat_service.Prelude.{[], arith, ◌∷◌, refl, ◌^◌, ◌<◌, ◌≡◌, ◌%◌, ◌*◌, ℕ}
use Prim.Native.Nat.{bit_xor}

abbrev pub num_shards : ℕ
num_shards = 64

-- hash ^= uint32(c); hash *= 16777619
fnv_step : ℕ → ℕ → ℕ
fnv_step hash c = (bit_xor hash c * 16777619) % 2 ^ 32

pub fnv : ℕ → Bytes → ℕ
fnv hash [] = hash
fnv hash (c ∷ s) = fnv (fnv_step hash c) s

-- The index of h.shard(roomID).
unfoldable pub shard_index : Bytes → ℕ
unfolding fnv fnv_step
shard_index room_id = fnv 2166136261 room_id % num_shards

-- FNV-1a of "a" is 0xe40c292c.
fnv_a : fnv 2166136261 (lit "a") ≡ 0xe40c292c
unfolding fnv fnv_step
fnv_a = refl

-- Every room has a shard among the 64, and the hash never leaves its 32 bits.
pub shard_index_bounds :
    (room_id : Bytes) → (shard_index room_id < num_shards) × (fnv 2166136261 room_id < 2 ^ 32)
unfolding shard_index
shard_index_bounds room_id = (omega arith, bound 2166136261 room_id (omega arith))
  where
    bound : (hash : ℕ) (s : Bytes) → hash < 2 ^ 32 → fnv hash s < 2 ^ 32
    bound hash [] h = h
    bound hash (c ∷ s) h = bound (fnv_step hash c) s (omega arith)
