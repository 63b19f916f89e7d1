-- ===== src/ConcurrentMap/Sharded.antt =====
-- ShardedMap of cmap/sharded_map.go: its methods, each under the lock of one shard, but for Len and
-- ShardStats: they take the locks of all shards one after the other, and are one step here.
pub mod Agrees
use gocc.Prelude.{ℕ, Bool, true, false, Option, none, some, length, List, [], ◌∷◌, ◌>>=◌, map}
use gocc.Prelude.Int.{ℤ, pos}
use gocc.Prelude.Dict.{Dict, lookup, insert, delete}
use gocc.ConcurrentMap.Sharding.{Sharding, new_sharding, get_shard, put_shard, total}
use gocc.ConcurrentMap.RwMutex.{
  Call, Answer, getting, setting, deleting, getting_or_setting, measuring, got, got_or_set, size,
  done,
}

abbrev pub ShardedMap : Type 0 → Type 0 → Type 0
ShardedMap K V = Sharding K V

abbrev pub default_shard_count : ℤ
default_shard_count = pos 32

module _ {K V : Type 0} where
  unfoldable pub new_sharded_map_with_count : ℤ → (K → ℕ) → ShardedMap K V
  unfolding new_sharding
  new_sharded_map_with_count count hasher = new_sharding count hasher

  unfoldable pub new_sharded_map : (K → ℕ) → ShardedMap K V
  unfolding new_sharded_map_with_count
  new_sharded_map hasher = new_sharded_map_with_count default_shard_count hasher

  unfoldable pub len : ShardedMap K V → ℕ
  unfolding total
  len m = total m.shards

  unfoldable pub shard_stats : ShardedMap K V → List ℕ
  shard_stats m = map length m.shards

  unfoldable pub set_with_hasher : ShardedMap K V → (K → ℕ) → ShardedMap K V
  set_with_hasher m hasher = record m { hasher = hasher }

module _ {K V : Type 0} (dec : Discrete K) where
  unfoldable pub get : ShardedMap K V → K → Option (Option V)
  unfolding get_shard
  get m key = do s ← get_shard m key; some (lookup dec key s)

  unfoldable pub set : ShardedMap K V → K → V → Option (ShardedMap K V)
  unfolding get_shard put_shard
  set m key value = do s ← get_shard m key; some (put_shard m key (insert dec key value s))

  unfoldable pub delete_key : ShardedMap K V → K → Option (ShardedMap K V)
  unfolding get_shard put_shard
  delete_key m key = do s ← get_shard m key; some (put_shard m key (delete dec key s))

  -- GetOrSet, once it has looked the key up in its shard.
  unfoldable pub get_or_set_at :
      ShardedMap K V → K → V → Dict K V → Option V → ShardedMap K V × V × Bool
  unfolding put_shard
  get_or_set_at m key value s (some v) = (m, v, true)
  get_or_set_at m key value s none = (put_shard m key (insert dec key value s), value, false)

  unfoldable pub get_or_set : ShardedMap K V → K → V → Option (ShardedMap K V × V × Bool)
  unfolding get_shard get_or_set_at
  get_or_set m key value = do
    s ← get_shard m key
    some (get_or_set_at m key value s (lookup dec key s))

  unfoldable pub exec : ShardedMap K V → Call K V → Option (ShardedMap K V × Answer V)
  unfolding get set delete_key get_or_set len
  exec m (getting k) = do v ← get m k; some (m, got v)
  exec m (setting k v) = do m ← set m k v; some (m, done)
  exec m (deleting k) = do m ← delete_key m k; some (m, done)
  exec m (getting_or_setting k v) = do r ← get_or_set m k v; some (r.0, got_or_set r.1 r.2)
  exec m measuring = some (m, size (len m))

  unfoldable pub run : ShardedMap K V → List (Call K V) → Option (List (Answer V))
  unfolding exec
  run m [] = some []
  run m (o ∷ os) = do r ← exec m o; rest ← run r.0 os; some (r.1 ∷ rest)
