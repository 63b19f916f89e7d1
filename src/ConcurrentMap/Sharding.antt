-- ===== src/ConcurrentMap/Sharding.antt =====
-- What ShardedMap of cmap/sharded_map.go and TTLMap of cmap/ttl_map.go share: the number of shards
-- and the shard of a key. A shard is the Go map that its lock guards. The hash function is an
-- argument, since FNV-1a is another package's. `none` is an index out of range.
pub mod PowerOf2
pub mod Hashing
pub mod Counts
pub mod Stands
pub mod Sweep
use Prim.Native.Nat.{bit_and, bit_or}
use gocc.Prelude.{
  ℕ, suc, ◌+◌, ◌-◌, ◌*◌, ◌/◌, ◌%◌, ◌^◌, Option, List, [], ◌∷◌, leb, if◌then◌else◌, length,
  get_elem?, set, replicate,
}
use gocc.Prelude.Int.{ℤ, pos, negsuc}
use gocc.Prelude.Dict.{Dict}

-- `n |= n >> k`
abbrev pub or_shift : ℕ → ℕ → ℕ
or_shift k n = bit_or n (n / 2 ^ k)

-- A result of 2 ^ 63, for some counts just below it, is a negative number in the code; there is no
-- memory for so many shards.
unfoldable pub next_power_of_2 : ℤ → ℕ
next_power_of_2 (negsuc n) = 1
next_power_of_2 (pos n) =
    if leb n 1
    then 1
    else or_shift 16 (or_shift 8 (or_shift 4 (or_shift 2 (or_shift 1 (n - 1))))) + 1

-- The types of key that defaultHasher tells apart; a number is its two's complement word.
pub data AnyKey : Type 0 where
  string : List ℕ → AnyKey
  int : ℕ → AnyKey
  int64 : ℕ → AnyKey
  int32 : ℕ → AnyKey
  other : AnyKey

-- `byte(k >> (8 * i))`
abbrev pub byte_at : ℕ → ℕ → ℕ
byte_at i k = k / 2 ^ (8 * i) % 2 ^ 8

abbrev bytes8 : ℕ → List ℕ
bytes8 k =
    byte_at 0 k
    ∷ byte_at 1 k
    ∷ byte_at 2 k
    ∷ byte_at 3 k
    ∷ byte_at 4 k
    ∷ byte_at 5 k
    ∷ byte_at 6 k
    ∷ byte_at 7 k
    ∷ []

-- What defaultHasher writes into the hash.
unfoldable pub hash_input : AnyKey → List ℕ
hash_input (string bytes) = bytes
hash_input (int k) = bytes8 k
hash_input (int64 k) = bytes8 k
hash_input (int32 k) = byte_at 0 k ∷ byte_at 1 k ∷ byte_at 2 k ∷ byte_at 3 k ∷ []
hash_input other = 0 ∷ []

-- `sum64` is FNV-1a, of another package.
unfoldable pub default_hasher : (List ℕ → ℕ) → AnyKey → ℕ
unfolding hash_input
default_hasher sum64 key = sum64 (hash_input key)

pub record Sharding (K A : Type 0) : Type 0 where
  pub shards : List (Dict K A)
  pub shard_mask : ℕ
  pub hasher : K → ℕ

module _ {K A : Type 0} where
  unfoldable pub new_sharding : ℤ → (K → ℕ) → Sharding K A
  unfolding next_power_of_2
  new_sharding count hasher =
      let n = next_power_of_2 count in
      record { shards = replicate n []; shard_mask = n - 1; hasher = hasher }

  unfoldable pub shard_index : Sharding K A → K → ℕ
  shard_index m key = bit_and (m.hasher key) m.shard_mask

  unfoldable pub get_shard : Sharding K A → K → Option (Dict K A)
  unfolding shard_index
  get_shard m key = get_elem? m.shards (shard_index m key)

  -- A write to the map of the key's shard.
  unfoldable pub put_shard : Sharding K A → K → Dict K A → Sharding K A
  unfolding shard_index
  put_shard m key d = record m { shards = set m.shards (shard_index m key) d }

  -- The loop of Len
  unfoldable pub total : List (Dict K A) → ℕ
  total [] = 0
  total (d ∷ ds) = length d + total ds
