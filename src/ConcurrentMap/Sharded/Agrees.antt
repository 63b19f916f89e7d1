-- ===== src/ConcurrentMap/Sharded/Agrees.antt =====
-- A ShardedMap answers as a RWMutexMap does.
use gocc.Prelude.{
  ℕ, ◌%◌, ◌^◌, ◌≤◌, ◌≡◌, ◌∙◌, inl, inr, refl, Option, some, length, List, [], ◌∷◌, Option-cases,
  replicate, length-replicate,
}
use gocc.Prelude.Int.{ℤ, pos_part}
use gocc.Prelude.Bits.{bit_and-mask}
use gocc.Prelude.Dict.{Dict, lookup, insert, delete}
use gocc.ConcurrentMap.Sharding.{next_power_of_2, new_sharding, shard_index, put_shard}
use gocc.ConcurrentMap.Sharding.PowerOf2.{next_power_of_2-least}
use gocc.ConcurrentMap.Sharding.Stands.{
  Stands, insert-Stands, delete-Stands, shard-there, total-Stands, new_sharding-Stands,
}
use gocc.ConcurrentMap.RwMutex
use gocc.ConcurrentMap.RwMutex.{
  RwMutexMap, Call, Answer, getting, setting, deleting, getting_or_setting, measuring, got,
  got_or_set, size, done, new_rw_mutex_map,
}
use gocc.ConcurrentMap.Sharded.{
  ShardedMap, new_sharded_map_with_count, len, get, set, delete_key, get_or_set_at, get_or_set,
  exec, run,
}

module _ {K V : Type 0} (dec : Discrete K) where
  abbrev Agrees : Option (ShardedMap K V × Answer V) → RwMutexMap K V × Answer V → Type 0
  Agrees r t = (m : ShardedMap K V) × (r ≡ some (m, t.1)) × Stands dec m t.0.table

  module _ (m : ShardedMap K V) (d : RwMutexMap K V) (r : Stands dec m d.table) where
    exec-Agrees : (o : Call K V) → Agrees (exec dec m o) (RwMutex.exec dec d o)
    unfolding exec RwMutex.exec get set delete_key get_or_set get_or_set_at len RwMutex.get
        RwMutex.set RwMutex.delete_key RwMutex.get_or_set RwMutex.len
    exec-Agrees (getting k) =
        let (s, e) = shard-there dec m d.table k r in (m, rw (e, r.at k s e) refl, r)
    exec-Agrees (setting k v) =
        let (s, e) = shard-there dec m d.table k r in
        (put_shard m k (insert dec k v s), rw e refl, insert-Stands dec m d.table s k r e v)
    exec-Agrees (deleting k) =
        let (s, e) = shard-there dec m d.table k r in
        (put_shard m k (delete dec k s), rw e refl, delete-Stands dec m d.table s k r e)
    exec-Agrees (getting_or_setting k v) =
        let (s, e) = shard-there dec m d.table k r in
        elim (Option-cases (lookup dec k d.table)) [
          | inl absent ↦
              rw (absent, RwMutex.get_or_set)
                (
                  put_shard m k (insert dec k v s),
                  rw (e, r.at k s e, absent) refl,
                  insert-Stands dec m d.table s k r e v,
                )
          | inr (w, held) ↦ rw (held, RwMutex.get_or_set) (m, rw (e, r.at k s e, held) refl, r)
        ]
    exec-Agrees measuring = (m, rw (total-Stands dec m d.table r) refl, r)

  run-Agrees :
      (os : List (Call K V)) (m : ShardedMap K V) (d : RwMutexMap K V)
      → Stands dec m d.table
      → run dec m os ≡ some (RwMutex.run dec d os)
  unfolding run RwMutex.run
  run-Agrees [] m d r = refl
  run-Agrees (o ∷ os) m d r =
      let (m', e, r') = exec-Agrees m d r o in rw (e, run-Agrees os m' _ r') refl

  -- Any sequence of Get, Set, Delete, GetOrSet and Len on a fresh ShardedMap, with any shard count
  -- and any hash function, finds the shard of every key and answers as it does on a RWMutexMap.
  pub sharded-as_plain :
      (count : ℤ) (hasher : K → ℕ) (os : List (Call K V))
      → run dec (new_sharded_map_with_count count hasher) os
        ≡ some (RwMutex.run dec new_rw_mutex_map os)
  unfolding new_sharded_map_with_count new_rw_mutex_map
  sharded-as_plain count hasher os =
      run-Agrees os (new_sharded_map_with_count count hasher) new_rw_mutex_map
        (new_sharding-Stands dec count hasher)

module _ {K : Type 0} where
  -- With at most 2 ^ 32 shards asked for, the shard of a key is its hash modulo the number of
  -- shards, which is a power of two.
  pub shard_index-modulo :
      (V : Type 0) (count : ℤ) (hasher : K → ℕ) (k : K)
      → pos_part count ≤ 2 ^ 32
      → let m : ShardedMap K V = new_sharded_map_with_count count hasher in
        (shard_index m k ≡ hasher k % length m.shards) × ((w : ℕ) × (length m.shards ≡ 2 ^ w))
  unfolding new_sharded_map_with_count new_sharding shard_index
  shard_index-modulo V count hasher k h =
      let (w, e, above, least) = next_power_of_2-least count h in
      let size : length {A = Dict K V} (replicate (next_power_of_2 count) []) ≡ 2 ^ w =
        length-replicate {A = Dict K V} (next_power_of_2 count) [] ∙ e in
      (rw (size, e) (bit_and-mask w (hasher k)), (w, size))
