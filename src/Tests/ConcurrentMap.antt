-- ===== src/Tests/ConcurrentMap.antt =====
-- Maps of three shards asked for, which gives four, over number keys that are their own hash.
use gocc.Prelude.{
  ℕ, ◌+◌, ◌-◌, ◌≤◌, ◌≡◌, ◌≢◌, ◌%◌, ◌^◌, refl, true, List, [], ◌∷◌, none, some, length, arith,
  ℕ_discrete,
}
use gocc.Prelude.Int.{pos}
use gocc.Prelude.Dict.{lookup, insert, delete}
use gocc.ConcurrentMap.Sharding.{
  next_power_of_2, new_sharding, shard_index, get_shard, put_shard, total, int, hash_input,
}
use gocc.ConcurrentMap.Sharding.PowerOf2.{next_power_of_2-least}
use gocc.ConcurrentMap.Sharding.Counts.{count, count_all}
use gocc.ConcurrentMap.Sharding.Sweep.{keep, keep_all}
use gocc.ConcurrentMap.Sharding.Hashing.{int_keys_apart}
use gocc.ConcurrentMap.RwMutex
use gocc.ConcurrentMap.RwMutex.{
  Call, getting, setting, deleting, getting_or_setting, measuring, got, got_or_set, size, done,
  new_rw_mutex_map,
}
use gocc.ConcurrentMap.Sharded
use gocc.ConcurrentMap.Sharded.{new_sharded_map_with_count}
use gocc.ConcurrentMap.Sharded.Agrees.{sharded-as_plain, shard_index-modulo}
use gocc.ConcurrentMap.Ttl
use gocc.ConcurrentMap.Ttl.{TtlCall}
use gocc.ConcurrentMap.Ttl.Flat.{flat_run}
use gocc.ConcurrentMap.Ttl.Agrees.{answers, ttl-as_flat}
use gocc.ConcurrentMap.Ttl.Expiry.{get_after, set-lasts}

abbrev calls : List (Call ℕ ℕ)
calls =
    setting 1 10 ∷ setting 5 50 ∷ getting_or_setting 1 11 ∷ deleting 5 ∷ getting 5 ∷ measuring ∷ []

calls-answers :
    Sharded.run ℕ_discrete (new_sharded_map_with_count (pos 3) (λ k. k)) calls
    ≡ some (done ∷ done ∷ got_or_set 10 true ∷ done ∷ got none ∷ size 1 ∷ [])
unfolding Sharded.run Sharded.exec new_sharded_map_with_count new_sharding next_power_of_2
    Sharded.get Sharded.set Sharded.delete_key Sharded.get_or_set Sharded.get_or_set_at Sharded.len
    get_shard put_shard shard_index total lookup insert delete ℕ_discrete
calls-answers = refl

-- Above 2 ^ 32 the digits below the thirty-second are left out.
large_count : next_power_of_2 (pos (2 ^ 40 + 1)) ≡ 2 ^ 41 - 2 ^ 9 + 1
unfolding next_power_of_2
large_count = refl

int_keys_apart_example : hash_input (int 7) ≢ hash_input (int 263)
int_keys_apart_example = int_keys_apart 7 263 (omega arith) (omega arith) (omega arith)

next_power_of_2-least_example :
    (k : ℕ) × (next_power_of_2 (pos 33) ≡ 2 ^ k) × (33 ≤ 2 ^ k) × ((j : ℕ) → 33 ≤ 2 ^ j → k ≤ j)
next_power_of_2-least_example = next_power_of_2-least (pos 33) (omega arith)

sharded-as_plain_example :
    Sharded.run ℕ_discrete (new_sharded_map_with_count (pos 3) (λ k. k)) calls
    ≡ some (RwMutex.run ℕ_discrete new_rw_mutex_map calls)
sharded-as_plain_example = sharded-as_plain ℕ_discrete (pos 3) (λ k. k) calls

shard_index-modulo_example :
    (shard_index (new_sharded_map_with_count {V = ℕ} (pos 3) (λ k. k)) 7
      ≡ 7 % length (new_sharded_map_with_count {V = ℕ} (pos 3) (λ (k : ℕ). k)).shards)
    × ((w : ℕ) × (length (new_sharded_map_with_count {V = ℕ} (pos 3) (λ (k : ℕ). k)).shards
          ≡ 2 ^ w))
shard_index-modulo_example = shard_index-modulo ℕ (pos 3) (λ k. k) 7 (omega arith)

abbrev timed : List (ℕ × TtlCall ℕ ℕ)
timed =
    (10, Ttl.setting 1 7 (pos 5))
    ∷ (11, Ttl.touching 1 (pos 2))
    ∷ (13, Ttl.getting 1)
    ∷ (14, Ttl.measuring)
    ∷ (14, Ttl.measuring_active)
    ∷ (14, Ttl.cleaning)
    ∷ (14, Ttl.measuring)
    ∷ []

timed-answers :
    answers ℕ_discrete (pos 3) (λ k. k) timed
    ≡ some (
        Ttl.done
        ∷ Ttl.touched true
        ∷ Ttl.got (some 7)
        ∷ Ttl.size 1
        ∷ Ttl.size 0
        ∷ Ttl.done
        ∷ Ttl.size 0
        ∷ [])
unfolding answers Ttl.run Ttl.exec Ttl.new_ttl_map new_sharding next_power_of_2 Ttl.get Ttl.get_at
    Ttl.set Ttl.set_no_expire Ttl.delete_key Ttl.touch Ttl.touch_at Ttl.get_or_set Ttl.get_or_set_at
    Ttl.len Ttl.active_len Ttl.cleanup count count_all keep keep_all get_shard put_shard shard_index
    total lookup insert delete ℕ_discrete
timed-answers = refl

ttl-as_flat_example :
    answers ℕ_discrete (pos 3) (λ k. k) timed ≡ some (flat_run ℕ_discrete [] timed).1
ttl-as_flat_example = ttl-as_flat ℕ_discrete (pos 3) (λ k. k) timed

set-lasts_example :
    get_after {V = ℕ} ℕ_discrete
      (pos 3)
      (λ k. k)
      ((9, Ttl.deleting 1) ∷ (10, Ttl.setting 1 7 (pos 5)) ∷ (12, Ttl.cleaning) ∷ [])
      15
      1
    ≡ some (some 7)
set-lasts_example =
    set-lasts ℕ_discrete (pos 3) (λ k. k) ((9, Ttl.deleting 1) ∷ []) ((12, Ttl.cleaning) ∷ []) 10 15
      1 7 (pos 5) ((omega arith, tt), tt)
