-- ===== src/ConcurrentMap/Ttl.antt =====
-- TTLMap of cmap/ttl_map.go: a sharded map whose entries expire. The clock's reading `now` is an
-- argument of each method that reads it. Len, ActiveLen and cleanup take the locks of the shards one
-- after the other, and are one step here.
pub mod Flat
pub mod Agrees
pub mod Expiry
use gocc.Prelude.{
  ℕ, ◌-◌, Bool, true, false, not, Option, none, some, length, List, [], ◌∷◌, ◌>>=◌, ltb, ◌^◌,
  if◌then◌else◌,
}
use gocc.Prelude.Int.{ℤ, pos, add_to}
use gocc.Prelude.Dict.{Dict, lookup, insert, delete}
use gocc.ConcurrentMap.Sharding.{Sharding, new_sharding, get_shard, put_shard, total}
use gocc.ConcurrentMap.Sharding.Counts.{count_all}
use gocc.ConcurrentMap.Sharding.Sweep.{keep_all}

pub record TtlEntry (V : Type 0) : Type 0 where
  pub value : V
  pub expires_at : ℕ

abbrev pub TtlMap : Type 0 → Type 0 → Type 0
TtlMap K V = Sharding K (TtlEntry V)

pub data TtlCall (K V : Type 0) : Type 0 where
  getting : K → TtlCall K V
  setting : K → V → ℤ → TtlCall K V
  setting_no_expire : K → V → TtlCall K V
  deleting : K → TtlCall K V
  touching : K → ℤ → TtlCall K V
  getting_or_setting : K → V → ℤ → TtlCall K V
  measuring : TtlCall K V
  measuring_active : TtlCall K V
  cleaning : TtlCall K V

pub data TtlAnswer (V : Type 0) : Type 0 where
  got : Option V → TtlAnswer V
  got_or_set : V → Bool → TtlAnswer V
  touched : Bool → TtlAnswer V
  size : ℕ → TtlAnswer V
  done : TtlAnswer V

module _ {V : Type 0} where
  -- `time.Now().After(e.ExpiresAt)`
  abbrev pub is_expired : ℕ → TtlEntry V → Bool
  is_expired now e = ltb e.expires_at now

  -- `now.Before(entry.ExpiresAt)`
  abbrev pub is_active : ℕ → TtlEntry V → Bool
  is_active now e = ltb now e.expires_at

  abbrev pub entry_for : ℕ → V → ℤ → TtlEntry V
  entry_for now value ttl = record { value = value; expires_at = add_to now ttl }

-- `time.Duration(1<<63 - 1)`
abbrev pub max_duration : ℤ
max_duration = pos (2 ^ 63 - 1)

module _ {K V : Type 0} where
  unfoldable pub new_ttl_map : ℤ → (K → ℕ) → TtlMap K V
  unfolding new_sharding
  new_ttl_map shard_count hasher = new_sharding shard_count hasher

  unfoldable pub len : TtlMap K V → ℕ
  unfolding total
  len m = total m.shards

  unfoldable pub active_len : ℕ → TtlMap K V → ℕ
  unfolding count_all
  active_len now m = count_all (λ k e. is_active now e) m.shards

  unfoldable pub cleanup : ℕ → TtlMap K V → TtlMap K V
  unfolding keep_all
  cleanup now m = record m { shards = keep_all (λ e. not (is_expired now e)) m.shards }

module _ {K V : Type 0} (dec : Discrete K) where
  unfoldable pub delete_key : TtlMap K V → K → Option (TtlMap K V)
  unfolding get_shard put_shard
  delete_key m key = do s ← get_shard m key; some (put_shard m key (delete dec key s))

  unfoldable pub set : ℕ → TtlMap K V → K → V → ℤ → Option (TtlMap K V)
  unfolding get_shard put_shard
  set now m key value ttl = do
    s ← get_shard m key
    some (put_shard m key (insert dec key (entry_for now value ttl) s))

  unfoldable pub set_no_expire : ℕ → TtlMap K V → K → V → Option (TtlMap K V)
  unfolding set
  set_no_expire now m key value = set now m key value max_duration

  -- Get, once it has looked the key up.
  unfoldable pub get_at : ℕ → TtlMap K V → K → Option (TtlEntry V) → Option (TtlMap K V × Option V)
  unfolding delete_key
  get_at now m key none = some (m, none)
  get_at now m key (some e) =
      if is_expired now e then (do m ← delete_key m key; some (m, none)) else some (m, some e.value)

  unfoldable pub get : ℕ → TtlMap K V → K → Option (TtlMap K V × Option V)
  unfolding get_shard get_at
  get now m key = do s ← get_shard m key; get_at now m key (lookup dec key s)

  -- Touch, once it has looked the key up in its shard.
  unfoldable pub touch_at :
      ℕ → TtlMap K V → K → ℤ → Dict K (TtlEntry V) → Option (TtlEntry V) → TtlMap K V × Bool
  unfolding put_shard
  touch_at now m key ttl s none = (m, false)
  touch_at now m key ttl s (some e) =
      if is_expired now e
      then (m, false)
      else (put_shard m key (insert dec key (record e { expires_at = add_to now ttl }) s), true)

  unfoldable pub touch : ℕ → TtlMap K V → K → ℤ → Option (TtlMap K V × Bool)
  unfolding get_shard touch_at
  touch now m key ttl = do s ← get_shard m key; some (touch_at now m key ttl s (lookup dec key s))

  -- GetOrSet, once it has looked the key up in its shard.
  unfoldable pub get_or_set_at :
      ℕ → TtlMap K V → K → V → ℤ → Dict K (TtlEntry V) → Option (TtlEntry V) → TtlMap K V × V × Bool
  unfolding put_shard
  get_or_set_at now m key value ttl s none =
      (put_shard m key (insert dec key (entry_for now value ttl) s), value, false)
  get_or_set_at now m key value ttl s (some e) =
      if is_expired now e
      then (put_shard m key (insert dec key (entry_for now value ttl) s), value, false)
      else (m, e.value, true)

  unfoldable pub get_or_set : ℕ → TtlMap K V → K → V → ℤ → Option (TtlMap K V × V × Bool)
  unfolding get_shard get_or_set_at
  get_or_set now m key value ttl = do
    s ← get_shard m key
    some (get_or_set_at now m key value ttl s (lookup dec key s))

  unfoldable pub exec : ℕ → TtlMap K V → TtlCall K V → Option (TtlMap K V × TtlAnswer V)
  unfolding get set set_no_expire delete_key touch get_or_set len active_len cleanup
  exec now m (getting k) = do r ← get now m k; some (r.0, got r.1)
  exec now m (setting k v ttl) = do m ← set now m k v ttl; some (m, done)
  exec now m (setting_no_expire k v) = do m ← set_no_expire now m k v; some (m, done)
  exec now m (deleting k) = do m ← delete_key m k; some (m, done)
  exec now m (touching k ttl) = do r ← touch now m k ttl; some (r.0, touched r.1)
  exec now m (getting_or_setting k v ttl) = do
    r ← get_or_set now m k v ttl
    some (r.0, got_or_set r.1 r.2)
  exec now m measuring = some (m, size (len m))
  exec now m measuring_active = some (m, size (active_len now m))
  exec now m cleaning = some (cleanup now m, done)

  unfoldable pub run :
      TtlMap K V → List (ℕ × TtlCall K V) → Option (TtlMap K V × List (TtlAnswer V))
  unfolding exec
  run m [] = some (m, [])
  run m ((now, o) ∷ os) = do r ← exec now m o; rest ← run r.0 os; some (rest.0, r.1 ∷ rest.1)
