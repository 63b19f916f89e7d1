-- ===== src/Cache/Basic.antt =====
-- cache/cache.go: Cache. The map `data` is `table`. An instant is a number of nanoseconds after the
-- zero time, which means "no expiration", and the clock's reading `now` is an argument. `first` is
-- the key that a range over the map meets first, which Go leaves open. Get is one step, though the
-- code takes the lock again for each change.
pub mod Bound
use gocc.Prelude.{
  ℕ, zero, suc, ◌+◌, Bool, true, false, ◌&&◌, not, List, [], ◌∷◌, Option, none, some, ltb, ◌==◌,
  if◌then◌else◌, length,
}
use gocc.Prelude.Int.{ℤ, pos, is_pos, pos_part}
use gocc.Prelude.Dict.{Dict, lookup, insert, delete}

pub record CacheEntry (V : Type 0) : Type 0 where
  pub value : V
  pub expiration : ℕ
  pub created_at : ℕ
  pub accessed_at : ℕ
  pub access_count : ℕ

pub record Cache (K V : Type 0) : Type 0 where
  pub table : Dict K (CacheEntry V)
  pub max_size : ℤ
  pub hits : ℕ
  pub misses : ℕ

abbrev pub is_expired : {V : Type 0} → ℕ → CacheEntry V → Bool
is_expired now e = if e.expiration == 0 then false else ltb e.expiration now

-- `c.maxSize > 0 && len(c.data) > c.maxSize`
abbrev pub is_over : ℤ → ℕ → Bool
is_over max_size n = is_pos max_size && ltb (pos_part max_size) n

pub data CacheCall (K V : Type 0) : Type 0 where
  getting : K → CacheCall K V
  setting : K → V → ℤ → CacheCall K V
  deleting : K → CacheCall K V
  clearing : CacheCall K V

module _ {K V : Type 0} where
  unfoldable pub new_cache : ℤ → Cache K V
  new_cache max_size = record { table = []; max_size = max_size; hits = 0; misses = 0 }

  unfoldable pub clear : Cache K V → Cache K V
  clear c = record c { table = [] }

  unfoldable pub len : Cache K V → ℕ
  len c = length c.table

module _ {K V : Type 0} (dec : Discrete K) where
  -- Get, once it has looked the key up.
  unfoldable pub get_at : ℕ → Cache K V → K → Option (CacheEntry V) → Cache K V × Option V
  get_at now c key none = (record c { misses = c.misses + 1 }, none)
  get_at now c key (some e) =
      if is_expired now e
      then (record c { table = delete dec key c.table; misses = c.misses + 1 }, none)
      else (
        record c {
          table =
              insert dec key (record e { accessed_at = now; access_count = e.access_count + 1 })
                c.table;
          hits = c.hits + 1;
        },
        some e.value,
      )

  unfoldable pub get : ℕ → Cache K V → K → Cache K V × Option V
  unfolding get_at
  get now c key = get_at now c key (lookup dec key c.table)

  unfoldable pub delete_key : Cache K V → K → Cache K V × Bool
  delete_key c key = elim (lookup dec key c.table) [
    | none ↦ (c, false)
    | some _ ↦ (record c { table = delete dec key c.table }, true)
  ]

  -- `Has`
  unfoldable pub has_key : ℕ → Cache K V → K → Bool
  has_key now c key = elim (lookup dec key c.table) [
    | none ↦ false
    | some e ↦ not (is_expired now e)
  ]

  module _ (first : Dict K (CacheEntry V) → Option K) where
    unfoldable pub evict_one : Dict K (CacheEntry V) → Dict K (CacheEntry V)
    evict_one d = elim (first d) [ none ↦ d | some k ↦ delete dec k d ]

    unfoldable pub set_with_ttl : ℕ → Cache K V → K → V → ℤ → Cache K V
    unfolding evict_one
    set_with_ttl now c key value ttl =
        let e : CacheEntry V = record {
          value = value;
          expiration = if is_pos ttl then now + pos_part ttl else 0;
          created_at = now;
          accessed_at = now;
          access_count = 0;
        } in
        let d = insert dec key e c.table in
        record c { table = if is_over c.max_size (length d) then evict_one d else d }

    unfoldable pub set : ℕ → Cache K V → K → V → Cache K V
    unfolding set_with_ttl
    set now c key value = set_with_ttl now c key value (pos 0)

    unfoldable pub exec : Cache K V → ℕ × CacheCall K V → Cache K V
    unfolding get set_with_ttl delete_key clear
    exec c (now, getting k) = (get now c k).0
    exec c (now, setting k v ttl) = set_with_ttl now c k v ttl
    exec c (now, deleting k) = (delete_key c k).0
    exec c (now, clearing) = clear c

    unfoldable pub run : Cache K V → List (ℕ × CacheCall K V) → Cache K V
    unfolding exec
    run c [] = c
    run c (o ∷ os) = run (exec c o) os
