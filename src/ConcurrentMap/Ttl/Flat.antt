-- ===== src/ConcurrentMap/Ttl/Flat.antt =====
-- What TTLMap promises, on one map of entries: no shards, no hash function.
use gocc.Prelude.{ℕ, true, false, not, Option, none, some, length, List, [], ◌∷◌, if◌then◌else◌}
use gocc.Prelude.Int.{ℤ, add_to}
use gocc.Prelude.Dict.{Dict, lookup, insert, delete}
use gocc.ConcurrentMap.Sharding.Counts.{count}
use gocc.ConcurrentMap.Sharding.Sweep.{keep}
use gocc.ConcurrentMap.Ttl.{
  TtlEntry, TtlCall, TtlAnswer, getting, setting, setting_no_expire, deleting, touching,
  getting_or_setting, measuring, measuring_active, cleaning, got, got_or_set, touched, size, done,
  is_expired, is_active, entry_for, max_duration,
}

abbrev pub Flat : Type 0 → Type 0 → Type 0
Flat K V = Dict K (TtlEntry V)

module _ {K V : Type 0} (dec : Discrete K) where
  unfoldable pub flat_get : ℕ → Flat K V → K → Option (TtlEntry V) → Flat K V × TtlAnswer V
  flat_get now d k none = (d, got none)
  flat_get now d k (some e) =
      if is_expired now e then (delete dec k d, got none) else (d, got (some e.value))

  unfoldable pub flat_touch : ℕ → Flat K V → K → ℤ → Option (TtlEntry V) → Flat K V × TtlAnswer V
  flat_touch now d k ttl none = (d, touched false)
  flat_touch now d k ttl (some e) =
      if is_expired now e
      then (d, touched false)
      else (insert dec k (record e { expires_at = add_to now ttl }) d, touched true)

  unfoldable pub flat_get_or_set :
      ℕ → Flat K V → K → V → ℤ → Option (TtlEntry V) → Flat K V × TtlAnswer V
  flat_get_or_set now d k v ttl none = (insert dec k (entry_for now v ttl) d, got_or_set v false)
  flat_get_or_set now d k v ttl (some e) =
      if is_expired now e
      then (insert dec k (entry_for now v ttl) d, got_or_set v false)
      else (d, got_or_set e.value true)

  unfoldable pub flat_exec : ℕ → Flat K V → TtlCall K V → Flat K V × TtlAnswer V
  flat_exec now d (getting k) = flat_get now d k (lookup dec k d)
  flat_exec now d (setting k v ttl) = (insert dec k (entry_for now v ttl) d, done)
  flat_exec now d (setting_no_expire k v) = (insert dec k (entry_for now v max_duration) d, done)
  flat_exec now d (deleting k) = (delete dec k d, done)
  flat_exec now d (touching k ttl) = flat_touch now d k ttl (lookup dec k d)
  flat_exec now d (getting_or_setting k v ttl) = flat_get_or_set now d k v ttl (lookup dec k d)
  flat_exec now d measuring = (d, size (length d))
  flat_exec now d measuring_active = (d, size (count (λ k e. is_active now e) d))
  flat_exec now d cleaning = (keep (λ e. not (is_expired now e)) d, done)

  unfoldable pub flat_run : Flat K V → List (ℕ × TtlCall K V) → Flat K V × List (TtlAnswer V)
  flat_run d [] = (d, [])
  flat_run d ((now, o) ∷ os) =
      let r = flat_exec now d o in let rest = flat_run r.0 os in (rest.0, r.1 ∷ rest.1)
