-- ===== src/ConcurrentMap/Ttl/Agrees.antt =====
-- A TTLMap answers as one map of entries does.
use gocc.Prelude.{
  ℕ, ◌≡◌, refl, not, Option, some, List, [], ◌∷◌, ◌>>=◌, Option-cases, Bool-cases, inl, inr,
}
use gocc.Prelude.Int.{ℤ, add_to}
use gocc.Prelude.Dict.{lookup, insert, delete}
use gocc.ConcurrentMap.Sharding.{put_shard}
use gocc.ConcurrentMap.Sharding.Sweep.{keep_all-Stands}
use gocc.ConcurrentMap.Sharding.Stands.{
  Stands, insert-Stands, delete-Stands, shard-there, total-Stands, new_sharding-Stands,
}
use gocc.ConcurrentMap.Ttl.{
  TtlEntry, TtlMap, TtlCall, TtlAnswer, getting, setting, setting_no_expire, deleting, touching,
  getting_or_setting, measuring, measuring_active, cleaning, is_expired, is_active, entry_for,
  max_duration, new_ttl_map, len, active_len, cleanup, delete_key, set, set_no_expire, get_at, get,
  touch_at, touch, get_or_set_at, get_or_set, exec, run,
}
use gocc.ConcurrentMap.Ttl.Flat.{Flat, flat_get, flat_touch, flat_get_or_set, flat_exec, flat_run}

module _ {K V : Type 0} (dec : Discrete K) where
  abbrev Agrees : Option (TtlMap K V × TtlAnswer V) → Flat K V × TtlAnswer V → Type 0
  Agrees r t = (m : TtlMap K V) × (r ≡ some (m, t.1)) × Stands dec m t.0

  module _ (now : ℕ) (m : TtlMap K V) (d : Flat K V) (r : Stands dec m d) where
    set-Agrees :
        (k : K) (v : V) (ttl : ℤ)
        → (m' : TtlMap K V) × (set dec now m k v ttl ≡ some m')
          × Stands dec m' (insert dec k (entry_for now v ttl) d)
    unfolding set
    set-Agrees k v ttl =
        let (s, e) = shard-there dec m d k r in
        (
          put_shard m k (insert dec k (entry_for now v ttl) s),
          rw e refl,
          insert-Stands dec m d s k r e (entry_for now v ttl),
        )

    get-Agrees :
        (k : K) → Agrees (exec dec now m (getting k)) (flat_get dec now d k (lookup dec k d))
    unfolding exec get get_at delete_key flat_get
    get-Agrees k =
        let (s, e) = shard-there dec m d k r in
        elim (Option-cases (lookup dec k d)) [
          | inl q ↦ rw (q, flat_get) (m, rw (e, r.at k s e, q) refl, r)
          | inr (n, q) ↦ elim (Bool-cases (is_expired now n)) [
            | inl old ↦
                rw (q, flat_get, old)
                  (
                    put_shard m k (delete dec k s),
                    rw (e, r.at k s e, q, get_at, old, e) refl,
                    delete-Stands dec m d s k r e,
                  )
            | inr new ↦ rw (q, flat_get, new) (m, rw (e, r.at k s e, q, get_at, new) refl, r)
          ]
        ]

    touch-Agrees :
        (k : K) (ttl : ℤ)
        → Agrees (exec dec now m (touching k ttl)) (flat_touch dec now d k ttl (lookup dec k d))
    unfolding exec touch touch_at flat_touch
    touch-Agrees k ttl =
        let (s, e) = shard-there dec m d k r in
        elim (Option-cases (lookup dec k d)) [
          | inl q ↦ rw (q, flat_touch) (m, rw (e, r.at k s e, q) refl, r)
          | inr (n, q) ↦ elim (Bool-cases (is_expired now n)) [
            | inl old ↦ rw (q, flat_touch, old) (m, rw (e, r.at k s e, q, touch_at, old) refl, r)
            | inr new ↦
                let n' : TtlEntry V = record n { expires_at = add_to now ttl } in
                rw (q, flat_touch, new)
                  (
                    put_shard m k (insert dec k n' s),
                    rw (e, r.at k s e, q, touch_at, new) refl,
                    insert-Stands dec m d s k r e n',
                  )
          ]
        ]

    get_or_set-Agrees :
        (k : K) (v : V) (ttl : ℤ)
        → Agrees
            (exec dec now m (getting_or_setting k v ttl))
            (flat_get_or_set dec now d k v ttl (lookup dec k d))
    unfolding exec get_or_set get_or_set_at flat_get_or_set
    get_or_set-Agrees k v ttl =
        let (s, e) = shard-there dec m d k r in
        let write = insert-Stands dec m d s k r e (entry_for now v ttl) in
        elim (Option-cases (lookup dec k d)) [
          | inl q ↦
              rw (q, flat_get_or_set)
                (
                  put_shard m k (insert dec k (entry_for now v ttl) s),
                  rw (e, r.at k s e, q) refl,
                  write,
                )
          | inr (n, q) ↦ elim (Bool-cases (is_expired now n)) [
            | inl old ↦
                rw (q, flat_get_or_set, old)
                  (
                    put_shard m k (insert dec k (entry_for now v ttl) s),
                    rw (e, r.at k s e, q, get_or_set_at, old) refl,
                    write,
                  )
            | inr new ↦
                rw (q, flat_get_or_set, new) (m, rw (e, r.at k s e, q, get_or_set_at, new) refl, r)
          ]
        ]

    pub exec-Agrees : (o : TtlCall K V) → Agrees (exec dec now m o) (flat_exec dec now d o)
    unfolding exec set_no_expire delete_key len active_len cleanup flat_exec
    exec-Agrees (getting k) = get-Agrees k
    exec-Agrees (setting k v ttl) = let (m', e, r') = set-Agrees k v ttl in (m', rw e refl, r')
    exec-Agrees (setting_no_expire k v) =
        let (m', e, r') = set-Agrees k v max_duration in (m', rw e refl, r')
    exec-Agrees (deleting k) =
        let (s, e) = shard-there dec m d k r in
        (put_shard m k (delete dec k s), rw e refl, delete-Stands dec m d s k r e)
    exec-Agrees (touching k ttl) = touch-Agrees k ttl
    exec-Agrees (getting_or_setting k v ttl) = get_or_set-Agrees k v ttl
    exec-Agrees measuring = (m, rw (total-Stands dec m d r) refl, r)
    exec-Agrees measuring_active = (m, rw (r.counts (λ k e. is_active now e)) refl, r)
    exec-Agrees cleaning =
        (cleanup now m, refl, keep_all-Stands (λ e. not (is_expired now e)) dec m d r)

  pub run-Agrees :
      (os : List (ℕ × TtlCall K V)) (m : TtlMap K V) (d : Flat K V)
      → Stands dec m d
      → (m' : TtlMap K V) × (run dec m os ≡ some (m', (flat_run dec d os).1))
        × Stands dec m' (flat_run dec d os).0
  unfolding run flat_run
  run-Agrees [] m d r = (m, refl, r)
  run-Agrees ((now, o) ∷ os) m d r =
      let (m₁, e₁, r₁) = exec-Agrees now m d r o in
      let (m₂, e₂, r₂) = run-Agrees os m₁ _ r₁ in (m₂, rw (e₁, e₂) refl, r₂)

  unfoldable pub answers : ℤ → (K → ℕ) → List (ℕ × TtlCall K V) → Option (List (TtlAnswer V))
  unfolding run
  answers shard_count hasher os = do r ← run dec (new_ttl_map shard_count hasher) os; some (r.1)

  -- Any calls and cleanups on a fresh TTLMap, at any instants, with any shard count and any hash
  -- function, find the shard of every key and answer as on one map of entries.
  pub ttl-as_flat :
      (shard_count : ℤ) (hasher : K → ℕ) (os : List (ℕ × TtlCall K V))
      → answers shard_count hasher os ≡ some (flat_run dec [] os).1
  unfolding answers new_ttl_map
  ttl-as_flat shard_count hasher os =
      let (m, e, r) =
        run-Agrees os (new_ttl_map shard_count hasher) []
          (new_sharding-Stands dec shard_count hasher) in
      rw e refl
