-- ===== src/ConcurrentMap/Ttl/Expiry.antt =====
-- How long TTLMap keeps a value.
use gocc.Prelude.{
  ℕ, ◌≤◌, ◌<◌, ◌≡◌, ◌≢◌, ◌∙◌, ◌⊎◌, inl, inr, refl, ap, true, false, not, Option, none, some, List,
  [], ◌∷◌, ◌++◌, ◌>>=◌, if◌then◌else◌, ltb, arith, All, Bool-cases,
}
use gocc.Prelude.Int.{ℤ, add_to}
use gocc.Prelude.Dict.{lookup, delete, lookup-insert_ne, lookup-delete_ne, lookup-insert_self}
use gocc.ConcurrentMap.Sharding.{put_shard}
use gocc.ConcurrentMap.Sharding.Sweep.{kept, lookup-keep}
use gocc.ConcurrentMap.Sharding.Stands.{Stands, new_sharding-Stands, shard-there}
use gocc.ConcurrentMap.Ttl.{
  TtlEntry, TtlMap, TtlCall, getting, setting, setting_no_expire, deleting, touching,
  getting_or_setting, measuring, measuring_active, cleaning, is_expired, entry_for, new_ttl_map,
  get_at, get, delete_key, run,
}
use gocc.ConcurrentMap.Ttl.Flat.{Flat, flat_get, flat_touch, flat_get_or_set, flat_exec, flat_run}
use gocc.ConcurrentMap.Ttl.Agrees.{exec-Agrees, run-Agrees}

-- A call about another key than `k`, or about no key.
abbrev pub Elsewhere : {K V : Type 0} → K → TtlCall K V → Type 0
Elsewhere k (getting j) = j ≢ k
Elsewhere k (setting j v ttl) = j ≢ k
Elsewhere k (setting_no_expire j v) = j ≢ k
Elsewhere k (deleting j) = j ≢ k
Elsewhere k (touching j ttl) = j ≢ k
Elsewhere k (getting_or_setting j v ttl) = j ≢ k
Elsewhere k measuring = Unit {0}
Elsewhere k measuring_active = Unit {0}
Elsewhere k cleaning = Unit {0}

module _ {K V : Type 0} (dec : Discrete K) (k : K) (e : TtlEntry V) (later : ℕ) where
  -- The entry `e` is there, or a cleanup took it after it had expired.
  abbrev There : Flat K V → Type 0
  There d = (lookup dec k d ≡ some e) ⊎ ((lookup dec k d ≡ none) × (e.expires_at < later))

  There-same : (d d' : Flat K V) → lookup dec k d' ≡ lookup dec k d → There d → There d'
  There-same d d' h (inl a) = inl (h ∙ a)
  There-same d d' h (inr (a, b)) = inr (h ∙ a, b)

  module _ (now : ℕ) (d : Flat K V) (j : K) (ne : j ≢ k) where
    get_other : (o : Option (TtlEntry V)) → lookup dec k (flat_get dec now d j o).0 ≡ lookup dec k d
    unfolding flat_get
    get_other none = refl
    get_other (some n) = ground (arith, lookup-delete_ne dec j k d ne)

    touch_other :
        (ttl : ℤ) (o : Option (TtlEntry V))
        → lookup dec k (flat_touch dec now d j ttl o).0 ≡ lookup dec k d
    unfolding flat_touch
    touch_other ttl none = refl
    touch_other ttl (some n) =
        ground (arith, lookup-insert_ne dec j k (record n { expires_at = add_to now ttl }) d ne)

    get_or_set_other :
        (v : V) (ttl : ℤ) (o : Option (TtlEntry V))
        → lookup dec k (flat_get_or_set dec now d j v ttl o).0 ≡ lookup dec k d
    unfolding flat_get_or_set
    get_or_set_other v ttl none = lookup-insert_ne dec j k (entry_for now v ttl) d ne
    get_or_set_other v ttl (some n) =
        ground (arith, lookup-insert_ne dec j k (entry_for now v ttl) d ne)

  flat_exec-There :
      (now : ℕ) (m : TtlMap K V) (d : Flat K V) (o : TtlCall K V)
      → Stands dec m d
      → Elsewhere k o
      → now ≤ later
      → There d
      → There (flat_exec dec now d o).0
  unfolding flat_exec flat_get flat_touch flat_get_or_set
  flat_exec-There now m d (getting j) r ne le t =
      There-same d _ (get_other now d j ne (lookup dec j d)) t
  flat_exec-There now m d (setting j v ttl) r ne le t =
      There-same d _ (lookup-insert_ne dec j k _ d ne) t
  flat_exec-There now m d (setting_no_expire j v) r ne le t =
      There-same d _ (lookup-insert_ne dec j k _ d ne) t
  flat_exec-There now m d (deleting j) r ne le t = There-same d _ (lookup-delete_ne dec j k d ne) t
  flat_exec-There now m d (touching j ttl) r ne le t =
      There-same d _ (touch_other now d j ne ttl (lookup dec j d)) t
  flat_exec-There now m d (getting_or_setting j v ttl) r ne le t =
      There-same d _ (get_or_set_other now d j ne v ttl (lookup dec j d)) t
  flat_exec-There now m d measuring r ne le t = t
  flat_exec-There now m d measuring_active r ne le t = t
  flat_exec-There now m d cleaning r ne le (inl a) =
      let swept = lookup-keep (λ e. not (is_expired now e)) dec k d r.distinct ∙ ap (kept _) a in
      elim (Bool-cases (is_expired now e)) [
        | inl old ↦ inr (swept ∙ gone old, ground (arith, old))
        | inr new ↦ inl (swept ∙ stays new)
      ]
    where
      gone : is_expired now e ≡ true → kept (λ n. not (is_expired now n)) (some e) ≡ none
      gone old = ground (arith, old)

      stays : is_expired now e ≡ false → kept (λ n. not (is_expired now n)) (some e) ≡ some e
      stays new = ground (arith, new)
  flat_exec-There now m d cleaning r ne le (inr (a, b)) =
      inr (lookup-keep _ dec k d r.distinct ∙ ap (kept _) a, b)

  run-There :
      (os : List (ℕ × TtlCall K V)) (m : TtlMap K V) (d : Flat K V)
      → Stands dec m d
      → All (λ o. (o.0 ≤ later) × Elsewhere k o.1) os
      → There d
      → There (flat_run dec d os).0
  unfolding flat_run
  run-There [] m d r h t = t
  run-There ((now, o) ∷ os) m d r h t =
      let (m', done, r') = exec-Agrees dec now m d r o in
      run-There os m' _ r' h.1 (flat_exec-There now m d o r h.0.1 h.0.0 t)

  get-There :
      (m : TtlMap K V) (d : Flat K V)
      → Stands dec m d
      → There d
      → (m' : TtlMap K V) × (get dec later m k
          ≡ some (m', if ltb e.expires_at later then none else some e.value))
  unfolding get get_at delete_key
  get-There m d r (inl a) =
      let (s, f) = shard-there dec m d k r in
      elim (Bool-cases (is_expired later e)) [
        | inl old ↦ (put_shard m k (delete dec k s), rw (f, r.at k s f, a, get_at, old, f) refl)
        | inr new ↦ (m, rw (f, r.at k s f, a, get_at, new) refl)
      ]
  get-There m d r (inr (a, b)) =
      let (s, f) = shard-there dec m d k r in
      let old : ltb e.expires_at later ≡ true = ground (arith, b) in
      (m, rw (f, r.at k s f, a, old) refl)

module _ {K V : Type 0} (dec : Discrete K) where
  flat_run-append :
      (os os' : List (ℕ × TtlCall K V)) (d : Flat K V)
      → (flat_run dec d (os ++ os')).0 ≡ (flat_run dec (flat_run dec d os).0 os').0
  unfolding flat_run
  flat_run-append [] os' d = refl
  flat_run-append ((now, o) ∷ os) os' d = flat_run-append os os' (flat_exec dec now d o).0

  -- What Get answers after a history.
  unfoldable pub get_after : ℤ → (K → ℕ) → List (ℕ × TtlCall K V) → ℕ → K → Option (Option V)
  get_after shard_count hasher os now k = do
    r ← run dec (new_ttl_map shard_count hasher) os
    r ← get dec now r.0 k
    some (r.1)

  -- On a fresh TTLMap, make any calls, set `k` to `v` with a time to live, and then make calls and
  -- cleanups that are not about `k`, none of them after the instant `later`: Get of `k` at `later`
  -- returns `v` up to the instant of expiry, and nothing after it.
  pub set-lasts :
      (shard_count : ℤ) (hasher : K → ℕ) (before after : List (ℕ × TtlCall K V)) (now later : ℕ)
      (k : K) (v : V) (ttl : ℤ)
      → All (λ o. (o.0 ≤ later) × Elsewhere k o.1) after
      → get_after shard_count hasher (before ++ (now, setting k v ttl) ∷ after) later k
        ≡ some (if ltb (add_to now ttl) later then none else some v)
  unfolding get_after new_ttl_map flat_run flat_exec
  set-lasts shard_count hasher before after now later k v ttl h =
      let m₀ = new_ttl_map shard_count hasher in
      let start = new_sharding-Stands dec shard_count hasher in
      let (m₁, e₁, r₁) = run-Agrees dec before m₀ [] start in
      let (m₂, e₂, r₂) = exec-Agrees dec now m₁ _ r₁ (setting k v ttl) in
      let e = entry_for now v ttl in
      let t =
        run-There dec k e later after m₂ _ r₂ h
          (inl (lookup-insert_self dec k e (flat_run dec [] before).0)) in
      let (m₃, e₃, r₃) = run-Agrees dec (before ++ (now, setting k v ttl) ∷ after) m₀ [] start in
      let (m₄, e₄) =
        get-There dec k e later m₃ _ r₃
          (rw (flat_run-append before ((now, setting k v ttl) ∷ after) []) t) in
      rw (e₃, e₄) refl
