-- ===== src/Cache/Lru/Recency.antt =====
-- What "least recently used" promises: how long an entry stays in an LRUCache.
use gocc.Prelude.{
  ◌>>=◌, ℕ, suc, ◌+◌, ◌≤◌, ◌<◌, ◌≡◌, ◌≢◌, ◌∙◌, refl, List, [], ◌∷◌, ◌++◌, Option, some, length,
  arith, true, false, All, ite, if◌then◌else◌, leb, if_cases, Option-cases, inl, inr,
}
use gocc.Prelude.Int.{ℤ, is_pos, pos_part}
use gocc.Cache.Lru.{has_expired, expiration_of, new_lru, get}
use gocc.Cache.Lru.Spec.{
  Entry, LruSpec, drop_last, find, without, make_room, spec_get, spec_set, spec_delete, spec_new,
}
use gocc.Cache.Lru.Refines.{new_lru-Refines}
use gocc.Cache.Lru.Refines.Reads.{get-Implements}
use gocc.Cache.Lru.Runs.{
  Call, getting, setting, deleting, clearing, run, spec_exec, spec_run, run-Implements,
  spec_run-capacity, spec_exec-capacity,
}

module _ {K V : Type 0} (dec : Discrete K) where
  -- A call about another key than `k`; Clear is about every key.
  abbrev pub Elsewhere : K → Call K V → Type 0
  Elsewhere k (getting now j) = j ≢ k
  Elsewhere k (setting now j v ttl) = j ≢ k
  Elsewhere k (deleting j) = j ≢ k
  Elsewhere k clearing = true ≡ false

  -- How many entries were used after the one of `k`.
  unfoldable rank : K → List (Entry K V) → ℕ
  rank k [] = 0
  rank k (e ∷ es) = ite (dec e.key k) 0 (suc (rank k es))

  find-key : (k : K) (es : List (Entry K V)) (e : Entry K V) → find dec k es ≡ some e → e.key ≡ k
  unfolding find
  find-key k [] e h = ground arith
  find-key k (e' ∷ es) e h = ground (arith, h, find-key k es e)

  find-without :
      (j k : K) (es : List (Entry K V)) → j ≢ k → find dec k (without dec j es) ≡ find dec k es
  unfolding find without
  find-without j k [] ne = refl
  find-without j k (e ∷ es) ne = ground (arith, ne, find-without j k es ne)

  rank-without : (j k : K) (es : List (Entry K V)) → j ≢ k → rank k (without dec j es) ≤ rank k es
  unfolding rank without
  rank-without j k [] ne = omega arith
  rank-without j k (e ∷ es) ne = ground (arith, ne, rank-without j k es ne)

  find-drop_last :
      (k : K) (es : List (Entry K V))
      → rank k es + 1 < length es
      → find dec k (drop_last es) ≡ find dec k es
  unfolding find rank drop_last
  find-drop_last k [] h = ground arith
  find-drop_last k (e ∷ []) h = ground arith
  find-drop_last k (e ∷ e' ∷ es) h = ground (arith, find-drop_last k (e' ∷ es))

  rank-drop_last :
      (k : K) (es : List (Entry K V))
      → rank k es + 1 < length es
      → rank k (drop_last es) ≤ rank k es
  unfolding rank drop_last
  rank-drop_last k [] h = ground arith
  rank-drop_last k (e ∷ []) h = ground arith
  rank-drop_last k (e ∷ e' ∷ es) h = ground (arith, rank-drop_last k (e' ∷ es))

  -- The entry `e` of `k` is there, with at most `n` that were used after it.
  record Held (k : K) (e : Entry K V) (n : ℕ) (es : List (Entry K V)) : Type 0 where
    at : find dec k es ≡ some e
    near : rank k es ≤ n

  Held-without :
      (j k : K) (e : Entry K V) (n : ℕ) (es : List (Entry K V))
      → j ≢ k
      → Held k e n es
      → Held k e n (without dec j es)
  Held-without j k e n es ne h = record {
    at = find-without j k es ne ∙ h.at;
    near = omega (arith, rank-without j k es ne, h.near);
  }

  Held-cons :
      (k : K) (e e' : Entry K V) (n : ℕ) (es : List (Entry K V))
      → e'.key ≢ k
      → Held k e n es
      → Held k e (suc n) (e' ∷ es)
  unfolding find rank
  Held-cons k e e' n es ne h = record {
    at = ground (arith, ne, h.at);
    near = ground (arith, ne, h.near);
  }

  Held-suc :
      (k : K) (e : Entry K V) (n : ℕ) (es : List (Entry K V)) → Held k e n es → Held k e (suc n) es
  Held-suc k e n es h = record { at = h.at; near = omega (arith, h.near) }

  Held-make_room :
      (s : LruSpec K V) (k : K) (e : Entry K V) (n : ℕ)
      → suc n < s.capacity
      → Held k e n s.entries
      → Held k e n (make_room s).entries
  Held-make_room s k e n room h =
      if_cases (λ (t : LruSpec K V). Held k e n t.entries) (leb s.capacity (length s.entries)) _ _
        (λ full. record {
          at = find-drop_last k s.entries (ground (arith, h.near, full)) ∙ h.at;
          near = omega (arith, rank-drop_last k s.entries (ground (arith, h.near, full)), h.near);
        })
        (λ _. h)

  spec_exec-Held :
      (s : LruSpec K V) (k : K) (e : Entry K V) (n : ℕ) (o : Call K V)
      → Elsewhere k o
      → suc n < s.capacity
      → Held k e n s.entries
      → Held k e (suc n) (spec_exec dec s o).0.entries
  unfolding spec_exec spec_get spec_set spec_delete
  spec_exec-Held s k e n (getting now j) ne room h = elim (Option-cases (find dec j s.entries)) [
    | inl q ↦ rw (q, spec_get) (Held-suc k e n s.entries h)
    | inr (e', q) ↦
        rw (q, spec_get)
          (if_cases (λ (r : LruSpec K V × Option V). Held k e (suc n) r.0.entries)
            (has_expired e'.expiration now) _ _
            (λ _. Held-suc k e n _ (Held-without j k e n s.entries ne h))
            (λ _. Held-cons k e e' n _ (subst-ne e' q) (Held-without j k e n s.entries ne h)))
  ]
    where
      subst-ne : (e' : Entry K V) → find dec j s.entries ≡ some e' → e'.key ≢ k
      subst-ne e' q = ground (arith, find-key j s.entries e' q, ne)
  spec_exec-Held s k e n (setting now j v ttl) ne room h =
      elim (Option-cases (find dec j s.entries)) [
        | inl q ↦ rw (q, spec_set) (Held-cons k e _ n _ ne (Held-make_room s k e n room h))
        | inr (e', q) ↦
            rw (q, spec_set) (Held-cons k e _ n _ ne (Held-without j k e n s.entries ne h))
      ]
  spec_exec-Held s k e n (deleting j) ne room h = elim (Option-cases (find dec j s.entries)) [
    | inl q ↦ rw (q, spec_delete) (Held-suc k e n s.entries h)
    | inr (e', q) ↦ rw (q, spec_delete) (Held-suc k e n _ (Held-without j k e n s.entries ne h))
  ]
  spec_exec-Held s k e n clearing ne room h = ground arith

  spec_run-Held :
      (os : List (Call K V)) (s : LruSpec K V) (k : K) (e : Entry K V) (n : ℕ)
      → All (Elsewhere k) os
      → length os + n < s.capacity
      → Held k e n s.entries
      → Held k e (length os + n) (spec_run dec s os).0.entries
  unfolding spec_run
  spec_run-Held [] s k e n ne room h = record { at = h.at; near = omega (arith, h.near) }
  spec_run-Held (o ∷ os) s k e n ne room h =
      let h' =
        spec_run-Held os (spec_exec dec s o).0 k e (suc n) ne.1
          (omega (arith, room, spec_exec-capacity dec s o))
          (spec_exec-Held s k e n o ne.0 (omega (arith, room)) h) in
      record { at = h'.at; near = omega (arith, h'.near) }

  spec_set-Held :
      (s : LruSpec K V) (k : K) (v : V) (t : ℕ)
      → Held k (record { key = k; value = v; expiration = t }) 0 (spec_set dec s k v t).entries
  unfolding spec_set find rank
  spec_set-Held s k v t = elim (Option-cases (find dec k s.entries)) [
    | inl q ↦ rw (q, spec_set) (record { at = ground arith; near = ground arith })
    | inr (e', q) ↦ rw (q, spec_set) (record { at = ground arith; near = ground arith })
  ]

  spec_run-append :
      (os os' : List (Call K V)) (s : LruSpec K V)
      → (spec_run dec s (os ++ os')).0 ≡ (spec_run dec (spec_run dec s os).0 os').0
  unfolding spec_run
  spec_run-append [] os' s = refl
  spec_run-append (o ∷ os) os' s = spec_run-append os os' (spec_exec dec s o).0

  -- What Get answers after a history.
  unfoldable pub get_after : ℤ → List (Call K V) → ℕ → K → Option (Option V)
  get_after capacity os now k = do
    r ← run dec (new_lru capacity) os
    r ← get dec r.0 now k
    some (r.1)

  get_after-Held :
      (capacity : ℤ) (os : List (Call K V)) (now n : ℕ) (k : K) (e : Entry K V)
      → Held k e n (spec_run dec (spec_new capacity) os).0.entries
      → has_expired e.expiration now ≡ false
      → get_after capacity os now k ≡ some (some e.value)
  unfolding get_after spec_get
  get_after-Held capacity os now n k e h fresh =
      let (c, done, r) = run-Implements dec os _ _ (new_lru-Refines dec capacity) in
      let (c', done', r') = get-Implements dec c _ r k now in
      rw (done, done') (ground (arith, h.at, fresh))

  -- On a fresh LRUCache, make any calls, set `k` to `v`, and then make fewer calls than the
  -- capacity, none of them about `k` and none a Clear: Get of `k` at an instant when the value has
  -- not expired returns it. A capacity that is not positive counts as 100.
  pub recent-survives :
      (capacity : ℤ) (before after : List (Call K V)) (now later : ℕ) (k : K) (v : V) (ttl : ℤ)
      → All (Elsewhere k) after
      → length after < (if is_pos capacity then pos_part capacity else 100)
      → has_expired (expiration_of now ttl) later ≡ false
      → get_after capacity (before ++ setting now k v ttl ∷ after) later k ≡ some (some v)
  unfolding spec_run spec_exec spec_new
  recent-survives capacity before after now later k v ttl ne room fresh =
      let s = (spec_run dec (spec_new capacity) before).0 in
      let t = spec_set dec s k v (expiration_of now ttl) in
      let h =
        spec_run-Held after t k _ 0 ne
          (omega (
            arith,
            room,
            spec_run-capacity dec before (spec_new {K = K} {V = V} capacity),
            spec_exec-capacity dec s (setting now k v ttl),
          ))
          (spec_set-Held s k v (expiration_of now ttl)) in
      get_after-Held capacity _ later (length after + 0) k
        (record { key = k; value = v; expiration = expiration_of now ttl })
        (rw (spec_run-append before (setting now k v ttl ∷ after) (spec_new capacity)) h) fresh
