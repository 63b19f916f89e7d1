-- ===== src/Cache/Basic/Bound.antt =====
-- How many entries a Cache holds, and what its counters count.
use gocc.Prelude.{
  ℕ, suc, ◌+◌, ◌≤◌, ◌<◌, ◌≡◌, ◌∙◌, refl, sym, ap, true, false, List, [], ◌∷◌, Option, some,
  if◌then◌else◌, length, arith, if_cases, Option-cases, inl, inr,
}
use gocc.Prelude.Int.{ℤ, is_pos, pos_part}
use gocc.Prelude.Dict.{
  Dict, lookup, insert, delete, Distinct, insert-Distinct, delete-Distinct, length-delete,
  length-delete-le, length-insert_held,
}
use gocc.Cache.Basic.{
  CacheEntry, Cache, is_expired, is_over, CacheCall, getting, setting, deleting, clearing,
  new_cache, clear, get_at, get, delete_key, evict_one, set_with_ttl, exec, run,
}

-- The number of Gets among some calls.
unfoldable pub gets : {K V : Type 0} → List (ℕ × CacheCall K V) → ℕ
gets [] = 0
gets ((now, getting k) ∷ os) = suc (gets os)
gets ((now, setting k v ttl) ∷ os) = gets os
gets ((now, deleting k) ∷ os) = gets os
gets ((now, clearing) ∷ os) = gets os

module _ {K V : Type 0} (dec : Discrete K) (first : Dict K (CacheEntry V) → Option K) where
  -- A range over a map that is not empty meets one of its keys.
  abbrev pub MeetsKey : Type 0
  MeetsKey =
      (d : Dict K (CacheEntry V))
      → 0 < length d
      → (k : K) × (e : CacheEntry V) × (first d ≡ some k) × (lookup dec k d ≡ some e)

  record Within (n : ℤ) (c : Cache K V) : Type 0 where
    distinct : Distinct dec c.table
    size : c.max_size ≡ n
    small : is_over n (length c.table) ≡ false

  deleted-Within :
      (c : Cache K V) (n : ℤ) (k : K) (hits misses : ℕ)
      → Within n c
      → Within n (record c { table = delete dec k c.table; hits = hits; misses = misses })
  deleted-Within c n k hits misses w = record {
    distinct = delete-Distinct dec k c.table w.distinct;
    size = w.size;
    small = ground (arith, w.small, length-delete-le dec k c.table);
  }

  get-Within : (now : ℕ) (c : Cache K V) (n : ℤ) (k : K) → Within n c → Within n (get dec now c k).0
  unfolding get get_at
  get-Within now c n k w = elim (Option-cases (lookup dec k c.table)) [
    | inl q ↦ rw (q, get_at) (record { distinct = w.distinct; size = w.size; small = w.small })
    | inr (e, q) ↦
        rw (q, get_at)
          (if_cases (λ (r : Cache K V × Option V). Within n r.0) (is_expired now e) _ _
            (λ _. deleted-Within c n k c.hits (c.misses + 1) w)
            (λ _. record {
              distinct = insert-Distinct dec k _ c.table w.distinct;
              size = w.size;
              small =
                  ap (is_over n) (
                    length-insert_held dec k
                      (record e { accessed_at = now; access_count = e.access_count + 1 }) e c.table
                      w.distinct q)
                  ∙ w.small;
            }))
  ]

  -- Dropping an entry of a map that is one too large makes it small enough.
  evicted-small :
      MeetsKey
      → (n : ℤ) (d : Dict K (CacheEntry V)) (size : ℕ) → Distinct dec d
      → is_over n size ≡ false
      → length d ≤ suc size
      → is_over n (length d) ≡ true
      → is_over n (length (evict_one dec first d)) ≡ false
  unfolding evict_one
  evicted-small meets n d size h small le over =
      let (k, e, q, there) = meets d (ground (arith, over)) in
      rw (q, evict_one) (ground (arith, small, le, over, length-delete dec k d e h there))

  evicted-Distinct :
      (d : Dict K (CacheEntry V)) → Distinct dec d → Distinct dec (evict_one dec first d)
  unfolding evict_one
  evicted-Distinct d h = elim (Option-cases (first d)) [
    | inl q ↦ rw (q, evict_one) h
    | inr (k, q) ↦ rw (q, evict_one) (delete-Distinct dec k d h)
  ]

  set-Within :
      MeetsKey
      → (now : ℕ) (c : Cache K V) (n : ℤ) (k : K) (v : V) (ttl : ℤ) → Within n c
      → Within n (set_with_ttl dec first now c k v ttl)
  unfolding set_with_ttl insert
  set-Within meets now c n k v ttl w =
      let e : CacheEntry V = record {
        value = v;
        expiration = if is_pos ttl then now + pos_part ttl else 0;
        created_at = now;
        accessed_at = now;
        access_count = 0;
      } in
      let d = insert dec k e c.table in
      let h = insert-Distinct dec k e c.table w.distinct in
      let le : length d ≤ suc (length c.table) = omega (arith, length-delete-le dec k c.table) in
      if_cases (λ t. Within n (record c { table = t })) (is_over c.max_size (length d)) _ _
        (λ over. record {
          distinct = evicted-Distinct d h;
          size = w.size;
          small =
              evicted-small meets n d (length c.table) h w.small le
                (ap (λ m. is_over m (length d)) (sym w.size) ∙ over);
        })
        (λ fits. record {
          distinct = h;
          size = w.size;
          small = ap (λ m. is_over m (length d)) (sym w.size) ∙ fits;
        })

  delete_key-Within : (c : Cache K V) (n : ℤ) (k : K) → Within n c → Within n (delete_key dec c k).0
  unfolding delete_key
  delete_key-Within c n k w = elim (Option-cases (lookup dec k c.table)) [
    | inl q ↦ rw (q, delete_key) w
    | inr (e, q) ↦ rw (q, delete_key) (deleted-Within c n k c.hits c.misses w)
  ]

  exec-Within :
      MeetsKey
      → (c : Cache K V) (n : ℤ) (o : ℕ × CacheCall K V) → Within n c
      → Within n (exec dec first c o)
  unfolding exec delete_key clear
  exec-Within meets c n (now, getting k) w = get-Within now c n k w
  exec-Within meets c n (now, setting k v ttl) w = set-Within meets now c n k v ttl w
  exec-Within meets c n (now, deleting k) w = delete_key-Within c n k w
  exec-Within meets c n (now, clearing) w = record {
    distinct = tt;
    size = w.size;
    small = ground (arith);
  }

  run-Within :
      MeetsKey
      → (n : ℤ) (os : List (ℕ × CacheCall K V)) (c : Cache K V) → Within n c
      → Within n (run dec first c os)
  unfolding run
  run-Within meets n [] c w = w
  run-Within meets n (o ∷ os) c w = run-Within meets n os _ (exec-Within meets c n o w)

  -- If a range over a map that is not empty meets one of its keys, a fresh Cache whose size is
  -- limited holds at most that many entries after any calls.
  pub size_bounded :
      ((d : Dict K (CacheEntry V))
        → 0 < length d
        → (k : K) × (e : CacheEntry V) × (first d ≡ some k) × (lookup dec k d ≡ some e))
      → (max_size : ℤ) (os : List (ℕ × CacheCall K V)) → is_pos max_size ≡ true
      → length (run dec first (new_cache max_size) os).table ≤ pos_part max_size
  unfolding new_cache
  size_bounded meets max_size os limited =
      let w =
        run-Within meets max_size os (new_cache max_size)
          (record { distinct = tt; size = refl; small = ground arith }) in
      ground (arith, w.small, limited)

  exec-counts :
      (c : Cache K V) (o : ℕ × CacheCall K V)
      → (exec dec first c o).hits + (exec dec first c o).misses ≡ c.hits + c.misses + gets (o ∷ [])
  unfolding exec get get_at delete_key clear set_with_ttl gets
  exec-counts c (now, getting k) = ground arith
  exec-counts c (now, setting k v ttl) = omega arith
  exec-counts c (now, deleting k) = ground arith
  exec-counts c (now, clearing) = omega arith

  gets-cons :
      (o : ℕ × CacheCall K V) (os : List (ℕ × CacheCall K V))
      → gets (o ∷ os) ≡ gets (o ∷ []) + gets os
  unfolding gets
  gets-cons (now, getting k) os = omega arith
  gets-cons (now, setting k v ttl) os = omega arith
  gets-cons (now, deleting k) os = omega arith
  gets-cons (now, clearing) os = omega arith

  run-counts :
      (os : List (ℕ × CacheCall K V)) (c : Cache K V)
      → (run dec first c os).hits + (run dec first c os).misses ≡ c.hits + c.misses + gets os
  unfolding run gets
  run-counts [] c = omega arith
  run-counts (o ∷ os) c =
      omega (arith, run-counts os (exec dec first c o), exec-counts c o, gets-cons o os)

  -- After any calls on a fresh Cache, its hits and misses add up to the number of Gets.
  pub gets_counted :
      (max_size : ℤ) (os : List (ℕ × CacheCall K V))
      → let c = run dec first (new_cache max_size) os in c.hits + c.misses ≡ gets os
  unfolding new_cache
  gets_counted max_size os = omega (arith, run-counts os (new_cache max_size))
