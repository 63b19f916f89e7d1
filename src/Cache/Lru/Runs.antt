-- ===== src/Cache/Lru/Runs.antt =====
-- Histories of an LRUCache: any sequence of its calls, from NewLRU on.
use gocc.Prelude.{
  ◌>>=◌, ℕ, suc, ◌+◌, ◌≤◌, ◌≡◌, ◌∙◌, refl, sym, ap, List, [], ◌∷◌, Option, none, some, length,
  length-map, map, arith, Bool, if◌then◌else◌,
}
use gocc.Prelude.Int.{ℤ, is_pos, pos_part}
use gocc.Prelude.Dict.{lookup}
use gocc.Cache.Lru.{
  LruCache, Heap, expiration_of, new_lru, get, set_with_ttl, delete_key, clear, keys_from, keys,
}
use gocc.Cache.Lru.Seg.{Cell, first_or, Seg}
use gocc.Cache.Lru.Table.{entries_of, ptr_of, length-entries}
use gocc.Cache.Lru.Spec.{LruSpec, spec_get, spec_set, spec_delete, spec_clear, spec_new}
use gocc.Cache.Lru.Refines.{Refines, Implements, new_lru-Refines}
use gocc.Cache.Lru.Refines.Reads.{get-Implements, delete_key-Implements}
use gocc.Cache.Lru.Refines.Writes.{set_with_ttl-Reaches}

-- A call, with the instant at which it reads the clock.
pub data Call (K V : Type 0) : Type 0 where
  getting : ℕ → K → Call K V
  setting : ℕ → K → V → ℤ → Call K V
  deleting : K → Call K V
  clearing : Call K V

pub data Answer (V : Type 0) : Type 0 where
  got : Option V → Answer V
  found : Bool → Answer V
  done : Answer V

module _ {K V : Type 0} (dec : Discrete K) where
  unfoldable pub exec : LruCache K V → Call K V → Option (LruCache K V × Answer V)
  exec c (getting now k) = do r ← get dec c now k; some (r.0, got r.1)
  exec c (setting now k v ttl) = do c ← set_with_ttl dec c now k v ttl; some (c, done)
  exec c (deleting k) = do r ← delete_key dec c k; some (r.0, found r.1)
  exec c clearing = some (clear c, done)

  unfoldable pub run : LruCache K V → List (Call K V) → Option (LruCache K V × List (Answer V))
  run c [] = some (c, [])
  run c (o ∷ os) = do r ← exec c o; rest ← run r.0 os; some (rest.0, r.1 ∷ rest.1)

  unfoldable pub spec_exec : LruSpec K V → Call K V → LruSpec K V × Answer V
  spec_exec s (getting now k) = let r = spec_get dec s now k in (r.0, got r.1)
  spec_exec s (setting now k v ttl) = (spec_set dec s k v (expiration_of now ttl), done)
  spec_exec s (deleting k) = let r = spec_delete dec s k in (r.0, found r.1)
  spec_exec s clearing = (spec_clear s, done)

  unfoldable pub spec_run : LruSpec K V → List (Call K V) → LruSpec K V × List (Answer V)
  spec_run s [] = (s, [])
  spec_run s (o ∷ os) =
      let r = spec_exec s o in let rest = spec_run r.0 os in (rest.0, r.1 ∷ rest.1)

  clear-Refines :
      (c : LruCache K V) (s : LruSpec K V) → Refines dec c s → Refines dec (clear c) (spec_clear s)
  unfolding clear ptr_of lookup
  clear-Refines c s r = record {
    cells = [];
    rep = record {
      linked = record { begins = refl; ends = refl; seg = tt; apart = tt };
      indexed = λ k. refl;
      distinct = tt;
      sized = refl;
      keys_apart = tt;
      below = tt;
    };
    positive = r.positive;
    bounded = omega arith;
    capacity_eq = r.capacity_eq;
    entries_eq = refl;
    hits_eq = r.hits_eq;
    misses_eq = r.misses_eq;
    evicts_eq = r.evicts_eq;
  }

  exec-Implements :
      (c : LruCache K V) (s : LruSpec K V) (o : Call K V)
      → Refines dec c s
      → Implements dec (exec c o) (spec_exec s o)
  unfolding exec spec_exec
  exec-Implements c s (getting now k) r =
      let (c', e, r') = get-Implements dec c s r k now in (c', rw e refl, r')
  exec-Implements c s (setting now k v ttl) r =
      let (c', e, r') = set_with_ttl-Reaches dec c s now k v ttl r in (c', rw e refl, r')
  exec-Implements c s (deleting k) r =
      let (c', e, r') = delete_key-Implements dec c s r k in (c', rw e refl, r')
  exec-Implements c s clearing r = (clear c, refl, clear-Refines c s r)

  pub run-Implements :
      (os : List (Call K V)) (c : LruCache K V) (s : LruSpec K V)
      → Refines dec c s
      → Implements dec (run c os) (spec_run s os)
  unfolding run spec_run
  run-Implements [] c s r = (c, refl, r)
  run-Implements (o ∷ os) c s r =
      let (c₁, e₁, r₁) = exec-Implements c s o r in
      let (c₂, e₂, r₂) = run-Implements os c₁ _ r₁ in (c₂, rw (e₁, e₂) refl, r₂)

  -- What the calls answer, and the keys in the end.
  unfoldable pub answers : ℤ → List (Call K V) → Option (List (Answer V))
  unfolding run
  answers capacity os = do r ← run (new_lru capacity) os; some (r.1)

  unfoldable pub keys_after : ℤ → List (Call K V) → Option (List K)
  unfolding run
  keys_after capacity os = do r ← run (new_lru capacity) os; keys (r.0)

  keys_from-Seg :
      (h : Heap K V) (before : Option ℕ) (xs : List (Cell K V))
      → Seg h before xs none
      → keys_from (suc (length xs)) h (first_or none xs) ≡ some (map (λ e. e.key) (entries_of xs))
  unfolding keys_from
  keys_from-Seg h before [] s = refl
  keys_from-Seg h before (x ∷ xs) s = rw (s.0, keys_from-Seg h (some x.ptr) xs s.1) refl

  keys-Refines :
      (c : LruCache K V) (s : LruSpec K V)
      → Refines dec c s
      → keys c ≡ some (map (λ e. e.key) s.entries)
  unfolding keys
  keys-Refines c s r =
      let size : length c.table + 1 ≡ suc (length r.cells) = omega (arith, r.rep.sized) in
      ap (λ n. keys_from n c.heap c.head) size
      ∙ ap (keys_from (suc (length r.cells)) c.heap) r.rep.linked.begins
      ∙ keys_from-Seg c.heap none r.cells r.rep.linked.seg
      ∙ ap (λ es. some (map (λ e. e.key) es)) (sym r.entries_eq)

  -- Whatever calls are made on a fresh LRUCache, of any capacity, none dereferences a nil pointer,
  -- and they answer as they do on the list of entries.
  pub answers-spec_run :
      (capacity : ℤ) (os : List (Call K V))
      → answers capacity os ≡ some (spec_run (spec_new capacity) os).1
  unfolding answers
  answers-spec_run capacity os =
      let (c, e, r) = run-Implements os _ _ (new_lru-Refines dec capacity) in rw e refl

  -- After any calls on a fresh LRUCache, the loop of Keys ends within one step more than there are
  -- entries, and gives the keys of the list of entries, most recently used first.
  pub keys_after-spec_run :
      (capacity : ℤ) (os : List (Call K V))
      → keys_after capacity os ≡ some (map (λ e. e.key) (spec_run (spec_new capacity) os).0.entries)
  unfolding keys_after
  keys_after-spec_run capacity os =
      let (c, e, r) = run-Implements os _ _ (new_lru-Refines dec capacity) in
      rw e (keys-Refines c _ r)

  pub spec_exec-capacity :
      (s : LruSpec K V) (o : Call K V) → (spec_exec s o).0.capacity ≡ s.capacity
  unfolding spec_exec spec_get spec_set spec_delete
  spec_exec-capacity s (getting now k) = ground arith
  spec_exec-capacity s (setting now k v ttl) = ground arith
  spec_exec-capacity s (deleting k) = ground arith
  spec_exec-capacity s clearing = refl

  pub spec_run-capacity :
      (os : List (Call K V)) (s : LruSpec K V) → (spec_run s os).0.capacity ≡ s.capacity
  unfolding spec_run
  spec_run-capacity [] s = refl
  spec_run-capacity (o ∷ os) s = spec_run-capacity os (spec_exec s o).0 ∙ spec_exec-capacity s o

  -- After any calls on a fresh LRUCache, Keys returns, and it returns at most as many keys as the
  -- capacity, which is 100 if the one asked for is not positive.
  pub keys_limit :
      (capacity : ℤ) (os : List (Call K V))
      → (ks : List K) × (keys_after capacity os ≡ some ks)
        × (length ks ≤ (if is_pos capacity then pos_part capacity else 100))
  unfolding keys_after spec_new
  keys_limit capacity os =
      let (c, e, r) = run-Implements os _ _ (new_lru-Refines dec capacity) in
      let kept : c.capacity ≡ (spec_new {K = K} {V = V} capacity).capacity =
        sym (r.capacity_eq) ∙ spec_run-capacity os (spec_new capacity) in
      (
        map (λ e. e.key) (spec_run (spec_new capacity) os).0.entries,
        rw e (keys-Refines c _ r),
        omega (
          arith,
          r.bounded,
          kept,
          length-map (λ e. e.key) (spec_run (spec_new capacity) os).0.entries,
          ap length r.entries_eq,
          length-entries r.cells,
        ),
      )
