-- ===== src/Tests/Cache.antt =====
-- A cache of two entries over numbers, whose range starts at the key written last.
use gocc.Prelude.{
  ℕ, ◌+◌, ◌<◌, ◌≤◌, ◌≡◌, refl, List, [], ◌∷◌, Option, none, some, length, arith, ℕ_discrete,
}
use gocc.Prelude.Int.{pos}
use gocc.Prelude.Dict.{Dict, lookup, insert, delete}
use gocc.Cache.Basic.{
  CacheEntry, CacheCall, getting, setting, new_cache, get_at, get, evict_one, set_with_ttl, exec,
  run,
}
use gocc.Cache.Basic.Bound.{gets, size_bounded, gets_counted}

abbrev first_key : Dict ℕ (CacheEntry ℕ) → Option ℕ
first_key [] = none
first_key ((k, e) ∷ d) = some k

first_key_meets :
    (d : Dict ℕ (CacheEntry ℕ))
    → 0 < length d
    → (k : ℕ) × (e : CacheEntry ℕ) × (first_key d ≡ some k) × (lookup ℕ_discrete k d ≡ some e)
unfolding lookup
first_key_meets [] h = elim h [ ]
first_key_meets ((k, e) ∷ d) h = (k, e, refl, ground arith)

abbrev calls : List (ℕ × CacheCall ℕ ℕ)
calls =
    (1, setting 1 10 (pos 0))
    ∷ (2, setting 2 20 (pos 3))
    ∷ (3, getting 1)
    ∷ (9, getting 2)
    ∷ (9, getting 3)
    ∷ []

-- A Set of a third key can displace the entry that it has just stored.
set_lost :
    (get ℕ_discrete 3
      (set_with_ttl ℕ_discrete first_key 3
        (run ℕ_discrete first_key
          (new_cache (pos 2))
          ((1, setting 1 10 (pos 0)) ∷ (2, setting 2 20 (pos 0)) ∷ []))
        3
        30
        (pos 0))
      3).1
    ≡ none
unfolding get get_at set_with_ttl evict_one run exec new_cache lookup insert delete ℕ_discrete
set_lost = refl

size_bounded_example : length (run ℕ_discrete first_key (new_cache (pos 2)) calls).table ≤ 2
size_bounded_example = size_bounded ℕ_discrete first_key first_key_meets (pos 2) calls refl

gets_counted_example :
    let c = run ℕ_discrete first_key (new_cache (pos 2)) calls in c.hits + c.misses ≡ gets calls
gets_counted_example = gets_counted ℕ_discrete first_key (pos 2) calls
