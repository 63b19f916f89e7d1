-- ===== src/Tests/Lru.antt =====
-- A cache of two entries over numbers.
use gocc.Prelude.{ℕ, ◌≤◌, ◌≡◌, refl, List, [], ◌∷◌, none, some, length, map, arith, ℕ_discrete}
use gocc.Prelude.Int.{pos}
use gocc.Prelude.Dict.{lookup, insert, delete}
use gocc.Cache.Lru.{
  new_lru, write, set_next, set_prev, set_prev_of, add_to_front, bypass_next, bypass_prev,
  remove_node, move_to_front, evict_at, evict_lru, get_at, get, insert_new, set_at, set_with_ttl,
  keys_from, keys,
}
use gocc.Cache.Lru.Spec.{spec_new}
use gocc.Cache.Lru.Runs.{
  Call, getting, setting, deleting, got, done, exec, run, spec_run, answers, keys_after,
  answers-spec_run, keys_after-spec_run, keys_limit,
}
use gocc.Cache.Lru.Recency.{get_after, recent-survives}

-- The third Set displaces key 2, which was used before key 1.
abbrev three_sets : List (Call ℕ ℕ)
three_sets =
    setting 10 1 7 (pos 0)
    ∷ setting 11 2 8 (pos 5)
    ∷ getting 12 1
    ∷ setting 13 3 9 (pos 5)
    ∷ getting 14 2
    ∷ getting 18 3
    ∷ []

three_sets-answers :
    answers ℕ_discrete (pos 2) three_sets
    ≡ some (done ∷ done ∷ got (some 7) ∷ done ∷ got none ∷ got (some 9) ∷ [])
unfolding answers run exec new_lru write set_next set_prev set_prev_of add_to_front bypass_next
    bypass_prev remove_node move_to_front evict_at evict_lru get_at get insert_new set_at
    set_with_ttl lookup insert delete ℕ_discrete
three_sets-answers = refl

three_sets-keys : keys_after ℕ_discrete (pos 2) three_sets ≡ some (3 ∷ 1 ∷ [])
unfolding keys_after keys keys_from run exec new_lru write set_next set_prev set_prev_of
    add_to_front bypass_next bypass_prev remove_node move_to_front evict_at evict_lru get_at get
    insert_new set_at set_with_ttl lookup insert delete ℕ_discrete
three_sets-keys = refl

answers-spec_run_example :
    answers ℕ_discrete (pos 2) three_sets
    ≡ some (spec_run ℕ_discrete (spec_new (pos 2)) three_sets).1
answers-spec_run_example = answers-spec_run ℕ_discrete (pos 2) three_sets

keys_after-spec_run_example :
    keys_after ℕ_discrete (pos 2) three_sets
    ≡ some (map (λ e. e.key) (spec_run ℕ_discrete (spec_new (pos 2)) three_sets).0.entries)
keys_after-spec_run_example = keys_after-spec_run ℕ_discrete (pos 2) three_sets

keys_limit_example :
    (ks : List ℕ) × (keys_after ℕ_discrete (pos 2) three_sets ≡ some ks) × (length ks ≤ 2)
keys_limit_example = keys_limit ℕ_discrete (pos 2) three_sets

recent-survives_example :
    get_after {V = ℕ} ℕ_discrete
      (pos 2)
      (deleting 4 ∷ setting 10 1 7 (pos 9) ∷ setting 11 2 8 (pos 0) ∷ [])
      19
      1
    ≡ some (some 7)
recent-survives_example =
    recent-survives ℕ_discrete (pos 2) (deleting 4 ∷ []) (setting 11 2 8 (pos 0) ∷ []) 10 19 1 7
      (pos 9) (omega arith, tt) (omega arith) refl
