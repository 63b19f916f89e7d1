-- ===== src/ConcurrentMap/Sharding/Hashing.antt =====
-- What defaultHasher writes for a number.
use gocc.Prelude.{ℕ, ◌+◌, ◌*◌, ◌^◌, ◌<◌, ◌≡◌, ◌≢◌, ◌∙◌, sym, ap, List, [], ◌∷◌, arith}
use gocc.ConcurrentMap.Sharding.{int, hash_input}

-- A word from its bytes, lowest first.
abbrev word : List ℕ → ℕ
word [] = 0
word (b ∷ bs) = b + 256 * word bs

int_word : (k : ℕ) → k < 2 ^ 64 → word (hash_input (int k)) ≡ k
unfolding hash_input
int_word k h = omega arith

-- For two different int keys, defaultHasher writes different bytes into the hash.
pub int_keys_apart :
    (j k : ℕ) → j < 2 ^ 64 → k < 2 ^ 64 → j ≢ k → hash_input (int j) ≢ hash_input (int k)
int_keys_apart j k a b ne e = ne (sym (int_word j a) ∙ ap word e ∙ int_word k b)
