-- ===== src/ConnPool/Managed/Frame.antt =====
-- Counting connections: how often an address is parked in a list, and how many are in use.
use gocc.Prelude.{
  ℕ, zero, suc, ◌+◌, ◌≤◌, ◌<◌, ◌≡◌, refl, List, [], ◌∷◌, ◌++◌, ltb, ◌==◌, if◌then◌else◌, arith,
}
use gocc.ConnPool.Managed.{PooledConn, update}

unfoldable pub count : ℕ → List ℕ → ℕ
count a [] = 0
count a (x ∷ xs) = if a == x then suc (count a xs) else count a xs

pub count-append : (a : ℕ) (xs ys : List ℕ) → count a (xs ++ ys) ≡ count a xs + count a ys
unfolding count
count-append a [] ys = omega arith
count-append a (x ∷ xs) ys = ground (arith, count-append a xs ys)

-- 1 for a connection that is handed out, its `released` flag not set.
abbrev pub held : PooledConn → ℕ
held c = if c.released then 0 else 1

abbrev pub allocated : ℕ → ℕ → ℕ
allocated c next = if ltb c next then 1 else 0

-- How many of the connections below `n` are handed out.
unfoldable pub in_use : (ℕ → PooledConn) → ℕ → ℕ
in_use h zero = 0
in_use h (suc n) = in_use h n + held (h n)

pub in_use-update_above :
    (h : ℕ → PooledConn) (c : ℕ) (v : PooledConn) (n : ℕ)
    → n ≤ c
    → in_use (update h c v) n ≡ in_use h n
unfolding in_use
in_use-update_above h c v zero le = refl
in_use-update_above h c v (suc n) le = ground (arith, in_use-update_above h c v n (omega arith))

pub in_use-update :
    (h : ℕ → PooledConn) (c : ℕ) (v : PooledConn) (n : ℕ)
    → c < n
    → in_use (update h c v) n + held (h c) ≡ in_use h n + held v
unfolding in_use
in_use-update h c v zero le = elim le [ ]
in_use-update h c v (suc n) le = ground (arith, in_use-update h c v n, in_use-update_above h c v n)

pub in_use-alloc :
    (h : ℕ → PooledConn) (v : PooledConn) (n : ℕ)
    → in_use (update h n v) (suc n) ≡ in_use h n + held v
unfolding in_use
in_use-alloc h v n = ground (arith, in_use-update_above h n v n)
