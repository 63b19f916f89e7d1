-- ===== src/ConnPool/Managed/Faults.antt =====
-- Where ManagedPool does not keep its word: a stale handle.
use gocc.Prelude.{ℕ, ◌<◌, ◌≡◌, true, false, [], arith}
use gocc.ConnPool.{Env, ok}
use gocc.ConnPool.Managed.{ManagedPool, should_destroy, exceeds, acquire, return_conn, release}

-- The connection is released by its holder, acquired by a second client, and released once more by
-- the first, whose handle is the same *PooledConn.
abbrev pub after_stale_release : Env → ManagedPool → ℕ → ManagedPool
after_stale_release env p c =
    let reacquired = (acquire env (release env p c).0).0 in (release env reacquired c).0

-- In an open pool with no idle connection, let a client hold a connection that is valid and not too
-- old. If the client releases it and another client acquires it, a second Release by the first
-- client is not ignored: a third client is then handed the same connection while the second still
-- holds it.
pub stale_release-shares :
    (env : Env) (p : ManagedPool) (c : ℕ)
    → p.closed ≡ false
    → p.conns ≡ []
    → 0 < p.max_size
    → (p.heap c).released ≡ false
    → env.is_valid c ≡ true
    → exceeds p.max_lifetime (p.heap c).created_at env.now ≡ false
    → ((acquire env (release env p c).0).1 ≡ ok c)
      × ((acquire env (after_stale_release env p c)).1 ≡ ok c)
unfolding release return_conn acquire should_destroy
stale_release-shares env p c open_pool empty room held valid young = ground arith
