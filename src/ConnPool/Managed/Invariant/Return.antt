-- ===== src/ConnPool/Managed/Invariant/Return.antt =====
-- Release, the cleanup of idle connections and Close keep the accounts.
use gocc.Prelude.{
  ℕ, ◌+◌, ◌≡◌, refl, true, false, List, [], ◌∷◌, ltb, length, Bool-cases, if_cases, inl, inr, arith,
}
use gocc.ConnPool.{Env}
use gocc.ConnPool.Managed.{
  ManagedPool, update, should_destroy, destroy_conn, return_conn, release, recheck, recheck_all,
  recheck_idle, close,
}
use gocc.ConnPool.Managed.Frame.{count, in_use-update}
use gocc.ConnPool.Managed.Invariant.{Accounts, Kept, park-Accounts, drop-Accounts}

recheck-Accounts :
    (env : Env) (p : ManagedPool) (c : ℕ) (fl : List ℕ)
    → Accounts p (c ∷ fl)
    → p.closed ≡ false
    → Accounts (recheck env p c) fl × ((recheck env p c).closed ≡ false)
unfolding recheck
recheck-Accounts env p c fl v h = elim (Bool-cases (should_destroy env p c)) [
  | inl bad ↦ rw bad (drop-Accounts p c fl v, unfold destroy_conn in h)
  | inr fine ↦ elim (Bool-cases (ltb (length p.conns) p.max_size)) [
    | inl room ↦ rw (fine, room) (park-Accounts p c fl v h, h)
    | inr full ↦ rw (fine, full) (drop-Accounts p c fl v, unfold destroy_conn in h)
  ]
]

recheck_all-Accounts :
    (env : Env) (p : ManagedPool) (fl : List ℕ)
    → Accounts p fl
    → p.closed ≡ false
    → Accounts (recheck_all env p fl) []
unfolding recheck_all
recheck_all-Accounts env p [] v h = v
recheck_all-Accounts env p (c ∷ fl) v h =
    let (w, k) = recheck-Accounts env p c fl v h in
    recheck_all-Accounts env (recheck env p c) fl w k

-- The client's hold ends, and the connection floats.
unhold-Accounts :
    (p : ManagedPool) (c now : ℕ)
    → Accounts p []
    → (p.heap c).released ≡ false
    → Accounts
        (record p {
          heap = update p.heap c (record (p.heap c) { released = true; last_used_at = now });
        })
        (c ∷ [])
unfolding count
unhold-Accounts p c now v h = record {
  lost = v.lost;
  balance = ground (
    arith,
    v.balance,
    v.owned c,
    in_use-update p.heap c (record (p.heap c) { released = true; last_used_at = now }) p.next,
  );
  open_exact = v.open_exact;
  drained = v.drained;
  capacity = v.capacity;
  owned = λ b. ground (arith, v.owned b, v.owned c);
}

return_conn-Accounts :
    (env : Env) (p : ManagedPool) (c : ℕ)
    → Accounts p (c ∷ [])
    → Accounts (return_conn env p c).0 []
unfolding return_conn
return_conn-Accounts env p c v =
    if_cases (Kept (Unit {0})) p.closed _ _ (λ _. drop-Accounts p c [] v)
      λ open_pool.
        if_cases (Kept (Unit {0})) (should_destroy env p c) _ _ (λ _. drop-Accounts p c [] v)
          λ _.
            if_cases (Kept (Unit {0})) (ltb (length p.conns) p.max_size) _ _
              (λ _.
                let w = park-Accounts p c [] v open_pool in
                record {
                  lost = w.lost;
                  balance = w.balance;
                  open_exact = w.open_exact;
                  drained = w.drained;
                  capacity = w.capacity;
                  owned = w.owned;
                })
              (λ _. drop-Accounts p c [] v)

pub release-Accounts :
    (env : Env) (p : ManagedPool) (c : ℕ) → Accounts p [] → Accounts (release env p c).0 []
unfolding release
release-Accounts env p c v =
    if_cases (Kept (Unit {0})) (p.heap c).released _ _ (λ _. v)
      λ h. return_conn-Accounts env _ c (unhold-Accounts p c env.now v h)

-- A cleanup first takes every idle connection out.
drain-Accounts : (p : ManagedPool) → Accounts p [] → Accounts (record p { conns = [] }) p.conns
unfolding count
drain-Accounts p v = record {
  lost = v.lost;
  balance = omega (arith, v.balance);
  open_exact = v.open_exact;
  drained = λ _. refl;
  capacity = v.capacity;
  owned = λ b. omega (arith, v.owned b);
}

pub cleanup-Accounts :
    (env : Env) (p : ManagedPool)
    → p.closed ≡ false
    → Accounts p []
    → Accounts (recheck_idle env p) []
unfolding recheck_idle
cleanup-Accounts env p h v = recheck_all-Accounts env _ p.conns (drain-Accounts p v) h

pub close-Accounts : (p : ManagedPool) → Accounts p [] → Accounts (close p).0 []
unfolding close count
close-Accounts p v =
    if_cases (Kept (Unit {0})) p.closed _ _ (λ _. v)
      λ h. record {
        lost = v.lost + length p.conns;
        balance = omega (arith, v.balance);
        open_exact = λ k. absurd (ground arith);
        drained = λ _. refl;
        capacity = v.capacity;
        owned = λ b. omega (arith, v.owned b);
      }
