-- ===== src/ConnPool/Managed/Invariant/Acquire.antt =====
-- Acquire keeps the accounts.
use gocc.Prelude.{
  ℕ, ◌≡◌, refl, Bool, true, false, List, [], ◌∷◌, ltb, Bool-cases, if_cases, inl, inr, arith,
}
use gocc.ConnPool.{Env}
use gocc.ConnPool.Managed.{
  ManagedPool, fresh_conn, should_destroy, destroy_conn, try_create, acquire_from, acquire,
  acquire_wait_on, acquire_wait,
}
use gocc.ConnPool.Managed.Frame.{in_use-alloc}
use gocc.ConnPool.Managed.Invariant.{Accounts, Kept, destroy-Accounts, hand_out-Accounts}

try_create-Accounts :
    (env : Env) (p : ManagedPool) → Accounts p [] → Accounts (try_create env p).0 []
unfolding try_create
try_create-Accounts env p v = elim (Bool-cases (ltb p.semaphore p.max_size)) [
  | inr full ↦ rw full v
  | inl room ↦ elim (Bool-cases (env.factory p.next)) [
    | inr failed ↦ rw (room, failed) v
    | inl made ↦
        rw (room, made)
          (record {
            lost = v.lost;
            balance =
                omega (arith, v.balance, in_use-alloc p.heap (fresh_conn env.now 1 false) p.next);
            open_exact = v.open_exact;
            drained = v.drained;
            capacity = ground (arith, room);
            owned = λ b. ground (arith, v.owned b);
          })
  ]
]

pub acquire_from-Accounts :
    (env : Env) (p : ManagedPool) (cs : List ℕ)
    → p.conns ≡ cs
    → Accounts p []
    → Accounts (acquire_from env p cs).0 []
unfolding acquire_from
acquire_from-Accounts env p [] e v =
    if_cases (Kept ℕ) p.closed _ _ (λ _. v) (λ _. try_create-Accounts env p v)
acquire_from-Accounts env p (c ∷ rest) e v =
    if_cases (Kept ℕ) p.closed _ _ (λ _. v)
      λ _.
        if_cases (Kept ℕ) (should_destroy env p c) _ _
          (λ _.
            acquire_from-Accounts env (destroy_conn (record p { conns = rest })) rest
              (unfold destroy_conn in refl) (destroy-Accounts p c rest e v))
          (λ _. hand_out-Accounts p c rest e v)

pub acquire-Accounts : (env : Env) (p : ManagedPool) → Accounts p [] → Accounts (acquire env p).0 []
unfolding acquire
acquire-Accounts env p v = acquire_from-Accounts env p p.conns refl v

acquire_wait_on-Accounts :
    (env : Env) (p : ManagedPool) (cancelled : Bool) (cs : List ℕ)
    → p.conns ≡ cs
    → Accounts p []
    → Accounts (acquire_wait_on env p cancelled cs).0 []
unfolding acquire_wait_on
acquire_wait_on-Accounts env p true cs e v = v
acquire_wait_on-Accounts env p false [] e v = v
acquire_wait_on-Accounts env p false (c ∷ rest) e v =
    if_cases (Kept ℕ) (should_destroy env p c) _ _
      (λ _. acquire-Accounts env _ (destroy-Accounts p c rest e v))
      (λ _. hand_out-Accounts p c rest e v)

pub acquire_wait-Accounts :
    (env : Env) (cancelled : Bool) (p : ManagedPool)
    → Accounts p []
    → Accounts (acquire_wait env cancelled p).0 []
unfolding acquire_wait
acquire_wait-Accounts env cancelled p v = acquire_wait_on-Accounts env p cancelled p.conns refl v
