-- ===== src/ConnPool/Managed/Grants.antt =====
-- Whom ManagedPool.Acquire serves: what it hands out, and when it blocks.
use gocc.Prelude.{
  ℕ, ◌<◌, ◌≡◌, ◌↔◌, ◌⊎◌, refl, ap, true, false, List, [], ◌∷◌, ltb, length, if_cases, inl, inr,
  arith,
}
use gocc.ConnPool.{Env, Outcome, ok, err, waiting, panics}
use gocc.ConnPool.Managed.{
  ManagedPool, update, should_destroy, destroy_conn, hand_out, try_create, acquire_from, acquire,
}
use gocc.ConnPool.Managed.Frame.{count, in_use}
use gocc.ConnPool.Managed.Invariant.{Accounts, destroy-Accounts}

-- The connection that an Acquire hands out: its `released` flag was set and is cleared, it is a new
-- one or an idle one that passed the checks, and no other connection changed.
abbrev pub Grant : Env → ManagedPool → ManagedPool × Outcome ℕ → Type 0
Grant env p (q, ok c) =
    ((p.heap c).released ≡ true)
    × ((q.heap c).released ≡ false)
    × ((b : ℕ) → q.heap b ≡ update p.heap c (q.heap c) b)
    × ((c ≡ p.next) ⊎ ((should_destroy env p c ≡ false) × (0 < count c p.conns)))
Grant env p (q, _) = Unit

module _ (env : Env) where
  should_destroy-destroy_conn :
      (p : ManagedPool) (rest : List ℕ) (c : ℕ)
      → should_destroy env (destroy_conn (record p { conns = rest })) c ≡ should_destroy env p c
  unfolding should_destroy destroy_conn
  should_destroy-destroy_conn p rest c = refl

  try_create-Grant : (p : ManagedPool) → Accounts p [] → Grant env p (try_create env p)
  unfolding try_create
  try_create-Grant p v =
      if_cases (Grant env p) (ltb p.semaphore p.max_size) _ _
        (λ _.
          if_cases (Grant env p) (env.factory p.next) _ _
            (λ _. (ground (arith, v.owned p.next), ground arith, λ b. ground arith, inl refl))
            (λ _. tt))
        (λ _. tt)

  Grant-popped :
      (p : ManagedPool) (c : ℕ) (rest : List ℕ) (r : ManagedPool × Outcome ℕ)
      → p.conns ≡ c ∷ rest
      → Grant env (destroy_conn (record p { conns = rest })) r
      → Grant env p r
  unfolding should_destroy destroy_conn count
  Grant-popped p c rest (q, ok d) e (free, taken, same, inl new) = (free, taken, same, inl new)
  Grant-popped p c rest (q, ok d) e (free, taken, same, inr (fit, parked)) =
      (free, taken, same, inr (fit, ground (arith, e, parked)))
  Grant-popped p c rest (q, err _) e g = tt
  Grant-popped p c rest (q, waiting) e g = tt
  Grant-popped p c rest (q, panics) e g = tt

  hand_out-Grant :
      (p : ManagedPool) (c : ℕ) (rest : List ℕ)
      → p.conns ≡ c ∷ rest
      → Accounts p []
      → should_destroy env p c ≡ false
      → Grant env p (hand_out (record p { conns = rest }) c)
  unfolding hand_out count
  hand_out-Grant p c rest e v fit =
      (ground (arith, v.owned c, e), ground arith, λ b. ground arith, inr (fit, ground (arith, e)))

  acquire_from-Grant :
      (p : ManagedPool) (cs : List ℕ)
      → p.conns ≡ cs
      → Accounts p []
      → Grant env p (acquire_from env p cs)
  unfolding acquire_from
  acquire_from-Grant p [] e v =
      if_cases (Grant env p) p.closed _ _ (λ _. tt) (λ _. try_create-Grant p v)
  acquire_from-Grant p (c ∷ rest) e v =
      if_cases (Grant env p) p.closed _ _ (λ _. tt)
        λ _.
          if_cases (Grant env p) (should_destroy env p c) _ _
            (λ _.
              Grant-popped p c rest
                (acquire_from env (destroy_conn (record p { conns = rest })) rest) e
                (acquire_from-Grant (destroy_conn (record p { conns = rest })) rest
                  (unfold destroy_conn in refl) (destroy-Accounts p c rest e v)))
            (hand_out-Grant p c rest e v)

  pub acquire-Grant : (p : ManagedPool) → Accounts p [] → Grant env p (acquire env p)
  unfolding acquire
  acquire-Grant p v = acquire_from-Grant p p.conns refl v

  abbrev BlocksFull : ManagedPool → ManagedPool × Outcome ℕ → Type 0
  BlocksFull p r = r.1 ≡ waiting → in_use p.heap p.next ≡ p.max_size

  try_create-BlocksFull :
      (p : ManagedPool)
      → Accounts p []
      → p.conns ≡ []
      → p.closed ≡ false
      → BlocksFull p (try_create env p)
  unfolding try_create
  try_create-BlocksFull p v e h w = ground (arith, v.balance, v.capacity, v.open_exact h, e)

  hand_out-BlocksFull : (p q : ManagedPool) (c : ℕ) → BlocksFull p (hand_out q c)
  unfolding hand_out
  hand_out-BlocksFull p q c w = cc

  BlocksFull-popped :
      (p : ManagedPool) (rest : List ℕ) (r : ManagedPool × Outcome ℕ)
      → BlocksFull (destroy_conn (record p { conns = rest })) r
      → BlocksFull p r
  unfolding destroy_conn
  BlocksFull-popped p rest r g = g

  acquire_from-BlocksFull :
      (p : ManagedPool) (cs : List ℕ)
      → p.conns ≡ cs
      → Accounts p []
      → BlocksFull p (acquire_from env p cs)
  unfolding acquire_from
  acquire_from-BlocksFull p [] e v =
      if_cases (BlocksFull p) p.closed _ _ (λ _ w. cc) (try_create-BlocksFull p v e)
  acquire_from-BlocksFull p (c ∷ rest) e v =
      if_cases (BlocksFull p) p.closed _ _ (λ _ w. cc)
        λ _.
          if_cases (BlocksFull p) (should_destroy env p c) _ _
            (λ _.
              BlocksFull-popped p rest
                (acquire_from env (destroy_conn (record p { conns = rest })) rest)
                (acquire_from-BlocksFull (destroy_conn (record p { conns = rest })) rest
                  (unfold destroy_conn in refl) (destroy-Accounts p c rest e v)))
            (λ _. hand_out-BlocksFull p (record p { conns = rest }) c)

  full_waits :
      (p : ManagedPool) (cs : List ℕ)
      → p.conns ≡ cs
      → Accounts p []
      → p.closed ≡ false
      → in_use p.heap p.next ≡ p.max_size
      → (acquire_from env p cs).1 ≡ waiting
  unfolding acquire_from try_create
  full_waits p [] e v h full = ground (arith, v.balance, v.capacity)
  full_waits p (c ∷ rest) e v h full = absurd (omega (arith, v.balance, v.capacity, ap length e))

  pub acquire-waiting_iff :
      (p : ManagedPool)
      → Accounts p []
      → p.closed ≡ false
      → ((acquire env p).1 ≡ waiting) ↔ (in_use p.heap p.next ≡ p.max_size)
  unfolding acquire
  acquire-waiting_iff p v h =
      (acquire_from-BlocksFull p p.conns refl v, full_waits p p.conns refl v h)
