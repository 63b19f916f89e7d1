-- ===== src/ConnPool/Managed/Invariant/Warm.antt =====
-- WarmUp and EnsureMinConnections keep the accounts.
use gocc.Prelude.{ℕ, zero, suc, ◌+◌, ◌-◌, ◌≡◌, true, [], ◌∷◌, ltb, leb, length, if_cases, arith}
use gocc.Prelude.Int.{pos_part}
use gocc.ConnPool.{Env, Outcome}
use gocc.ConnPool.Managed.{
  ManagedPool, update, fresh_conn, Round, go_on, halt, add_idle, warm_round, warm_loop, warm_up,
  ensure_min_connections,
}
use gocc.ConnPool.Managed.Frame.{count, in_use-alloc}
use gocc.ConnPool.Managed.Invariant.{Accounts, park-Accounts, drop-Accounts}

abbrev RoundKept : Round → Type 0
RoundKept (go_on q n) = Accounts q []
RoundKept (halt q o) = Accounts q []

add_idle-RoundKept : (p : ManagedPool) (c : ℕ) → Accounts p (c ∷ []) → RoundKept (add_idle p c)
unfolding add_idle count
add_idle-RoundKept p c v =
    if_cases RoundKept p.closed _ _
      (λ shut. record {
        lost = suc v.lost;
        balance = omega (arith, v.balance);
        open_exact = λ k. absurd (ground arith);
        drained = v.drained;
        capacity = v.capacity;
        owned = λ b. ground (arith, v.owned b);
      })
      λ h.
        if_cases RoundKept (ltb (length p.conns) p.max_size) _ _
          (λ _.
            let w = park-Accounts p c [] v h in
            record {
              lost = w.lost;
              balance = w.balance;
              open_exact = w.open_exact;
              drained = w.drained;
              capacity = w.capacity;
              owned = w.owned;
            })
          (λ _.
            let w = drop-Accounts p c [] v in
            record {
              lost = v.lost;
              balance = omega (arith, v.balance);
              open_exact = v.open_exact;
              drained = v.drained;
              capacity = omega (arith, v.capacity);
              owned = λ b. ground (arith, v.owned b);
            })

-- A new idle connection floats before it is sent to the channel.
alloc-Accounts :
    (p : ManagedPool) (now : ℕ)
    → Accounts p []
    → ltb p.semaphore p.max_size ≡ true
    → Accounts
        (record p {
          heap = update p.heap p.next (fresh_conn now 0 true);
          next = suc p.next;
          semaphore = p.semaphore + 1;
        })
        (p.next ∷ [])
unfolding count
alloc-Accounts p now v room = record {
  lost = v.lost;
  balance = omega (arith, v.balance, in_use-alloc p.heap (fresh_conn now 0 true) p.next);
  open_exact = v.open_exact;
  drained = v.drained;
  capacity = ground (arith, room);
  owned = λ b. ground (arith, v.owned b);
}

warm_round-RoundKept :
    (env : Env) (p : ManagedPool) (i : ℕ) → Accounts p [] → RoundKept (warm_round env p i)
unfolding warm_round
warm_round-RoundKept env p i v =
    if_cases RoundKept (env.ctx_done i) _ _ (λ _. v)
      λ _.
        if_cases RoundKept (ltb p.semaphore p.max_size) _ _
          (λ room.
            if_cases RoundKept (env.factory p.next) _ _
              (λ _. add_idle-RoundKept _ p.next (alloc-Accounts p env.now v room))
              (λ _. record {
                lost = v.lost;
                balance = v.balance;
                open_exact = v.open_exact;
                drained = v.drained;
                capacity = v.capacity;
                owned = v.owned;
              }))
          (λ _. v)

warm_loop-Accounts :
    (env : Env) (rounds i created : ℕ) (p : ManagedPool)
    → Accounts p []
    → Accounts (warm_loop env rounds i created p).0 []
unfolding warm_loop
warm_loop-Accounts env zero i created p v = v
warm_loop-Accounts env (suc rounds) i created p v =
    (elim (warm_round env p i)
        as (λ r.
          RoundKept r
          → Accounts
              (let x : ManagedPool × ℕ × Outcome (Unit {0}) = elim r [
                | go_on q n ↦ warm_loop env rounds (suc i) (created + n) q
                | halt q o ↦ (q, created, o)
              ] in
                x.0)
              []) [
                | go_on q n ↦ λ w. warm_loop-Accounts env rounds (suc i) (created + n) q w
                | halt q o ↦ λ w. w
              ])
      (warm_round-RoundKept env p i v)

abbrev Warmed : ManagedPool × ℕ × Outcome (Unit {0}) → Type 0
Warmed r = Accounts r.0 []

pub warm_up-Accounts : (env : Env) (p : ManagedPool) → Accounts p [] → Accounts (warm_up env p).0 []
unfolding warm_up
warm_up-Accounts env p v =
    if_cases Warmed p.closed _ _ (λ _. v) λ _. warm_loop-Accounts env (pos_part p.min_size) 0 0 p v

pub ensure_min-Accounts :
    (env : Env) (p : ManagedPool) → Accounts p [] → Accounts (ensure_min_connections env p).0 []
unfolding ensure_min_connections
ensure_min-Accounts env p v =
    if_cases Warmed (leb (pos_part p.min_size) p.semaphore) _ _ (λ _. v)
      λ _. warm_loop-Accounts env (pos_part p.min_size - p.semaphore) 0 0 p v
