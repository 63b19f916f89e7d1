-- ===== src/ConnPool/Managed/Runs.antt =====
-- Histories of a ManagedPool: any sequence of calls by any clients, and of ticks of the health
-- check, each with its own clock reading and answers from outside.
use gocc.Prelude.{
  ℕ, ◌+◌, ◌≤◌, ◌≡◌, Bool, true, false, List, [], ◌∷◌, if◌then◌else◌, length, if_cases, arith, ◌⊎◌,
  inl, inr, ◌↔◌, Bool-cases, Option, none, some, ap,
}
use gocc.ConnPool.{Env, waiting, panics}
use gocc.ConnPool.Managed.{
  ManagedConfig, ManagedPool, new_managed, acquire, acquire_wait, acquire_wait_on, release,
  cleanup_idle_connections, recheck_idle, close, warm_up, ensure_min_connections,
}
use gocc.ConnPool.Managed.Frame.{in_use}
use gocc.ConnPool.Managed.Invariant.{Accounts, new_managed-Accounts}
use gocc.ConnPool.Managed.Grants.{Grant, acquire-Grant, acquire-waiting_iff}
use gocc.ConnPool.Managed.Cleaning.{healthy, cleanup-healthy}
use gocc.ConnPool.Managed.Invariant.Acquire.{acquire-Accounts, acquire_wait-Accounts}
use gocc.ConnPool.Managed.Invariant.Return.{release-Accounts, cleanup-Accounts, close-Accounts}
use gocc.ConnPool.Managed.Invariant.Warm.{warm_up-Accounts, ensure_min-Accounts}

-- `waits` is the last select of an Acquire that blocked, and `ticks` a tick of healthCheckLoop.
pub data Event : Type 0 where
  acquires : Event
  waits : Bool → Event
  releases : ℕ → Event
  ticks : Event
  closes : Event
  warms : Event
  ensures : Event

-- A tick has no effect without a result.
abbrev or_same : ManagedPool → Option ManagedPool → ManagedPool
or_same p none = p
or_same p (some q) = q

unfoldable pub step : ManagedPool → Env × Event → ManagedPool
step p (env, acquires) = (acquire env p).0
step p (env, waits cancelled) = (acquire_wait env cancelled p).0
step p (env, releases c) = (release env p c).0
step p (env, ticks) = or_same p (cleanup_idle_connections env p)
step p (env, closes) = (close p).0
step p (env, warms) = (warm_up env p).0
step p (env, ensures) = (ensure_min_connections env p).0

unfoldable pub run : ManagedPool → List (Env × Event) → ManagedPool
unfolding step
run p [] = p
run p (e ∷ events) = run (step p e) events

pub step-Accounts : (p : ManagedPool) (e : Env × Event) → Accounts p [] → Accounts (step p e) []
unfolding step cleanup_idle_connections
step-Accounts p (env, acquires) v = acquire-Accounts env p v
step-Accounts p (env, waits cancelled) v = acquire_wait-Accounts env cancelled p v
step-Accounts p (env, releases c) v = release-Accounts env p c v
step-Accounts p (env, ticks) v =
    if_cases (λ (o : Option ManagedPool). Accounts (or_same p o) []) p.closed _ _ (λ _. v)
      λ h. cleanup-Accounts env p h v
step-Accounts p (env, closes) v = close-Accounts p v
step-Accounts p (env, warms) v = warm_up-Accounts env p v
step-Accounts p (env, ensures) v = ensure_min-Accounts env p v

pub run-Accounts :
    (p : ManagedPool) (events : List (Env × Event)) → Accounts p [] → Accounts (run p events) []
unfolding run
run-Accounts p [] v = v
run-Accounts p (e ∷ events) v = run-Accounts (step p e) events (step-Accounts p e v)

-- The pool after a history from its constructor on.
abbrev pub after : ManagedConfig → List (Env × Event) → ManagedPool
after config events = run (new_managed config) events

after-Accounts :
    (config : ManagedConfig) (events : List (Env × Event)) → Accounts (after config events) []
after-Accounts config events =
    run-Accounts (new_managed config) events (new_managed-Accounts config)

-- After any history of a new pool the slots taken are within the pool's size. A pool that is still
-- open has taken exactly one slot for each idle connection and each connection that is handed out,
-- its `released` flag not set, and a closed pool has no idle connection.
pub run-balance :
    (config : ManagedConfig) (events : List (Env × Event))
    → let p = after config events in
      (p.semaphore ≤ p.max_size)
      × (((p.closed ≡ false) × (p.semaphore ≡ length p.conns + in_use p.heap p.next))
          ⊎ ((p.closed ≡ true) × (p.conns ≡ [])))
run-balance config events =
    let v = after-Accounts config events in
    let p = after config events in
    (
      v.capacity,
      elim (Bool-cases p.closed) [
        | inl shut ↦ inr (shut, v.drained shut)
        | inr h ↦ inl (h, omega (arith, v.balance, v.open_exact h))
      ],
    )

-- After any history, if Acquire hands out a connection then the connection's `released` flag was set
-- before and is cleared afterwards, no other connection changes, and it is a new connection or one
-- that was in the idle channel and that shouldDestroy lets pass. The flag alone does not say that no
-- client has kept a handle of the connection after releasing it.
pub run-acquire-Grant :
    (config : ManagedConfig) (events : List (Env × Event)) (env : Env)
    → Grant env (after config events) (acquire env (after config events))
run-acquire-Grant config events env =
    acquire-Grant env (after config events) (after-Accounts config events)

-- After any history that leaves the pool open, Acquire blocks exactly if the connections whose
-- `released` flag is not set, those handed out and not released since through any handle, are as many
-- as the pool's size.
pub run-acquire-waiting_iff :
    (config : ManagedConfig) (events : List (Env × Event)) (env : Env)
    → (after config events).closed ≡ false
    → let p = after config events in
      ((acquire env p).1 ≡ waiting) ↔ (in_use p.heap p.next ≡ p.max_size)
run-acquire-waiting_iff config events env h =
    acquire-waiting_iff env (after config events) (after-Accounts config events) h

-- After any history that leaves the pool open, a cleanup ends, and it keeps exactly the idle
-- connections that are healthy, in their order: those that are valid, and whose age and idle time are
-- within the limits that are set. For each of the others it gives back one slot and counts one
-- destroyed connection.
pub run-cleanup-healthy :
    (config : ManagedConfig) (events : List (Env × Event)) (env : Env)
    → (after config events).closed ≡ false
    → let p = after config events in
      (q : ManagedPool) × (cleanup_idle_connections env p ≡ some q)
      × (q.conns ≡ healthy env p p.conns)
      × (q.semaphore + length p.conns ≡ p.semaphore + length q.conns)
      × (q.destroyed + length q.conns ≡ p.destroyed + length p.conns)
unfolding cleanup_idle_connections
run-cleanup-healthy config events env unclosed =
    let p = after config events in
    let (back, slots, gone) = cleanup-healthy env p (after-Accounts config events) in
    (
      recheck_idle env p,
      ap (λ b. if b then none else some (recheck_idle env p)) unclosed,
      back,
      slots,
      gone,
    )

-- After any history that leaves the pool closed, an Acquire that is waiting, and whose context is
-- not done, panics: the closed channel yields a nil connection, which is dereferenced.
pub closed_wait-panics :
    (config : ManagedConfig) (events : List (Env × Event)) (env : Env)
    → (after config events).closed ≡ true
    → (acquire_wait env false (after config events)).1 ≡ panics
unfolding acquire_wait acquire_wait_on
closed_wait-panics config events env shut =
    let p = after config events in
    let drained = (after-Accounts config events).drained shut in ground (arith, drained)
