-- ===== src/Tests/ConnPool.antt =====
-- A pool of two connections whose factory works and whose connections stay valid.
use gocc.Prelude.{ℕ, ◌+◌, ◌≤◌, ◌≡◌, ◌⊎◌, ◌↔◌, refl, true, false, List, [], ◌∷◌, length, some, arith}
use gocc.Prelude.Int.{pos}
use gocc.ConnPool.{Env, ok, waiting, panics}
use gocc.ConnPool.Managed.{
  ManagedConfig, ManagedPool, new_managed, should_destroy, destroy_conn, acquire, acquire_wait,
  release, recheck, recheck_all, cleanup_idle_connections, close, warm_up, ensure_min_connections,
}
use gocc.ConnPool.Managed.Frame.{in_use}
use gocc.ConnPool.Managed.Grants.{Grant}
use gocc.ConnPool.Managed.Cleaning.{healthy}
use gocc.ConnPool.Managed.Runs.{
  Event, acquires, releases, closes, warms, after, run, run-balance, run-acquire-Grant,
  run-acquire-waiting_iff, run-cleanup-healthy, closed_wait-panics,
}
use gocc.ConnPool.Managed.Faults.{after_stale_release, stale_release-shares}
use gocc.ConnPool.Managed.WarmUp.{warm_up-fills}

abbrev config : ManagedConfig
config = record { min_size = pos 1; max_size = pos 2; max_idle_time = pos 50; max_lifetime = pos 0 }

abbrev at : ℕ → Env
at t = record { now = t; is_valid = λ _. true; factory = λ _. true; ctx_done = λ _. false }

-- One connection warmed up, two acquired, one given back.
abbrev history : List (Env × Event)
history = (at 1, warms) ∷ (at 2, acquires) ∷ (at 3, acquires) ∷ (at 4, releases 0) ∷ []

program : Unit {0}
unfolding new_managed acquire acquire_wait release cleanup_idle_connections close warm_up
    ensure_min_connections run in_use should_destroy destroy_conn recheck recheck_all
program = tt

history_result : ((after config history).conns ≡ 0 ∷ []) × ((after config history).semaphore ≡ 2)
unfolding program
history_result = (refl, refl)

-- An idle connection that is too old is destroyed, and its slot is used for a new one.
idle_too_long : (acquire (at 100) (after config history)).1 ≡ ok 2
unfolding program
idle_too_long = refl

run-balance_example :
    let p = after config history in
    (p.semaphore ≤ p.max_size)
    × (((p.closed ≡ false) × (p.semaphore ≡ length p.conns + in_use p.heap p.next))
        ⊎ ((p.closed ≡ true) × (p.conns ≡ [])))
run-balance_example = run-balance config history

run-acquire-Grant_example :
    Grant (at 5) (after config history) (acquire (at 5) (after config history))
run-acquire-Grant_example = run-acquire-Grant config history (at 5)

run-acquire-waiting_iff_example :
    let p = after config history in
    ((acquire (at 5) p).1 ≡ waiting) ↔ (in_use p.heap p.next ≡ p.max_size)
unfolding program
run-acquire-waiting_iff_example = run-acquire-waiting_iff config history (at 5) refl

open_history : (after config history).closed ≡ false
unfolding program
open_history = refl

run-cleanup-healthy_example :
    let p = after config history in
    (q : ManagedPool) × (cleanup_idle_connections (at 100) p ≡ some q)
    × (q.conns ≡ healthy (at 100) p p.conns)
    × (q.semaphore + length p.conns ≡ p.semaphore + length q.conns)
    × (q.destroyed + length q.conns ≡ p.destroyed + length p.conns)
run-cleanup-healthy_example = run-cleanup-healthy config history (at 100) open_history

abbrev closed_history : List (Env × Event)
closed_history = (at 1, acquires) ∷ (at 2, acquires) ∷ (at 3, closes) ∷ []

closed_wait-panics_example : (acquire_wait (at 4) false (after config closed_history)).1 ≡ panics
unfolding program
closed_wait-panics_example = closed_wait-panics config closed_history (at 4) refl

abbrev all_taken : List (Env × Event)
all_taken = (at 1, acquires) ∷ []

stale_release-shares_example :
    let p = after config all_taken in
    ((acquire (at 5) (release (at 5) p 0).0).1 ≡ ok 0)
    × ((acquire (at 5) (after_stale_release (at 5) p 0)).1 ≡ ok 0)
unfolding program
stale_release-shares_example =
    stale_release-shares (at 5) (after config all_taken) 0 refl refl (omega arith) refl refl refl

-- EnsureMinConnections on a closed pool sends on its closed channel.
ensure_after_close : (ensure_min_connections (at 4) (after config ((at 3, closes) ∷ []))).2 ≡ panics
unfolding program
ensure_after_close = refl

warm_up-fills_example :
    let r = warm_up (at 1) (new_managed config) in
    (r.1 ≡ 1) × (r.2 ≡ ok tt) × (length r.0.conns ≡ 1)
unfolding program
warm_up-fills_example = warm_up-fills (at 1) config (λ _. refl) (λ _. refl)
