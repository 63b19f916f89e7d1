-- ===== src/ConnPool/Managed/WarmUp.antt =====
-- What WarmUp achieves when the factory works and the context is not done.
use Prim.Native.Nat.{min}
use gocc.Prelude.{
  ℕ, zero, suc, ◌+◌, ◌-◌, ◌≤◌, ◌<◌, ◌≡◌, refl, true, false, [], ◌∷◌, ◌++◌, ltb, length,
  length-append, ltb→lt, ◌∙◌, Bool-cases, inl, inr, arith,
}
use gocc.Prelude.Int.{pos_part}
use gocc.ConnPool.{Env, ok}
use gocc.ConnPool.Managed.{
  ManagedConfig, ManagedPool, new_managed, go_on, halt, fresh_conn, update, add_idle, warm_round,
  warm_loop, warm_up,
}

-- The pool after one more connection is parked.
parked : Env → ManagedPool → ManagedPool
parked env p = record p {
  heap = update p.heap p.next (fresh_conn env.now 0 true);
  next = suc p.next;
  semaphore = p.semaphore + 1;
  conns = p.conns ++ p.next ∷ [];
  warmed_up = p.warmed_up + 1;
}

parked_fields :
    (env : Env) (p : ManagedPool)
    → ((parked env p).closed ≡ p.closed)
      × ((parked env p).semaphore ≡ p.semaphore + 1)
      × ((parked env p).max_size ≡ p.max_size)
      × (length (parked env p).conns ≡ length p.conns + 1)
unfolding parked
parked_fields env p = (refl, refl, refl, length-append p.conns (p.next ∷ []))

module _ (env : Env) (going : (i : ℕ) → env.ctx_done i ≡ false)
    (works : (a : ℕ) → env.factory a ≡ true) where
  warm_round-parked :
      (p : ManagedPool) (i : ℕ)
      → p.closed ≡ false
      → length p.conns ≤ p.semaphore
      → p.semaphore < p.max_size
      → warm_round env p i ≡ go_on (parked env p) 1
  unfolding warm_round add_idle parked
  warm_round-parked p i h le room = ground (arith, going i, works p.next)

  warm_round-full :
      (p : ManagedPool) (i : ℕ) → p.max_size ≤ p.semaphore → warm_round env p i ≡ halt p (ok tt)
  unfolding warm_round
  warm_round-full p i full = ground (arith, going i)

  warm_loop-fills :
      (rounds i created : ℕ) (p : ManagedPool)
      → p.closed ≡ false
      → length p.conns ≤ p.semaphore
      → let n = min rounds (p.max_size - p.semaphore) in
        let r = warm_loop env rounds i created p in
        (r.1 ≡ created + n) × (r.2 ≡ ok tt) × (length r.0.conns ≡ length p.conns + n)
  unfolding warm_loop
  warm_loop-fills zero i created p h le = (omega arith, refl, omega arith)
  warm_loop-fills (suc rounds) i created p h le = elim (Bool-cases (ltb p.semaphore p.max_size)) [
    | inl room ↦
        let (shut, slots, size, idle) = parked_fields env p in
        let ih =
          warm_loop-fills rounds (suc i) (created + 1) (parked env p) (shut ∙ h) (omega arith) in
        rw (warm_round-parked p i h le (ground arith), warm_loop)
          (omega (arith, ih.0, ltb→lt _ _ room), ih.1, omega (arith, ih.2, ltb→lt _ _ room))
    | inr full ↦ rw (warm_round-full p i (ground arith), warm_loop) (ground arith)
  ]

-- WarmUp on a new pool, with a context that is not done and a factory that works, succeeds and
-- parks the smaller of `min_size` and the pool's size idle connections; it reports that number.
pub warm_up-fills :
    (env : Env) (config : ManagedConfig)
    → ((i : ℕ) → env.ctx_done i ≡ false)
    → ((a : ℕ) → env.factory a ≡ true)
    → let n = min (pos_part config.min_size) (new_managed config).max_size in
      let r = warm_up env (new_managed config) in (r.1 ≡ n) × (r.2 ≡ ok tt) × (length r.0.conns ≡ n)
unfolding new_managed warm_up
warm_up-fills env config going works =
    let (made, fine, idle) =
      warm_loop-fills env going works (pos_part config.min_size) 0 0 (new_managed config) refl
        (omega arith) in
    (omega (arith, made), fine, omega (arith, idle))
