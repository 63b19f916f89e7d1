-- ===== src/ConnPool/Basic/Slots.antt =====
-- The tokens of Pool, of which Release loses some.
use gocc.Prelude.{
  ℕ, zero, suc, ◌+◌, ◌≤◌, ◌<◌, ◌≡◌, ◌∙◌, refl, sym, ap, subst, true, false, [], if◌then◌else◌,
  arith,
}
use gocc.Prelude.Int.{pos_part, is_pos}
use gocc.ConnPool.{Env, ok, waiting}
use gocc.ConnPool.Basic.{
  Config, Pool, new_pool, try_create, acquire_from, acquire, acquire_wait_on, acquire_wait, release,
  release_after, use_once, use_times,
}

-- An open pool without idle connections that has given `k` tokens.
record Drained (n k : ℕ) (p : Pool) : Type 0 where
  open_pool : p.closed ≡ false
  none_idle : p.conns ≡ []
  size : p.max_size ≡ n
  tokens : p.semaphore ≡ k

Drained-acquire :
    (env : Env) (n : ℕ) (p : Pool) → Drained n n p → (acquire_from env p []).1 ≡ waiting
unfolding acquire_from try_create
Drained-acquire env n p d = ground (arith, d.open_pool, d.size, d.tokens)

Drained-acquire_wait :
    (env : Env) (n : ℕ) (p : Pool) → Drained n n p → acquire_wait_on env p false [] ≡ (p, waiting)
unfolding acquire_wait_on
Drained-acquire_wait env n p d = ground (arith, d.open_pool)

module _ (before after : Env) (makes : (c : ℕ) → before.factory c ≡ true)
    (breaks : (c : ℕ) → after.is_valid c ≡ false) where
  acquire_drained :
      (p : Pool)
      → p.closed ≡ false
      → p.conns ≡ []
      → p.semaphore < p.max_size
      → acquire before p ≡ (
        record p { next = suc p.next; semaphore = p.semaphore + 1; acquired = p.acquired + 1 },
        ok p.next,
      )
  unfolding acquire acquire_from try_create
  acquire_drained p o e h = ap (acquire_from before p) e ∙ ground (arith, o, h, makes p.next)

  release_broken :
      (p : Pool) (c : ℕ)
      → p.closed ≡ false
      → (release after p c).0 ≡ record p { destroyed = p.destroyed + 1 }
  unfolding release
  release_broken p c o = ground (arith, o, breaks c)

  use_once-Drained :
      (n k : ℕ) (p : Pool) → k < n → Drained n k p → Drained n (suc k) (use_once before after p)
  unfolding use_once release_after
  use_once-Drained n k p h d =
      let room : p.semaphore < p.max_size = omega (arith, d.size, d.tokens) in
      subst (λ r. Drained n (suc k) (release_after after r))
        (sym (acquire_drained p d.open_pool d.none_idle room))
        (subst (Drained n (suc k)) (sym (release_broken _ p.next d.open_pool)) (record {
          open_pool = d.open_pool;
          none_idle = d.none_idle;
          size = d.size;
          tokens = omega (arith, d.tokens);
        }))

  use_times-Drained :
      (m n k : ℕ) (p : Pool)
      → k + m ≤ n
      → Drained n k p
      → Drained n (k + m) (use_times m before after p)
  unfolding use_times
  use_times-Drained zero n k p h d = record {
    open_pool = d.open_pool;
    none_idle = d.none_idle;
    size = d.size;
    tokens = omega (arith, d.tokens);
  }
  use_times-Drained (suc m) n k p h d =
      let r =
        use_times-Drained m n (suc k) (use_once before after p) (omega arith)
          (use_once-Drained n k p (omega arith) d) in
      record {
        open_pool = r.open_pool;
        none_idle = r.none_idle;
        size = r.size;
        tokens = omega (arith, r.tokens);
      }

  -- With a factory that always works, acquire a connection of a fresh pool and release it when it is
  -- no longer valid, as often as the pool has slots: no connection is idle then, and still Acquire
  -- blocks, and goes on blocking as long as its context is not done.
  pub lost_slots-block :
      (config : Config) (env : Env)
      → let n = if is_pos config.max_size then pos_part config.max_size else 10 in
        let p = use_times n before after (new_pool config) in
        (p.conns ≡ []) × ((acquire env p).1 ≡ waiting) × (acquire_wait env false p ≡ (p, waiting))
  unfolding new_pool acquire acquire_wait
  lost_slots-block config env =
      let n = (new_pool config).max_size in
      let p = use_times n before after (new_pool config) in
      let r =
        use_times-Drained n n 0 (new_pool config) (omega arith)
          (record { open_pool = refl; none_idle = refl; size = refl; tokens = refl }) in
      let d : Drained n n p = record {
        open_pool = r.open_pool;
        none_idle = r.none_idle;
        size = r.size;
        tokens = omega (arith, r.tokens);
      } in
      (
        d.none_idle,
        ap (λ cs. (acquire_from env p cs).1) d.none_idle ∙ Drained-acquire env n p d,
        ap (acquire_wait_on env p false) d.none_idle ∙ Drained-acquire_wait env n p d,
      )
