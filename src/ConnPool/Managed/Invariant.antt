-- ===== src/ConnPool/Managed/Invariant.antt =====
-- The accounts of a ManagedPool: every taken slot is an idle connection, a connection that a client
-- holds, or one that Close left behind.
pub mod Acquire
pub mod Return
pub mod Warm
use gocc.Prelude.{
  ℕ, zero, suc, ◌+◌, ◌-◌, ◌≤◌, ◌<◌, ◌≡◌, refl, sym, ap, ◌∙◌, Bool, true, false, List, [], ◌∷◌, ◌++◌,
  ltb, leb, ◌==◌, if◌then◌else◌, length, length-append, append_assoc, append-nil, Bool-cases,
  if_cases, inl, inr, arith,
}
use gocc.Prelude.Int.{ℤ, pos_part, neg_part, is_pos}
use gocc.ConnPool.{Env, Outcome, ok, err, waiting, panics}
use gocc.ConnPool.Managed.{
  PooledConn, ManagedConfig, ManagedPool, update, fresh_conn, new_managed, should_destroy,
  destroy_conn, hand_out, try_create, acquire_from, acquire, acquire_wait_on, acquire_wait,
  return_conn, release, recheck, recheck_all, cleanup_idle_connections, close, Round, go_on, halt,
  add_idle, warm_round, warm_loop, warm_up, ensure_min_connections,
}
use gocc.ConnPool.Managed.Frame.{
  count, count-append, held, allocated, in_use, in_use-update, in_use-update_above, in_use-alloc,
}

-- `floating` are the idle connections that a cleanup has taken out and not yet put back.
pub record Accounts (p : ManagedPool) (floating : List ℕ) : Type 0 where
  pub lost : ℕ
  pub balance : p.semaphore ≡ length p.conns + length floating + in_use p.heap p.next + lost
  pub open_exact : p.closed ≡ false → lost ≡ 0
  pub drained : p.closed ≡ true → p.conns ≡ []
  pub capacity : p.semaphore ≤ p.max_size
  pub owned : (c : ℕ) → count c p.conns + count c floating + held (p.heap c) ≤ allocated c p.next

abbrev pub Kept : (A : Type 0) → ManagedPool × Outcome A → Type 0
Kept A r = Accounts r.0 []

pub new_managed-Accounts : (config : ManagedConfig) → Accounts (new_managed config) []
unfolding new_managed in_use count
new_managed-Accounts config = record {
  lost = 0;
  balance = omega arith;
  open_exact = λ _. refl;
  drained = λ _. refl;
  capacity = omega arith;
  owned = λ c. ground arith;
}

module _ (p : ManagedPool) (c : ℕ) (rest : List ℕ) (e : p.conns ≡ c ∷ rest)
    (v : Accounts p []) where
  pub pop_open : p.closed ≡ false
  pop_open = elim (Bool-cases p.closed) [
    | inl shut ↦ absurd (ground (arith, v.drained shut))
    | inr open_pool ↦ open_pool
  ]

  pub destroy-Accounts : Accounts (destroy_conn (record p { conns = rest })) []
  unfolding destroy_conn count
  destroy-Accounts = record {
    lost = v.lost;
    balance = ground (arith, v.balance, e);
    open_exact = v.open_exact;
    drained = λ h. absurd (ground (arith, pop_open));
    capacity = ground (arith, v.capacity);
    owned = λ b. ground (arith, v.owned b, e);
  }

  pub hand_out-Accounts : Accounts (hand_out (record p { conns = rest }) c).0 []
  unfolding hand_out count
  hand_out-Accounts = record {
    lost = v.lost;
    balance = ground (
      arith,
      v.balance,
      e,
      v.owned c,
      in_use-update p.heap c
          (record (p.heap c) { released = false; use_count = (p.heap c).use_count + 1 }) p.next,
    );
    open_exact = v.open_exact;
    drained = λ h. absurd (ground (arith, pop_open));
    capacity = v.capacity;
    owned = λ b. ground (arith, v.owned b, v.owned c, e);
  }

-- One round of cleanupIdleConnections, or the end of a return: an idle connection outside the
-- channel goes back into it or is destroyed.
module _ (p : ManagedPool) (c : ℕ) (fl : List ℕ) (v : Accounts p (c ∷ fl))
    (open_pool : p.closed ≡ false) where
  pub park-Accounts : Accounts (record p { conns = p.conns ++ c ∷ [] }) fl
  unfolding count
  park-Accounts = record {
    lost = v.lost;
    balance = omega (arith, v.balance, length-append p.conns (c ∷ []));
    open_exact = v.open_exact;
    drained = λ h. absurd (ground arith);
    capacity = v.capacity;
    owned = λ b. ground (arith, v.owned b, count-append b p.conns (c ∷ []));
  }

pub drop-Accounts :
    (p : ManagedPool) (c : ℕ) (fl : List ℕ) → Accounts p (c ∷ fl) → Accounts (destroy_conn p) fl
unfolding destroy_conn count
drop-Accounts p c fl v = record {
  lost = v.lost;
  balance = omega (arith, v.balance);
  open_exact = v.open_exact;
  drained = v.drained;
  capacity = omega (arith, v.capacity);
  owned = λ b. ground (arith, v.owned b);
}
