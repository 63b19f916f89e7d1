-- ===== src/ConnPool/Managed.antt =====
-- pool/managed.go: ManagedPool. A *PooledConn is an address of `heap`; the channel `conns` is the
-- list of the idle addresses, oldest first; `semaphore` is the number of slots taken. A method is
-- one step; Acquire stops at its last select as `waiting`, and `acquire_wait` resumes it.
pub mod Frame
pub mod Invariant
pub mod Grants
pub mod Cleaning
pub mod Faults
pub mod Runs
pub mod WarmUp
use gocc.Prelude.{
  ℕ, zero, suc, ◌+◌, ◌-◌, Bool, true, false, ◌&&◌, ◌||◌, not, List, [], ◌∷◌, ◌++◌, ltb, leb, ◌==◌,
  if◌then◌else◌, length, Option, none, some,
}
use gocc.Prelude.Int.{ℤ, pos_part, neg_part, is_pos}
use gocc.ConnPool.{
  Env, Outcome, ok, err, waiting, panics, err_pool_closed, err_acquire_timeout, err_invalid_conn,
  err_factory, err_context,
}

pub record PooledConn : Type 0 where
  pub created_at : ℕ
  pub last_used_at : ℕ
  pub use_count : ℕ
  pub released : Bool

pub record ManagedConfig : Type 0 where
  pub min_size : ℤ
  pub max_size : ℤ
  pub max_idle_time : ℤ
  pub max_lifetime : ℤ

pub record ManagedPool : Type 0 where
  pub heap : ℕ → PooledConn
  pub next : ℕ
  pub conns : List ℕ
  pub semaphore : ℕ
  pub closed : Bool
  pub min_size : ℤ
  pub max_size : ℕ
  pub max_idle_time : ℤ
  pub max_lifetime : ℤ
  pub acquired : ℕ
  pub released : ℕ
  pub destroyed : ℕ
  pub warmed_up : ℕ
  pub warm_up_errs : ℕ

abbrev pub update : (ℕ → PooledConn) → ℕ → PooledConn → ℕ → PooledConn
update h a c b = if b == a then c else h b

-- No address is in use before it is given out.
abbrev pub unallocated : PooledConn
unallocated = record { created_at = 0; last_used_at = 0; use_count = 0; released = true }

unfoldable pub new_managed : ManagedConfig → ManagedPool
new_managed config = record {
  heap = λ _. unallocated;
  next = 0;
  conns = [];
  semaphore = 0;
  closed = false;
  min_size = config.min_size;
  max_size = if is_pos config.max_size then pos_part config.max_size else 10;
  max_idle_time = config.max_idle_time;
  max_lifetime = config.max_lifetime;
  acquired = 0;
  released = 0;
  destroyed = 0;
  warmed_up = 0;
  warm_up_errs = 0;
}

-- `d > 0 && now - since > d`
abbrev pub exceeds : ℤ → ℕ → ℕ → Bool
exceeds d since now = is_pos d && ltb (since + pos_part d) now

unfoldable pub should_destroy : Env → ManagedPool → ℕ → Bool
should_destroy env p c =
    if not (env.is_valid c)
    then true
    else if exceeds p.max_lifetime (p.heap c).created_at env.now
    then true
    else exceeds p.max_idle_time (p.heap c).last_used_at env.now

-- The receive from `semaphore` takes the slot of the connection.
unfoldable pub destroy_conn : ManagedPool → ManagedPool
destroy_conn p = record p { semaphore = p.semaphore - 1; destroyed = p.destroyed + 1 }

-- The end of Acquire on an idle connection that is kept.
unfoldable pub hand_out : ManagedPool → ℕ → ManagedPool × Outcome ℕ
hand_out p c = (
  record p {
    heap =
        update p.heap c
          (record (p.heap c) { released = false; use_count = (p.heap c).use_count + 1 });
    acquired = p.acquired + 1;
  },
  ok c,
)

abbrev pub fresh_conn : ℕ → ℕ → Bool → PooledConn
fresh_conn now uses idle = record {
  created_at = now;
  last_used_at = now;
  use_count = uses;
  released = idle;
}

-- The second select of Acquire.
unfoldable pub try_create : Env → ManagedPool → ManagedPool × Outcome ℕ
try_create env p =
    if ltb p.semaphore p.max_size
    then if env.factory p.next
      then (
        record p {
          heap = update p.heap p.next (fresh_conn env.now 1 false);
          next = suc p.next;
          semaphore = p.semaphore + 1;
          acquired = p.acquired + 1;
        },
        ok p.next,
      )
      else (p, err err_factory)
    else (p, waiting)

-- Acquire over the addresses that the channel holds; the retry goes on with the rest.
unfoldable pub acquire_from : Env → ManagedPool → List ℕ → ManagedPool × Outcome ℕ
unfolding hand_out try_create
acquire_from env p [] = if p.closed then (p, err err_pool_closed) else try_create env p
acquire_from env p (c ∷ rest) =
    if p.closed
    then (p, err err_pool_closed)
    else if should_destroy env p c
    then acquire_from env (destroy_conn (record p { conns = rest })) rest
    else hand_out (record p { conns = rest }) c

unfoldable pub acquire : Env → ManagedPool → ManagedPool × Outcome ℕ
unfolding acquire_from
acquire env p = acquire_from env p p.conns

-- The last select of Acquire: `cancelled` says that the context's case is taken. A receive from a
-- closed, empty channel yields nil, which shouldDestroy dereferences.
unfoldable pub acquire_wait_on : Env → ManagedPool → Bool → List ℕ → ManagedPool × Outcome ℕ
unfolding acquire hand_out
acquire_wait_on env p true conns = (p, err err_acquire_timeout)
acquire_wait_on env p false [] = (p, if p.closed then panics else waiting)
acquire_wait_on env p false (c ∷ rest) =
    if should_destroy env p c
    then acquire env (destroy_conn (record p { conns = rest }))
    else hand_out (record p { conns = rest }) c

unfoldable pub acquire_wait : Env → Bool → ManagedPool → ManagedPool × Outcome ℕ
unfolding acquire_wait_on
acquire_wait env cancelled p = acquire_wait_on env p cancelled p.conns

-- `ManagedPool.release`
unfoldable pub return_conn : Env → ManagedPool → ℕ → ManagedPool × Outcome (Unit {0})
return_conn env p c =
    if p.closed
    then (destroy_conn p, err err_pool_closed)
    else if should_destroy env p c
    then (destroy_conn p, err err_invalid_conn)
    else if ltb (length p.conns) p.max_size
    then (record p { conns = p.conns ++ c ∷ []; released = p.released + 1 }, ok tt)
    else (destroy_conn p, ok tt)

-- `PooledConn.Release`
unfoldable pub release : Env → ManagedPool → ℕ → ManagedPool × Outcome (Unit {0})
unfolding return_conn
release env p c =
    if (p.heap c).released
    then (p, ok tt)
    else return_conn env
        (record p {
          heap = update p.heap c (record (p.heap c) { released = true; last_used_at = env.now });
        })
        c

-- One round of the second loop of cleanupIdleConnections.
unfoldable pub recheck : Env → ManagedPool → ℕ → ManagedPool
recheck env p c =
    if should_destroy env p c
    then destroy_conn p
    else if ltb (length p.conns) p.max_size
    then record p { conns = p.conns ++ c ∷ [] }
    else destroy_conn p

unfoldable pub recheck_all : Env → ManagedPool → List ℕ → ManagedPool
recheck_all env p [] = p
recheck_all env p (c ∷ cs) = recheck_all env (recheck env p c) cs

-- Both loops of cleanupIdleConnections over a channel that is not closed.
unfoldable pub recheck_idle : Env → ManagedPool → ManagedPool
unfolding recheck_all
recheck_idle env p = recheck_all env (record p { conns = [] }) p.conns

-- It has no result on a closed channel, from which the first loop receives nil without end.
unfoldable pub cleanup_idle_connections : Env → ManagedPool → Option ManagedPool
unfolding recheck_idle
cleanup_idle_connections env p = if p.closed then none else some (recheck_idle env p)

unfoldable pub close : ManagedPool → ManagedPool × Outcome (Unit {0})
close p =
    if p.closed
    then (p, err err_pool_closed)
    else (record p { closed = true; conns = []; destroyed = p.destroyed + length p.conns }, ok tt)

-- What one round of the loops of WarmUp and EnsureMinConnections comes to: the loop goes on, having
-- added so many connections, or the method returns.
pub data Round : Type 0 where
  go_on : ManagedPool → ℕ → Round
  halt : ManagedPool → Outcome (Unit {0}) → Round

-- The new connection is sent to the idle channel; to send on a closed channel panics.
unfoldable pub add_idle : ManagedPool → ℕ → Round
add_idle p c =
    if p.closed
    then halt p panics
    else if ltb (length p.conns) p.max_size
    then go_on (record p { conns = p.conns ++ c ∷ []; warmed_up = p.warmed_up + 1 }) 1
    else go_on (record p { semaphore = p.semaphore - 1 }) 0

unfoldable pub warm_round : Env → ManagedPool → ℕ → Round
unfolding add_idle
warm_round env p i =
    if env.ctx_done i
    then halt p (err err_context)
    else if ltb p.semaphore p.max_size
    then if env.factory p.next
      then add_idle
          (record p {
            heap = update p.heap p.next (fresh_conn env.now 0 true);
            next = suc p.next;
            semaphore = p.semaphore + 1;
          })
          p.next
      else halt (record p { warm_up_errs = p.warm_up_errs + 1 }) (err err_factory)
    else halt p (ok tt)

-- `rounds` is what the loop has left, `i` its index.
unfoldable pub warm_loop :
    Env → (rounds i created : ℕ) → ManagedPool → ManagedPool × ℕ × Outcome (Unit {0})
unfolding warm_round
warm_loop env zero i created p = (p, created, ok tt)
warm_loop env (suc rounds) i created p = elim (warm_round env p i) [
  | go_on q n ↦ warm_loop env rounds (suc i) (created + n) q
  | halt q o ↦ (q, created, o)
]

unfoldable pub warm_up : Env → ManagedPool → ManagedPool × ℕ × Outcome (Unit {0})
unfolding warm_loop
warm_up env p =
    if p.closed then (p, 0, err err_pool_closed) else warm_loop env (pos_part p.min_size) 0 0 p

unfoldable pub ensure_min_connections : Env → ManagedPool → ManagedPool × ℕ × Outcome (Unit {0})
unfolding warm_loop
ensure_min_connections env p =
    if leb (pos_part p.min_size) p.semaphore
    then (p, 0, ok tt)
    else warm_loop env (pos_part p.min_size - p.semaphore) 0 0 p

-- The fields Total, Idle and InUse of `Stats`.
unfoldable pub stats : ManagedPool → ℕ × ℕ × ℕ
stats p = (p.semaphore, length p.conns, p.semaphore - length p.conns)
