-- ===== src/ConnPool/Basic.antt =====
-- pool/pool.go: Pool. A Conn is the address at which the factory made it; `conns` is the channel of
-- idle connections, oldest first, and `semaphore` the number of tokens in that channel. A method is
-- one step; Acquire stops at its last select as `waiting`, and `acquire_wait` resumes it. A receive
-- from the empty semaphore blocks for good, which is `waiting` too.
pub mod Slots
use gocc.Prelude.{
  ℕ, zero, suc, ◌+◌, ◌-◌, Bool, true, false, List, [], ◌∷◌, ◌++◌, ltb, ◌==◌, if◌then◌else◌, length,
}
use gocc.Prelude.Int.{ℤ, pos_part, is_pos}
use gocc.ConnPool.{
  Env, Outcome, ok, err, waiting, panics, err_pool_closed, err_acquire_timeout, err_invalid_conn,
  err_factory,
}

pub record Config : Type 0 where
  pub max_size : ℤ
  pub max_idle_time : ℤ

-- `next` is the address of the next connection that the factory makes.
pub record Pool : Type 0 where
  pub next : ℕ
  pub conns : List ℕ
  pub semaphore : ℕ
  pub closed : Bool
  pub max_size : ℕ
  pub max_idle_time : ℤ
  pub acquired : ℕ
  pub released : ℕ
  pub destroyed : ℕ

unfoldable pub new_pool : Config → Pool
new_pool config = record {
  next = 0;
  conns = [];
  semaphore = 0;
  closed = false;
  max_size = if is_pos config.max_size then pos_part config.max_size else 10;
  max_idle_time = config.max_idle_time;
  acquired = 0;
  released = 0;
  destroyed = 0;
}

-- The second select of Acquire.
unfoldable pub try_create : Env → Pool → Pool × Outcome ℕ
try_create env p =
    if ltb p.semaphore p.max_size
    then if env.factory p.next
      then (
        record p { next = suc p.next; semaphore = p.semaphore + 1; acquired = p.acquired + 1 },
        ok p.next,
      )
      else (p, err err_factory)
    else (p, waiting)

-- Acquire over the connections that the channel holds; the retry goes on with the rest.
unfoldable pub acquire_from : Env → Pool → List ℕ → Pool × Outcome ℕ
unfolding try_create
acquire_from env p [] = if p.closed then (p, err err_pool_closed) else try_create env p
acquire_from env p (c ∷ rest) =
    let again =
      acquire_from env
        (record p { conns = rest; destroyed = p.destroyed + 1; semaphore = p.semaphore - 1 })
        rest in
    if p.closed
    then (p, err err_pool_closed)
    else if env.is_valid c
    then (record p { conns = rest; acquired = p.acquired + 1 }, ok c)
    else if p.semaphore == 0
    then (record p { conns = rest; destroyed = p.destroyed + 1 }, waiting)
    else again

unfoldable pub acquire : Env → Pool → Pool × Outcome ℕ
unfolding acquire_from
acquire env p = acquire_from env p p.conns

-- The last select of Acquire: `cancelled` says that the context's case is taken. A receive from a
-- closed, empty channel yields nil, on which IsValid is called.
unfoldable pub acquire_wait_on : Env → Pool → Bool → List ℕ → Pool × Outcome ℕ
unfolding acquire
acquire_wait_on env p true conns = (p, err err_acquire_timeout)
acquire_wait_on env p false [] = (p, if p.closed then panics else waiting)
acquire_wait_on env p false (c ∷ rest) =
    if env.is_valid c
    then (record p { conns = rest; acquired = p.acquired + 1 }, ok c)
    else if p.semaphore == 0
    then (record p { conns = rest; destroyed = p.destroyed + 1 }, waiting)
    else acquire env
        (record p { conns = rest; destroyed = p.destroyed + 1; semaphore = p.semaphore - 1 })

unfoldable pub acquire_wait : Env → Bool → Pool → Pool × Outcome ℕ
unfolding acquire_wait_on
acquire_wait env cancelled p = acquire_wait_on env p cancelled p.conns

-- Release of a connection that is not nil.
unfoldable pub release : Env → Pool → ℕ → Pool × Outcome (Unit {0})
release env p c =
    if p.closed
    then (record p { destroyed = p.destroyed + 1 }, err err_pool_closed)
    else if env.is_valid c
    then if ltb (length p.conns) p.max_size
      then (record p { conns = p.conns ++ c ∷ []; released = p.released + 1 }, ok tt)
      else (record p { destroyed = p.destroyed + 1 }, ok tt)
    else (record p { destroyed = p.destroyed + 1 }, err err_invalid_conn)

unfoldable pub close : Pool → Pool × Outcome (Unit {0})
close p =
    if p.closed
    then (p, err err_pool_closed)
    else (record p { closed = true; conns = []; destroyed = p.destroyed + length p.conns }, ok tt)

pub data Step : Type 0 where
  acquiring : Env → Step
  waiting_on : Env → Bool → Step
  releasing : Env → ℕ → Step
  closing : Step

unfoldable pub step : Pool → Step → Pool
unfolding acquire acquire_wait release close
step p (acquiring env) = (acquire env p).0
step p (waiting_on env cancelled) = (acquire_wait env cancelled p).0
step p (releasing env c) = (release env p c).0
step p closing = (close p).0

unfoldable pub run : Pool → List Step → Pool
unfolding step
run p [] = p
run p (s ∷ ss) = run (step p s) ss

-- A client that acquires a connection and, if it gets one, releases it.
unfoldable pub release_after : Env → Pool × Outcome ℕ → Pool
unfolding release
release_after env (p, ok c) = (release env p c).0
release_after env (p, err e) = p
release_after env (p, waiting) = p
release_after env (p, panics) = p

unfoldable pub use_once : Env → Env → Pool → Pool
unfolding acquire release_after
use_once before after p = release_after after (acquire before p)

unfoldable pub use_times : ℕ → Env → Env → Pool → Pool
unfolding use_once
use_times zero before after p = p
use_times (suc n) before after p = use_times n before after (use_once before after p)
