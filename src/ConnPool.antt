-- ===== src/ConnPool.antt =====
-- stage2/06-connection-pool/pool. What both pools share: errors, and the outcome of a call.
pub mod Managed
pub mod Basic
use gocc.Prelude.{ℕ, Bool}

pub data PoolError : Type 0 where
  err_pool_closed err_acquire_timeout err_invalid_conn err_factory err_context : PoolError

-- A call returns a value, returns an error, blocks on the idle channel, or panics.
pub data Outcome {ℓ} (A : Type ℓ) : Type ℓ where
  ok : A → Outcome A
  err : PoolError → Outcome A
  waiting : Outcome A
  panics : Outcome A

-- What a call reads from outside: the clock, `IsValid` of the connection at an address, whether
-- the factory succeeds when the next address is given, and whether the context is found done in
-- the round of a loop.
pub record Env : Type 0 where
  pub now : ℕ
  pub is_valid : ℕ → Bool
  pub factory : ℕ → Bool
  pub ctx_done : ℕ → Bool
