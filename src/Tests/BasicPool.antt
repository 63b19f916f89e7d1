-- ===== src/Tests/BasicPool.antt =====
-- A pool of two connections whose factory works.
use gocc.Prelude.{◌≡◌, refl, true, false, Bool, [], ◌∷◌}
use gocc.Prelude.Int.{pos}
use gocc.ConnPool.{Env, ok, waiting, panics}
use gocc.ConnPool.Basic.{
  Config, new_pool, try_create, acquire_from, acquire, acquire_wait_on, acquire_wait, release,
  close, acquiring, releasing, closing, step, run, use_times,
}
use gocc.ConnPool.Basic.Slots.{lost_slots-block}

abbrev two : Config
two = record { max_size = pos 2; max_idle_time = pos 0 }

abbrev env_with : Bool → Env
env_with valid = record {
  now = 5;
  is_valid = λ _. valid;
  factory = λ _. true;
  ctx_done = λ _. false;
}

-- The connection that was released is handed out again.
reuse :
    (acquire
      (env_with true)
      (run (new_pool two) (acquiring (env_with true) ∷ releasing (env_with true) 0 ∷ []))).1
    ≡ ok 0
unfolding acquire acquire_from try_create run step release new_pool
reuse = refl

-- A goroutine that waits while the pool is closed calls IsValid on nil.
wait_after_close :
    (acquire_wait (env_with true) false (run (new_pool two) (closing ∷ []))).1 ≡ panics
unfolding acquire_wait acquire_wait_on run step close new_pool
wait_after_close = refl

lost_slots-block_example :
    let p = use_times 2 (env_with true) (env_with false) (new_pool two) in
    (p.conns ≡ [])
    × ((acquire (env_with true) p).1 ≡ waiting)
    × (acquire_wait (env_with true) false p ≡ (p, waiting))
lost_slots-block_example =
    lost_slots-block (env_with true) (env_with false) (λ _. refl) (λ _. refl) two (env_with true)
