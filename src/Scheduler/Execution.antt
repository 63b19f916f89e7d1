-- ===== src/Scheduler/Execution.antt =====
-- scheduler/scheduler.go: executeTask with its dependencies and retries, and the goroutines around it.
use gocc.Prelude.{
  ℕ, zero, suc, ◌+◌, Bool, true, false, ◌&&◌, ◌||◌, List, [], ◌∷◌, ◌++◌, Option, none, some, ltb,
  if◌then◌else◌, get_elem?,
}
use gocc.Prelude.Int.{ℤ, add_to, pos_part, is_pos, ltz, increment}
use gocc.Prelude.Dict.{lookup}
use gocc.Scheduler.Cron.{Calendar, next}
use gocc.Scheduler.Task.{
  TaskType, once, interval, cron, pending, running, completed, cancelled, RetryConfig, Task,
  set_state, increment_run_count, increment_error_count, is_completed_state,
}
use gocc.Scheduler.Engine.{in_select, in_func, gone, Routine, Scheduler, Floats, change, move}

module _ {F : Type 0} (floats : Floats F) where
  -- `for i := 1; i < task.Retry.RetryCount; i++`, by the number of rounds.
  unfoldable pub backoff : F → ℕ → ℤ → ℤ
  backoff m zero delay = delay
  backoff m (suc n) delay = backoff m n (floats.scale delay m)

  abbrev pub capped : ℤ → ℤ → ℤ
  capped max_delay delay =
      if is_pos max_delay && ltb (pos_part max_delay) (pos_part delay) then max_delay else delay

  -- The delay of the retry that follows `n` earlier ones.
  unfoldable pub retry_delay : RetryConfig F → ℕ → ℤ
  unfolding backoff
  retry_delay c n =
      capped c.max_delay
        (if floats.is_positive c.multiplier then backoff c.multiplier n c.delay else c.delay)

module _ {K F E : Type 0} (dec : Discrete K) (cal : Calendar) (floats : Floats F) where
  abbrev pub state_completed : Option (Task K F E) → Bool
  state_completed none = false
  state_completed (some t) = is_completed_state t.state

  -- One dependency: an identifier without a task counts as met.
  unfoldable pub is_met : Scheduler K F E → Option ℕ → Bool
  is_met s none = true
  is_met s (some p) = state_completed (get_elem? s.store p)

  unfoldable pub are_dependencies_met : Scheduler K F E → List K → Bool
  unfolding is_met
  are_dependencies_met s [] = true
  are_dependencies_met s (d ∷ ds) =
      if is_met s (lookup dec d s.tasks) then are_dependencies_met s ds else false

  -- What the goroutine does after executeTask.
  unfoldable pub after_type : ℕ → Scheduler K F E → ℕ → ℕ → TaskType → Scheduler K F E
  unfolding set_state
  after_type now s i p (once d) = record (move (change s p (set_state completed)) i gone) {
    total_completed = s.total_completed + 1;
  }
  after_type now s i p (interval d) =
      move (change s p (λ t. record t { next_run_at = add_to now d })) i in_select
  after_type now s i p (cron c) =
      move (change s p (λ t. record t { next_run_at = next cal c now })) i in_select

  unfoldable pub after_execute : ℕ → Scheduler K F E → ℕ → Routine → Task K F E → Scheduler K F E
  unfolding after_type
  after_execute now s i r t =
      if r.retrying then move s i gone else after_type now s i r.task t.task_type

  -- executeTask up to the call of the function, and past it when the dependencies are not met.
  unfoldable pub start_task :
      ℕ → Scheduler K F E → ℕ → Routine → Option (Task K F E) → Scheduler K F E
  unfolding are_dependencies_met after_execute set_state increment_run_count
  start_task now s i r none = s
  start_task now s i r (some t) =
      if are_dependencies_met s t.depends_on
      then move
          (change s r.task
            (λ u. record (increment_run_count (set_state running u)) { last_run_at = now }))
          i in_func
      else after_execute now s i r t

  -- `scheduleRetry`: the change of the task, and the new goroutine.
  unfoldable pub schedule_retry : ℕ → Scheduler K F E → ℕ → RetryConfig F → Scheduler K F E
  unfolding retry_delay
  schedule_retry now s p c =
      record (change s p (λ u. record u {
        retry = some (record c {
          retry_count = increment c.retry_count;
          next_retry_at = add_to now (retry_delay floats c (pos_part c.retry_count));
        });
        state = pending;
      })) { routines = s.routines ++ record { task = p; retrying = true; phase = in_select } ∷ [] }

  unfoldable pub handle_error : ℕ → Scheduler K F E → ℕ → Option (RetryConfig F) → Scheduler K F E
  unfolding schedule_retry
  handle_error now s p none = s
  handle_error now s p (some c) =
      if ltz c.retry_count c.max_retries then schedule_retry now s p c else s

  -- The rest of executeTask, once the function has returned.
  unfoldable pub record_result : ℕ → Scheduler K F E → ℕ → Task K F E → Option E → Scheduler K F E
  unfolding handle_error increment_error_count
  record_result now s p t none = change s p (λ u. record u { last_error = none })
  record_result now s p t (some e) =
      handle_error now
        (record (change s p (λ u. increment_error_count (record u { last_error = some e }))) {
          total_failed = s.total_failed + 1;
        })
        p t.retry

  unfoldable pub finish_task :
      ℕ → Scheduler K F E → ℕ → Routine → Option E → Option (Task K F E) → Scheduler K F E
  unfolding record_result after_execute
  finish_task now s i r err none = s
  finish_task now s i r err (some t) = after_execute now (record_result now s r.task t err) i r t

  -- `<-ctx.Done()`, which is ready when the task is cancelled or the scheduler closed.
  unfoldable pub end_context : Scheduler K F E → ℕ → Routine → Option (Task K F E) → Scheduler K F E
  unfolding set_state
  end_context s i r none = s
  end_context s i r (some t) =
      if t.is_cancelled || s.closed
      then if r.retrying then move s i gone else move (change s r.task (set_state cancelled)) i gone
      else s
