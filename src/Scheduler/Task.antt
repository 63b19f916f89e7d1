-- ===== src/Scheduler/Task.antt =====
-- scheduler/task.go: what a task is. The type parameters are the task identifiers, the floats and the
-- errors. A context is the flag that its cancel function sets.
use gocc.Prelude.{ℕ, ◌+◌, Bool, true, false, List, Option}
use gocc.Prelude.Int.{ℤ}
use gocc.Scheduler.Cron.{CronExpr}

-- The type of a task with the field that it uses: Delay, Interval or CronExpr.
pub data TaskType : Type 0 where
  once : ℤ → TaskType
  interval : ℤ → TaskType
  cron : CronExpr → TaskType

pub data TaskState : Type 0 where
  pending running completed cancelled failed : TaskState

pub record RetryConfig (F : Type 0) : Type 0 where
  pub max_retries : ℤ
  pub delay : ℤ
  pub max_delay : ℤ
  pub multiplier : F
  pub retry_count : ℤ
  pub next_retry_at : ℕ

pub record Task (K F E : Type 0) : Type 0 where
  pub id : K
  pub name : List ℕ
  pub task_type : TaskType
  pub retry : Option (RetryConfig F)
  pub depends_on : List K
  pub created_at : ℕ
  pub next_run_at : ℕ
  pub last_run_at : ℕ
  pub run_count : ℕ
  pub error_count : ℕ
  pub last_error : Option E
  pub state : TaskState
  pub is_cancelled : Bool

module _ {K F E : Type 0} where
  unfoldable pub set_state : TaskState → Task K F E → Task K F E
  set_state st t = record t { state = st }

  unfoldable pub increment_run_count : Task K F E → Task K F E
  increment_run_count t = record t { run_count = t.run_count + 1 }

  unfoldable pub increment_error_count : Task K F E → Task K F E
  increment_error_count t = record t { error_count = t.error_count + 1 }

  -- `Task.Cancel`; every scheduled task has a cancel function.
  unfoldable pub cancel_task : Task K F E → Task K F E
  cancel_task t = record t { is_cancelled = true; state = cancelled }

abbrev pub is_completed_state : TaskState → Bool
is_completed_state completed = true
is_completed_state pending = false
is_completed_state running = false
is_completed_state cancelled = false
is_completed_state failed = false
