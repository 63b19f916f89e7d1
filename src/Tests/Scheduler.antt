-- ===== src/Tests/Scheduler.antt =====
-- A scheduler whose floats are whole numbers and whose tasks have numbers for identifiers.
use gocc.Prelude.{
  ℕ, ◌+◌, ◌*◌, ◌≤◌, ◌≡◌, refl, false, List, [], ◌∷◌, none, some, ltb, length, get_elem?, total,
  arith, ℕ_discrete,
}
use gocc.Prelude.Int.{pos, negsuc, pos_part}
use gocc.Prelude.Dict.{lookup, insert}
use gocc.Scheduler.Cron.{Calendar}
use gocc.Scheduler.Task.{
  pending, running, completed, once, RetryConfig, Task, set_state, increment_run_count,
  increment_error_count,
}
use gocc.Scheduler.Engine.{
  Event, Floats, Scheduler, schedules_once, configures, fires, finishes, refused, task_at,
  task_exists, task_not_found, done, new, fresh_task, add_at, schedule_once,
}
use gocc.Scheduler.Execution.{
  is_met, are_dependencies_met, after_type, after_execute, start_task, backoff, retry_delay,
  schedule_retry, handle_error, record_result, finish_task,
}
use gocc.Scheduler.Operations.{get, remove, fire_in, finish_in, step, run}
use gocc.Scheduler.Accounts.{run_count_of, error_count_of}
use gocc.Scheduler.Accounts.Steps.{granted}
use gocc.Scheduler.Accounts.Runs.{totals-agree, once-budget}
use gocc.Scheduler.Registry.{schedule_once-get}

abbrev stopped : Calendar
stopped = record {
  second_of = λ t. 0;
  minute_of = λ t. 0;
  hour_of = λ t. 0;
  day_of = λ t. 1;
  month_of = λ t. 1;
  weekday_of = λ t. 0;
}

abbrev whole : Floats ℕ
whole = record { is_positive = λ m. ltb 0 m; scale = λ d m. pos (pos_part d * m) }

abbrev two_retries : RetryConfig ℕ
two_retries = record {
  max_retries = pos 2;
  delay = pos 10;
  max_delay = pos 15;
  multiplier = 2;
  retry_count = pos 0;
  next_retry_at = 0;
}

-- Task 7 fails, fails again after 10 nanoseconds, and succeeds after another 15.
abbrev with_retries : List (Event ℕ ℕ ℕ)
with_retries =
    schedules_once 0 7 [] (pos 5)
    ∷ configures 0 (some two_retries) []
    ∷ fires 5 0
    ∷ finishes 6 0 (some 9)
    ∷ fires 16 1
    ∷ finishes 17 1 (some 9)
    ∷ fires 32 2
    ∷ finishes 33 2 none
    ∷ []

-- Its state is then still that of a running task.
abbrev retried : Task ℕ ℕ ℕ
retried = record {
  id = 7;
  name = [];
  task_type = once (pos 5);
  retry = some (record two_retries { retry_count = pos 2; next_retry_at = 32 });
  depends_on = [];
  created_at = 0;
  next_run_at = 5;
  last_run_at = 32;
  run_count = 3;
  error_count = 2;
  last_error = none;
  state = running;
  is_cancelled = false;
}

with_retries_task : get_elem? (run ℕ_discrete stopped whole new with_retries).store 0 ≡ some retried
unfolding run step schedule_once add_at fire_in finish_in start_task finish_task record_result
    handle_error schedule_retry retry_delay backoff after_execute after_type are_dependencies_met
    set_state increment_run_count increment_error_count new lookup insert ℕ_discrete
with_retries_task = refl

-- Task 8 depends on task 7, which is still pending when the timer of task 8 fires.
abbrev dependent : List (Event ℕ ℕ ℕ)
dependent =
    schedules_once 0 7 [] (pos 50)
    ∷ schedules_once 0 8 [] (pos 5)
    ∷ configures 1 none (7 ∷ [])
    ∷ fires 5 1
    ∷ []

dependent_skipped :
    get_elem? (run ℕ_discrete stopped whole new dependent).store 1
    ≡ some (record (fresh_task 0 8 [] (once (pos 5)) 5) { depends_on = 7 ∷ []; state = completed })
unfolding run step schedule_once add_at fire_in start_task after_execute after_type is_met
    are_dependencies_met set_state new lookup insert ℕ_discrete
dependent_skipped = refl

-- A retry count of -2 allows two retries more than the limit of 3.
negative_count :
    granted {K = ℕ} {E = ℕ} 0
      (configures 0 (some (record two_retries { max_retries = pos 3; retry_count = negsuc 1 })) [])
    ≡ 5
negative_count = refl

totals-agree_example :
    ((run ℕ_discrete stopped whole new with_retries).total_scheduled
      ≡ length (run ℕ_discrete stopped whole new with_retries).store)
    × ((run ℕ_discrete stopped whole new with_retries).total_failed
        ≡ total error_count_of (run ℕ_discrete stopped whole new with_retries).store)
    × ((run ℕ_discrete stopped whole new with_retries).total_failed
        ≤ total run_count_of (run ℕ_discrete stopped whole new with_retries).store)
totals-agree_example = totals-agree ℕ_discrete stopped whole with_retries

once-budget_example : 3 ≤ 1 + total (granted 0) with_retries
once-budget_example =
    once-budget ℕ_discrete stopped whole with_retries 0 retried (pos 5) with_retries_task refl

abbrev empty : Scheduler ℕ ℕ ℕ
unfolding new
empty = new

schedule_once-get_example :
    ((schedule_once ℕ_discrete stopped 3 empty 7 (b'n' ∷ []) (pos 5)).1 ≡ task_at 0)
    × (get ℕ_discrete (schedule_once ℕ_discrete stopped 3 empty 7 (b'n' ∷ []) (pos 5)).0 7
        ≡ task_at 0)
    × (get_elem? (schedule_once ℕ_discrete stopped 3 empty 7 (b'n' ∷ []) (pos 5)).0.store 0
        ≡ some (record {
          id = 7;
          name = b'n' ∷ [];
          task_type = once (pos 5);
          retry = none;
          depends_on = [];
          created_at = 3;
          next_run_at = 8;
          last_run_at = 0;
          run_count = 0;
          error_count = 0;
          last_error = none;
          state = pending;
          is_cancelled = false;
        }))
    × (get ℕ_discrete (schedule_once ℕ_discrete stopped 3 empty 7 (b'n' ∷ []) (pos 5)).0 6
        ≡ get ℕ_discrete empty 6)
    × (schedule_once ℕ_discrete stopped 4
          (schedule_once ℕ_discrete stopped 3 empty 7 (b'n' ∷ []) (pos 5)).0
          7
          []
          (pos 1)
        ≡ ((schedule_once ℕ_discrete stopped 3 empty 7 (b'n' ∷ []) (pos 5)).0, refused task_exists))
    × ((remove ℕ_discrete (schedule_once ℕ_discrete stopped 3 empty 7 (b'n' ∷ []) (pos 5)).0 7).1
        ≡ done)
    × (get ℕ_discrete
          (remove ℕ_discrete (schedule_once ℕ_discrete stopped 3 empty 7 (b'n' ∷ []) (pos 5)).0 7).0
          7
        ≡ refused task_not_found)
    × (get ℕ_discrete
          (remove ℕ_discrete (schedule_once ℕ_discrete stopped 3 empty 7 (b'n' ∷ []) (pos 5)).0 7).0
          6
        ≡ get ℕ_discrete empty 6)
unfolding get lookup empty
schedule_once-get_example =
    schedule_once-get ℕ_discrete stopped empty 7 3 (b'n' ∷ []) (pos 5) 4 [] (pos 1) 6
      (λ e. omega (arith, e)) refl refl
