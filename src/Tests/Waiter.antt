-- ===== src/Tests/Waiter.antt =====
-- A goroutine that waits for the tasks 1 and 2, where 0 is the empty identifier.
use gocc.Prelude.{ℕ, ◌≡◌, refl, false, List, [], ◌∷◌, none, some, ℕ_discrete}
use gocc.Prelude.Dict.{lookup, insert}
use gocc.Scheduler.Waiter.{
  all_tasks, all_errors, is_completed, error_of, mark_complete, all_completed, collect_errors,
  wait_all_check, check, new_task_waiter,
}
use gocc.Scheduler.Waiter.Wakeups.{
  Event, asleep, returned, checks, sleeps, completes, broadcasts, start, step, run,
}
use gocc.Scheduler.Waiter.Wakeups.Delivery.{run-asleep-unmet}

-- Task 1 completes before the goroutine sleeps, and task 2 with an error while it sleeps.
abbrev both : List (Event ℕ ℕ)
both =
    completes 1 none
    ∷ broadcasts
    ∷ checks
    ∷ sleeps
    ∷ completes 2 (some 9)
    ∷ broadcasts
    ∷ checks
    ∷ []

both_returned :
    (run ℕ_discrete 0 (all_tasks (1 ∷ 2 ∷ [])) start both).phase
    ≡ returned (all_errors ((2, some 9) ∷ (1, none) ∷ []))
unfolding run step check wait_all_check all_completed collect_errors is_completed error_of
    mark_complete new_task_waiter lookup insert ℕ_discrete
both_returned = refl

-- The goroutine wakes for task 1, finds task 2 missing and sleeps again.
abbrev first_only : List (Event ℕ ℕ)
first_only = checks ∷ sleeps ∷ completes 1 none ∷ broadcasts ∷ checks ∷ sleeps ∷ []

first_only_sleeping :
    ((run ℕ_discrete 0 (all_tasks (1 ∷ 2 ∷ [])) start first_only).phase ≡ asleep)
    × ((run ℕ_discrete 0 (all_tasks (1 ∷ 2 ∷ [])) start first_only).signals ≡ 0)
unfolding run step check wait_all_check all_completed collect_errors is_completed error_of
    mark_complete new_task_waiter lookup insert ℕ_discrete
first_only_sleeping = (refl, refl)

run-asleep-unmet_example :
    check ℕ_discrete 0
      (all_tasks (1 ∷ 2 ∷ []))
      false
      (run ℕ_discrete 0 (all_tasks (1 ∷ 2 ∷ [])) start first_only).waiter
      none
    ≡ none
run-asleep-unmet_example =
    run-asleep-unmet ℕ_discrete 0 (all_tasks (1 ∷ 2 ∷ [])) first_only first_only_sleeping.0
      first_only_sleeping.1
