-- ===== src/Scheduler/Waiter.antt =====
-- scheduler/waiter.go: TaskWaiter. `completed` and `errors` are the two maps, where an error that is
-- nil is `none`. What a waiting goroutine does between two sleeps is one step, a check; the file
-- Waiter/Wakeups.antt has the goroutines and the condition variable.
pub mod Wakeups
use gocc.Prelude.{ℕ, Bool, true, false, List, [], ◌∷◌, Option, none, some, if◌then◌else◌}
use gocc.Prelude.Dict.{Dict, lookup, insert, delete}

pub record TaskWaiter (K E : Type 0) : Type 0 where
  pub completed : Dict K Bool
  pub errors : Dict K (Option E)

module _ {K E : Type 0} where
  unfoldable pub new_task_waiter : TaskWaiter K E
  new_task_waiter = record { completed = []; errors = [] }

-- `m[k]` of a Go map whose zero value is `d`
abbrev pub or_zero : {A : Type 0} → A → Option A → A
or_zero d none = d
or_zero d (some a) = a

-- Which of the three calls waits, and what it returns.
pub data Wanted (K : Type 0) : Type 0 where
  one_task : K → Wanted K
  any_task : List K → Wanted K
  all_tasks : List K → Wanted K

pub data WaitResult (K E : Type 0) : Type 0 where
  error_only : Option E → WaitResult K E
  task_error : K → Option E → WaitResult K E
  all_errors : Dict K (Option E) → WaitResult K E

-- `ctx.Err()` is `none` until the context is done.
module _ {K E : Type 0} (dec : Discrete K) where
  unfoldable pub is_completed : TaskWaiter K E → K → Bool
  is_completed tw id = or_zero false (lookup dec id tw.completed)

  unfoldable pub error_of : TaskWaiter K E → K → Option E
  error_of tw id = or_zero none (lookup dec id tw.errors)

  unfoldable pub mark_complete : TaskWaiter K E → K → Option E → TaskWaiter K E
  mark_complete tw id error = record {
    completed = insert dec id true tw.completed;
    errors = insert dec id error tw.errors;
  }

  unfoldable pub reset : TaskWaiter K E → K → TaskWaiter K E
  reset tw id = record { completed = delete dec id tw.completed; errors = delete dec id tw.errors }

  -- The tests of Wait.
  unfoldable pub wait_check : K → TaskWaiter K E → Option E → Option (WaitResult K E)
  unfolding is_completed error_of
  wait_check id tw ctx_err =
      if is_completed tw id
      then some (error_only (error_of tw id))
      else elim ctx_err [ none ↦ none | some e ↦ some (error_only (some e)) ]

  -- The first of the tasks that is completed, with its error.
  unfoldable pub first_completed : TaskWaiter K E → List K → Option (WaitResult K E)
  unfolding is_completed error_of
  first_completed tw [] = none
  first_completed tw (id ∷ ids) =
      if is_completed tw id then some (task_error id (error_of tw id)) else first_completed tw ids

  -- The loop of WaitAny; `empty` is the empty identifier.
  unfoldable pub wait_any_loop : K → List K → TaskWaiter K E → Option E → Option (WaitResult K E)
  unfolding first_completed
  wait_any_loop empty ids tw (some e) = some (task_error empty (some e))
  wait_any_loop empty ids tw none = first_completed tw ids

  -- `first` says that the call has not slept: it looks for a task before it looks at the context.
  unfoldable pub wait_any_check :
      K → Bool → List K → TaskWaiter K E → Option E → Option (WaitResult K E)
  unfolding wait_any_loop first_completed
  wait_any_check empty false ids tw ctx_err = wait_any_loop empty ids tw ctx_err
  wait_any_check empty true ids tw ctx_err = elim (first_completed tw ids) [
    | none ↦ wait_any_loop empty ids tw ctx_err
    | some r ↦ some r
  ]

  unfoldable pub all_completed : TaskWaiter K E → List K → Bool
  unfolding is_completed
  all_completed tw [] = true
  all_completed tw (id ∷ ids) = if is_completed tw id then all_completed tw ids else false

  unfoldable pub collect_errors : TaskWaiter K E → List K → Dict K (Option E) → Dict K (Option E)
  unfolding error_of
  collect_errors tw [] results = results
  collect_errors tw (id ∷ ids) results =
      collect_errors tw ids (insert dec id (error_of tw id) results)

  -- The loop of WaitAll.
  unfoldable pub wait_all_check : K → List K → TaskWaiter K E → Option E → Option (WaitResult K E)
  unfolding all_completed collect_errors
  wait_all_check empty ids tw (some e) = some (all_errors ((empty, some e) ∷ []))
  wait_all_check empty ids tw none =
      if all_completed tw ids then some (all_errors (collect_errors tw ids [])) else none

  unfoldable pub check : K → Wanted K → Bool → TaskWaiter K E → Option E → Option (WaitResult K E)
  unfolding wait_check wait_any_check wait_all_check
  check empty (one_task id) first tw ctx_err = wait_check id tw ctx_err
  check empty (any_task ids) first tw ctx_err = wait_any_check empty first ids tw ctx_err
  check empty (all_tasks ids) first tw ctx_err = wait_all_check empty ids tw ctx_err
