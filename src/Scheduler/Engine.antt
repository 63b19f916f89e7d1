-- ===== src/Scheduler/Engine.antt =====
-- scheduler/scheduler.go: Scheduler. A task is its place in `store`, in the order of their creation;
-- `routines` are the goroutines that run tasks. A method is one step, and so is what a goroutine does
-- from its select to the call of the task's function, and from there to its next select. The clock,
-- the calendar and the floats' arithmetic are arguments, and the events say which timer fires.
use gocc.Prelude.{
  ℕ, ◌+◌, Bool, false, List, [], ◌∷◌, ◌++◌, Option, none, some, if◌then◌else◌, length, modify,
}
use gocc.Prelude.Int.{ℤ, add_to, is_pos}
use gocc.Prelude.Dict.{Dict, lookup, insert}
use gocc.Scheduler.Cron.{Calendar, CronExpr, parse_cron, next}
use gocc.Scheduler.Task.{TaskType, once, interval, cron, pending, RetryConfig, Task}

pub data SchedulerError : Type 0 where
  scheduler_closed task_not_found task_exists invalid_cron : SchedulerError

-- In its select, in the task's function, returned, and stopped by a panic.
pub data Phase : Type 0 where
  in_select in_func gone crashed : Phase

pub record Routine : Type 0 where
  pub task : ℕ
  pub retrying : Bool
  pub phase : Phase

pub record Scheduler (K F E : Type 0) : Type 0 where
  pub tasks : Dict K ℕ
  pub store : List (Task K F E)
  pub routines : List Routine
  pub closed : Bool
  pub total_scheduled : ℕ
  pub total_completed : ℕ
  pub total_failed : ℕ

-- What a method answers.
pub data Answer : Type 0 where
  refused : SchedulerError → Answer
  task_at : ℕ → Answer
  done : Answer

-- The arithmetic of the back-off: the test `> 0`, and `time.Duration(float64(delay) * multiplier)`.
pub record Floats (F : Type 0) : Type 0 where
  pub is_positive : F → Bool
  pub scale : ℤ → F → ℤ

pub data Event (K F E : Type 0) : Type 0 where
  schedules_once schedules_interval : ℕ → K → List ℕ → ℤ → Event K F E
  schedules_cron : ℕ → K → List ℕ → List ℕ → Event K F E
  configures : ℕ → Option (RetryConfig F) → List K → Event K F E
  fires : ℕ → ℕ → Event K F E
  finishes : ℕ → ℕ → Option E → Event K F E
  context_ends : ℕ → Event K F E
  cancels : K → Event K F E
  removes : K → Event K F E
  closes : Event K F E

abbrev pub in_phase : Phase → Routine → Routine
in_phase ph r = record r { phase = ph }

-- ScheduleInterval's goroutine starts with time.NewTicker, which panics unless the interval is positive.
abbrev pub ticker_phase : ℤ → Phase
ticker_phase d = if is_pos d then in_select else crashed

abbrev pub type_phase : TaskType → Phase
type_phase (once d) = in_select
type_phase (interval d) = ticker_phase d
type_phase (cron c) = in_select

module _ {K F E : Type 0} where
  unfoldable pub new : Scheduler K F E
  new = record {
    tasks = [];
    store = [];
    routines = [];
    closed = false;
    total_scheduled = 0;
    total_completed = 0;
    total_failed = 0;
  }

  abbrev pub fresh_task : ℕ → K → List ℕ → TaskType → ℕ → Task K F E
  fresh_task now id name type next_run = record {
    id = id;
    name = name;
    task_type = type;
    retry = none;
    depends_on = [];
    created_at = now;
    next_run_at = next_run;
    last_run_at = 0;
    run_count = 0;
    error_count = 0;
    last_error = none;
    state = pending;
    is_cancelled = false;
  }

  abbrev pub change : Scheduler K F E → ℕ → (Task K F E → Task K F E) → Scheduler K F E
  change s p f = record s { store = modify s.store p f }

  abbrev pub move : Scheduler K F E → ℕ → Phase → Scheduler K F E
  move s i ph = record s { routines = modify s.routines i (in_phase ph) }

module _ {K F E : Type 0} (dec : Discrete K) (cal : Calendar) where
  -- The three Schedule methods from the lookup of the identifier.
  unfoldable pub add_at :
      Scheduler K F E → ℕ → K → List ℕ → TaskType → ℕ → Option ℕ → Scheduler K F E × Answer
  add_at s now id name type next_run (some p) = (s, refused task_exists)
  add_at s now id name type next_run none = (
    record s {
      tasks = insert dec id (length s.store) s.tasks;
      store = s.store ++ fresh_task now id name type next_run ∷ [];
      routines =
          s.routines
          ++ record { task = length s.store; retrying = false; phase = type_phase type } ∷ [];
      total_scheduled = s.total_scheduled + 1;
    },
    task_at (length s.store),
  )

  unfoldable pub schedule_once : ℕ → Scheduler K F E → K → List ℕ → ℤ → Scheduler K F E × Answer
  unfolding add_at
  schedule_once now s id name delay =
      if s.closed
      then (s, refused scheduler_closed)
      else add_at s now id name (once delay) (add_to now delay) (lookup dec id s.tasks)

  unfoldable pub schedule_interval : ℕ → Scheduler K F E → K → List ℕ → ℤ → Scheduler K F E × Answer
  unfolding add_at
  schedule_interval now s id name d =
      if s.closed
      then (s, refused scheduler_closed)
      else add_at s now id name (interval d) (add_to now d) (lookup dec id s.tasks)

  unfoldable pub schedule_cron_at :
      ℕ → Scheduler K F E → K → List ℕ → Option CronExpr → Scheduler K F E × Answer
  unfolding add_at
  schedule_cron_at now s id name none = (s, refused invalid_cron)
  schedule_cron_at now s id name (some c) =
      add_at s now id name (cron c) (next cal c now) (lookup dec id s.tasks)

  unfoldable pub schedule_cron :
      ℕ → Scheduler K F E → K → List ℕ → List ℕ → Scheduler K F E × Answer
  unfolding schedule_cron_at
  schedule_cron now s id name expr =
      if s.closed
      then (s, refused scheduler_closed)
      else schedule_cron_at now s id name (parse_cron expr)
