-- ===== src/Scheduler/Operations.antt =====
-- scheduler/scheduler.go: Cancel, Remove, Get and Close, and the runs of a scheduler.
use gocc.Prelude.{ℕ, true, List, [], ◌∷◌, Option, none, some, if◌then◌else◌, get_elem?}
use gocc.Prelude.Dict.{lookup, delete}
use gocc.Scheduler.Cron.{Calendar}
use gocc.Scheduler.Task.{cancel_task}
use gocc.Scheduler.Engine.{
  scheduler_closed, task_not_found, Phase, in_select, in_func, gone, crashed, Routine, Scheduler,
  Answer, refused, task_at, done, Floats, Event, schedules_once, schedules_interval, schedules_cron,
  configures, fires, finishes, context_ends, cancels, removes, closes, change, schedule_once,
  schedule_interval, schedule_cron,
}
use gocc.Scheduler.Execution.{start_task, finish_task, end_context}

abbrev pub found_at : Option ℕ → Answer
found_at none = refused task_not_found
found_at (some p) = task_at p

module _ {K F E : Type 0} (dec : Discrete K) where
  unfoldable pub cancel_at : Scheduler K F E → Option ℕ → Scheduler K F E × Answer
  unfolding cancel_task
  cancel_at s none = (s, refused task_not_found)
  cancel_at s (some p) = (change s p cancel_task, done)

  unfoldable pub cancel : Scheduler K F E → K → Scheduler K F E × Answer
  unfolding cancel_at
  cancel s id = cancel_at s (lookup dec id s.tasks)

  unfoldable pub remove_at : Scheduler K F E → K → Option ℕ → Scheduler K F E × Answer
  unfolding cancel_task
  remove_at s id none = (s, refused task_not_found)
  remove_at s id (some p) =
      (record (change s p cancel_task) { tasks = delete dec id s.tasks }, done)

  unfoldable pub remove : Scheduler K F E → K → Scheduler K F E × Answer
  unfolding remove_at
  remove s id = remove_at s id (lookup dec id s.tasks)

  unfoldable pub get : Scheduler K F E → K → Answer
  get s id = found_at (lookup dec id s.tasks)

module _ {K F E : Type 0} where
  -- The scheduler's own context ends with `closed`; waiting for the goroutines changes nothing.
  unfoldable pub close : Scheduler K F E → Scheduler K F E × Answer
  close s = if s.closed then (s, refused scheduler_closed) else (record s { closed = true }, done)

module _ {K F E : Type 0} (dec : Discrete K) (cal : Calendar) (floats : Floats F) where
  -- A goroutine in its select whose timer fires.
  unfoldable pub fire_in : ℕ → Scheduler K F E → ℕ → Routine → Phase → Scheduler K F E
  unfolding start_task
  fire_in now s i r in_select = start_task dec cal floats now s i r (get_elem? s.store r.task)
  fire_in now s i r in_func = s
  fire_in now s i r gone = s
  fire_in now s i r crashed = s

  unfoldable pub finish_in : ℕ → Scheduler K F E → ℕ → Option E → Routine → Phase → Scheduler K F E
  unfolding finish_task
  finish_in now s i err r in_func =
      finish_task dec cal floats now s i r err (get_elem? s.store r.task)
  finish_in now s i err r in_select = s
  finish_in now s i err r gone = s
  finish_in now s i err r crashed = s

  unfoldable pub end_in : Scheduler K F E → ℕ → Routine → Phase → Scheduler K F E
  unfolding end_context
  end_in s i r in_select = end_context dec cal floats s i r (get_elem? s.store r.task)
  end_in s i r in_func = s
  end_in s i r gone = s
  end_in s i r crashed = s

  -- What the routine at a place does, if there is one.
  abbrev pub of_routine :
      Scheduler K F E → Option Routine → (Routine → Scheduler K F E) → Scheduler K F E
  of_routine s none f = s
  of_routine s (some r) f = f r

  -- `configures` is the client's writing of the fields Retry and DependsOn of a task it was given.
  unfoldable pub step : Scheduler K F E → Event K F E → Scheduler K F E
  unfolding schedule_once schedule_interval schedule_cron fire_in finish_in end_in cancel remove
      close
  step s (schedules_once now id name delay) = (schedule_once dec cal now s id name delay).0
  step s (schedules_interval now id name d) = (schedule_interval dec cal now s id name d).0
  step s (schedules_cron now id name expr) = (schedule_cron dec cal now s id name expr).0
  step s (configures p retry deps) = change s p (λ t. record t { retry = retry; depends_on = deps })
  step s (fires now i) = of_routine s (get_elem? s.routines i) (λ r. fire_in now s i r r.phase)
  step s (finishes now i err) =
      of_routine s (get_elem? s.routines i) (λ r. finish_in now s i err r r.phase)
  step s (context_ends i) = of_routine s (get_elem? s.routines i) (λ r. end_in s i r r.phase)
  step s (cancels id) = (cancel dec s id).0
  step s (removes id) = (remove dec s id).0
  step s closes = (close s).0

  unfoldable pub run : Scheduler K F E → List (Event K F E) → Scheduler K F E
  unfolding step
  run s [] = s
  run s (e ∷ es) = run (step s e) es
