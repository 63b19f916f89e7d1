-- ===== src/Scheduler/Accounts/Steps.antt =====
-- What each step of a scheduler does to the counters.
use gocc.Prelude.{
  ℕ, ◌+◌, ◌≤◌, ◌≡◌, ◌≢◌, inl, inr, refl, List, Option, none, some, ◌==◌, if◌then◌else◌, get_elem?,
  total, at_some, length-modify, total-modify_same, arith, if_cases,
}
use gocc.Prelude.Int.{excess}
use gocc.Prelude.Dict.{lookup}
use gocc.Scheduler.Cron.{Calendar}
use gocc.Scheduler.Task.{RetryConfig, Task, cancel_task}
use gocc.Scheduler.Engine.{
  Answer, Phase, in_select, in_func, gone, crashed, Routine, Scheduler, Floats, Event,
  schedules_once, schedules_interval, schedules_cron, configures, fires, finishes, context_ends,
  cancels, removes, closes, change,
}
use gocc.Scheduler.Operations.{
  cancel_at, cancel, remove_at, remove, close, of_routine, fire_in, finish_in, end_in, step,
}
use gocc.Scheduler.Accounts.{waits, run_count_of, error_count_of, Budget, IsSound, Budget-modify}
use gocc.Scheduler.Accounts.Moves.{change-IsSound}
use gocc.Scheduler.Accounts.Execution.{start_task-IsSound}
use gocc.Scheduler.Accounts.Results.{finish_task-IsSound, end_context-IsSound}
use gocc.Scheduler.Accounts.Adding.{
  schedule_once-IsSound, schedule_interval-IsSound, schedule_cron-IsSound,
}

-- The retries that an event grants to the task at `p`.
abbrev pub granted : {K F E : Type 0} → ℕ → Event K F E → ℕ
granted p (configures q (some c) deps) = if q == p then excess c.max_retries c.retry_count else 0
granted p (configures q none deps) = 0
granted p (schedules_once now id name d) = 0
granted p (schedules_interval now id name d) = 0
granted p (schedules_cron now id name expr) = 0
granted p (fires now i) = 0
granted p (finishes now i err) = 0
granted p (context_ends i) = 0
granted p (cancels id) = 0
granted p (removes id) = 0
granted p closes = 0

module _ {K F E : Type 0} (p : ℕ) where
  pub IsSound-grant : (g g' : ℕ) (s : Scheduler K F E) → g ≤ g' → IsSound p g 0 s → IsSound p g' 0 s
  IsSound-grant g g' s le h = record {
    scheduled = h.scheduled;
    counted = h.counted;
    runs = h.runs;
    budget = more (get_elem? s.store p) h.budget;
  }
    where
      more :
          (o : Option (Task K F E))
          → Budget g o (total (waits p) s.routines)
          → Budget g' o (total (waits p) s.routines)
      more none b = b
      more (some t) (inl b) = inl b
      more (some t) (inr b) = inr (omega arith)

  -- The client's new retry configuration.
  configures-IsSound :
      (g q : ℕ) (s : Scheduler K F E) (c : Option (RetryConfig F)) (deps : List K)
      → IsSound p g 0 s
      → IsSound p
          (granted {K = K} {F = F} {E = E} p (configures q c deps) + g)
          0
          (change s q (λ t. record t { retry = c; depends_on = deps }))
  configures-IsSound g q s c deps h =
      let f : Task K F E → Task K F E = λ t. record t { retry = c; depends_on = deps } in
      let runs = total-modify_same run_count_of s.store q f λ u. refl in
      let errors = total-modify_same error_count_of s.store q f λ u. refl in
      record {
        scheduled = omega (arith, h.scheduled, length-modify s.store q f);
        counted = omega (arith, h.counted, errors);
        runs = omega (arith, h.runs, runs, errors);
        budget =
            Budget-modify p g _ _ _ q f s.store h.budget (λ o _ e. own c o e)
              (λ o ne. other c o ne);
      }
    where
      own :
          (c : Option (RetryConfig F)) (o : Option (Task K F E))
          → q ≡ p
          → Budget g o (total (waits p) s.routines)
          → Budget
              (granted {K = K} {F = F} {E = E} p (configures q c deps) + g)
              (at_some (λ t. record t { retry = c; depends_on = deps }) o)
              (total (waits p) s.routines)
      own c none e b = b
      own c (some t) e (inl b) = inl b
      own none (some t) e (inr b) = inr (omega (arith, b))
      own (some c) (some t) e (inr b) = inr (ground (arith, b, e))

      other :
          (c : Option (RetryConfig F)) (o : Option (Task K F E))
          → q ≢ p
          → Budget g o (total (waits p) s.routines)
          → Budget
              (granted {K = K} {F = F} {E = E} p (configures q c deps) + g)
              o
              (total (waits p) s.routines)
      other c none ne b = b
      other c (some t) ne (inl b) = inl b
      other c (some t) ne (inr b) = inr (omega (arith, b))

  module _ (dec : Discrete K) (cal : Calendar) (floats : Floats F) (g : ℕ) (s : Scheduler K F E)
      (h : IsSound p g 0 s) where
    cancel_at-IsSound : (o : Option ℕ) → IsSound p g 0 (cancel_at dec s o).0
    unfolding cancel_at cancel_task
    cancel_at-IsSound none = h
    cancel_at-IsSound (some q) =
        change-IsSound p g 0 s q cancel_task (λ u. (refl, refl, refl, refl)) h

    remove_at-IsSound : (id : K) (o : Option ℕ) → IsSound p g 0 (remove_at dec s id o).0
    unfolding remove_at cancel_task
    remove_at-IsSound id none = h
    remove_at-IsSound id (some q) =
        let h' = change-IsSound p g 0 s q cancel_task (λ u. (refl, refl, refl, refl)) h in
        record {
          scheduled = h'.scheduled;
          counted = h'.counted;
          runs = h'.runs;
          budget = h'.budget;
        }

    close-IsSound : IsSound p g 0 (close s).0
    unfolding close
    close-IsSound =
        if_cases (λ (x : Scheduler K F E × Answer). IsSound p g 0 x.0) s.closed _ _ (λ _. h)
          (λ _. record {
            scheduled = h.scheduled;
            counted = h.counted;
            runs = h.runs;
            budget = h.budget;
          })

    of_routine-IsSound :
        (i : ℕ) (o : Option Routine) (f : Routine → Scheduler K F E)
        → get_elem? s.routines i ≡ o
        → ((r : Routine) → get_elem? s.routines i ≡ some r → IsSound p g 0 (f r))
        → IsSound p g 0 (of_routine dec cal floats s o f)
    of_routine-IsSound i none f at each = h
    of_routine-IsSound i (some r) f at each = each r at

    fire_in-IsSound :
        (now i : ℕ) (r : Routine) (ph : Phase)
        → get_elem? s.routines i ≡ some r
        → r.phase ≡ ph
        → IsSound p g 0 (fire_in dec cal floats now s i r ph)
    unfolding fire_in
    fire_in-IsSound now i r in_select at e =
        start_task-IsSound p g dec cal floats now s i r (get_elem? s.store r.task) at refl e h
    fire_in-IsSound now i r in_func at e = h
    fire_in-IsSound now i r gone at e = h
    fire_in-IsSound now i r crashed at e = h

    finish_in-IsSound :
        (now i : ℕ) (err : Option E) (r : Routine) (ph : Phase)
        → get_elem? s.routines i ≡ some r
        → r.phase ≡ ph
        → IsSound p g 0 (finish_in dec cal floats now s i err r ph)
    unfolding finish_in
    finish_in-IsSound now i err r in_func at e =
        finish_task-IsSound p g dec cal floats now s i r err (get_elem? s.store r.task) at refl e h
    finish_in-IsSound now i err r in_select at e = h
    finish_in-IsSound now i err r gone at e = h
    finish_in-IsSound now i err r crashed at e = h

    end_in-IsSound :
        (i : ℕ) (r : Routine) (ph : Phase)
        → get_elem? s.routines i ≡ some r
        → r.phase ≡ ph
        → IsSound p g 0 (end_in dec cal floats s i r ph)
    unfolding end_in
    end_in-IsSound i r in_select at e =
        end_context-IsSound p g dec cal floats 0 s i r (get_elem? s.store r.task) at e h
    end_in-IsSound i r in_func at e = h
    end_in-IsSound i r gone at e = h
    end_in-IsSound i r crashed at e = h

    pub step-IsSound : (e : Event K F E) → IsSound p (granted p e + g) 0 (step dec cal floats s e)
    unfolding step cancel remove
    step-IsSound (schedules_once now id name d) =
        IsSound-grant g _ _ (omega arith) (schedule_once-IsSound p g s h dec cal now id name d)
    step-IsSound (schedules_interval now id name d) =
        IsSound-grant g _ _ (omega arith) (schedule_interval-IsSound p g s h dec cal now id name d)
    step-IsSound (schedules_cron now id name expr) =
        IsSound-grant g _ _ (omega arith) (schedule_cron-IsSound p g s h dec cal now id name expr)
    step-IsSound (configures q c deps) = configures-IsSound g q s c deps h
    step-IsSound (fires now i) = IsSound-grant g _ _ (omega arith) (
        of_routine-IsSound i (get_elem? s.routines i) _ refl
          λ r at. fire_in-IsSound now i r r.phase at refl)
    step-IsSound (finishes now i err) = IsSound-grant g _ _ (omega arith) (
        of_routine-IsSound i (get_elem? s.routines i) _ refl
          λ r at. finish_in-IsSound now i err r r.phase at refl)
    step-IsSound (context_ends i) = IsSound-grant g _ _ (omega arith) (
        of_routine-IsSound i (get_elem? s.routines i) _ refl
          λ r at. end_in-IsSound i r r.phase at refl)
    step-IsSound (cancels id) =
        IsSound-grant g _ _ (omega arith) (cancel_at-IsSound (lookup dec id s.tasks))
    step-IsSound (removes id) =
        IsSound-grant g _ _ (omega arith) (remove_at-IsSound id (lookup dec id s.tasks))
    step-IsSound closes = IsSound-grant g _ _ (omega arith) close-IsSound
