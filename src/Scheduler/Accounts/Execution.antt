-- ===== src/Scheduler/Accounts/Execution.antt =====
-- What executeTask and the goroutines around it do to the counters.
use gocc.Prelude.{
  ℕ, ◌+◌, ◌≡◌, ◌∙◌, refl, sym, ap, subst, true, [], ◌∷◌, Option, none, some, get_elem?, at_some,
  length-modify, get_elem?-modify_self, total-append, total-modify, total-modify_same, arith,
}
use gocc.Prelude.Int.{pos_part, ltz, increment, excess, excess-increment}
use gocc.Scheduler.Task.{TaskType, once, interval, cron, RetryConfig, Task}
use gocc.Scheduler.Engine.{in_select, in_func, Routine, Scheduler, in_phase, change, move}
use gocc.Prelude.{if_cases}
use gocc.Prelude.Int.{add_to}
use gocc.Scheduler.Cron.{Calendar, next}
use gocc.Scheduler.Task.{
  pending, running, completed, set_state, increment_run_count, increment_error_count,
}
use gocc.Scheduler.Engine.{Floats}
use gocc.Scheduler.Execution.{
  are_dependencies_met, after_type, after_execute, start_task, retry_delay, schedule_retry,
  handle_error,
}
use gocc.Scheduler.Accounts.{
  selecting, executing, executes, waits, repeats, remaining, run_count_of, error_count_of, IsSound,
  Budget-modify, Budget-less,
}
use gocc.Scheduler.Accounts.Moves.{
  change-IsSound, move-gone-IsSound, move-in_select-IsSound, Budget-same, Budget-begun,
  Budget-retry,
}

module _ {K F E : Type 0} (p g : ℕ) where
  module _ (dec : Discrete K) (cal : Calendar) (floats : Floats F) (now : ℕ) where
    after_type-IsSound :
        (s : Scheduler K F E) (i : ℕ) (r : Routine) (t : Task K F E) (type : TaskType)
        → get_elem? s.routines i ≡ some r
        → get_elem? s.store r.task ≡ some t
        → t.task_type ≡ type
        → IsSound p g (executing r.phase) s
        → IsSound p g 0 (after_type dec cal floats now s i r.task type)
    unfolding after_type set_state
    after_type-IsSound s i r t (once d) at here e h =
        let h' = move-gone-IsSound p g (change s r.task (set_state completed)) i r at (
          change-IsSound p g (executing r.phase) s r.task (set_state completed)
            (λ u. (refl, refl, refl, refl)) h) in
        record {
          scheduled = h'.scheduled;
          counted = h'.counted;
          runs = h'.runs;
          budget = h'.budget;
        }
    after_type-IsSound s i r t (interval d) at here e h =
        let f : Task K F E → Task K F E = λ u. record u { next_run_at = add_to now d } in
        move-in_select-IsSound p g (change s r.task f) i r (f t) at
          (get_elem?-modify_self s.store r.task f ∙ ap (at_some f) here) (ap repeats e)
          (change-IsSound p g (executing r.phase) s r.task f (λ u. (refl, refl, refl, refl)) h)
    after_type-IsSound s i r t (cron c) at here e h =
        let f : Task K F E → Task K F E = λ u. record u { next_run_at = next cal c now } in
        move-in_select-IsSound p g (change s r.task f) i r (f t) at
          (get_elem?-modify_self s.store r.task f ∙ ap (at_some f) here) (ap repeats e)
          (change-IsSound p g (executing r.phase) s r.task f (λ u. (refl, refl, refl, refl)) h)

    pub after_execute-IsSound :
        (s : Scheduler K F E) (i : ℕ) (r : Routine) (t u : Task K F E)
        → get_elem? s.routines i ≡ some r
        → get_elem? s.store r.task ≡ some t
        → t.task_type ≡ u.task_type
        → IsSound p g (executing r.phase) s
        → IsSound p g 0 (after_execute dec cal floats now s i r u)
    unfolding after_execute
    after_execute-IsSound s i r t u at here e h =
        if_cases (IsSound p g 0) r.retrying _ _ (λ _. move-gone-IsSound p g s i r at h)
          (λ _. after_type-IsSound s i r t u.task_type at here e h)

    -- The goroutine calls the function.
    begin-IsSound :
        (s : Scheduler K F E) (i : ℕ) (r : Routine) (t : Task K F E)
        → get_elem? s.routines i ≡ some r
        → get_elem? s.store r.task ≡ some t
        → r.phase ≡ in_select
        → IsSound p g 0 s
        → let f : Task K F E → Task K F E =
            λ u. record (increment_run_count (set_state running u)) { last_run_at = now } in
          IsSound p g 0 (move (change s r.task f) i in_func)
    unfolding increment_run_count set_state
    begin-IsSound s i r t at here phase h =
        let f : Task K F E → Task K F E =
          λ u. record (increment_run_count (set_state running u)) { last_run_at = now } in
        let runs = total-modify run_count_of s.store r.task f t here in
        let errors = total-modify_same error_count_of s.store r.task f λ u. refl in
        let e = total-modify executes s.routines i (in_phase in_func) r at in
        let w = total-modify (waits p) s.routines i (in_phase in_func) r at in
        let was : executing r.phase ≡ 0 = ap executing phase in
        let none_left : waits p (in_phase in_func r) ≡ 0 = ground arith in
        record {
          scheduled = omega (arith, h.scheduled, length-modify s.store r.task f);
          counted = omega (arith, h.counted, errors);
          runs = omega (arith, h.runs, runs, errors, e, was);
          budget =
              Budget-modify p g g _ _ r.task f s.store h.budget
                (λ o _ e.
                  let here : selecting r.phase ≡ 1 = ap selecting phase in
                  let waiting : waits p r ≡ 1 = ground (arith, e, here) in
                  Budget-begun p g f (λ u. (refl, refl, refl)) _ _ o
                    (omega (arith, w, none_left, waiting)))
                (λ o ne b. Budget-less g _ _ o (omega (arith, w, none_left)) b);
        }

    pub start_task-IsSound :
        (s : Scheduler K F E) (i : ℕ) (r : Routine) (o : Option (Task K F E))
        → get_elem? s.routines i ≡ some r
        → get_elem? s.store r.task ≡ o
        → r.phase ≡ in_select
        → IsSound p g 0 s
        → IsSound p g 0 (start_task dec cal floats now s i r o)
    unfolding start_task
    start_task-IsSound s i r none at here phase h = h
    start_task-IsSound s i r (some t) at here phase h =
        if_cases (IsSound p g 0) (are_dependencies_met dec cal floats s t.depends_on) _ _
          (λ _. begin-IsSound s i r t at here phase h)
          (λ _.
            after_execute-IsSound s i r t t at here refl
              (subst (λ k. IsSound p g k s) (sym (ap executing phase)) h))

    schedule_retry-IsSound :
        (k : ℕ) (s : Scheduler K F E) (q : ℕ) (t : Task K F E) (c : RetryConfig F)
        → get_elem? s.store q ≡ some t
        → t.retry ≡ some c
        → ltz c.retry_count c.max_retries ≡ true
        → IsSound p g k s
        → IsSound p g k (schedule_retry dec cal floats now s q c)
    unfolding schedule_retry
    schedule_retry-IsSound k s q t c here config more h =
        let new_routine : Routine = record { task = q; retrying = true; phase = in_select } in
        let f : Task K F E → Task K F E = λ u. record u {
          retry = some (record c {
            retry_count = increment c.retry_count;
            next_retry_at = add_to now (retry_delay floats c (pos_part c.retry_count));
          });
          state = pending;
        } in
        let runs = total-modify_same run_count_of s.store q f λ u. refl in
        let errors = total-modify_same error_count_of s.store q f λ u. refl in
        let e = total-append executes s.routines (new_routine ∷ []) in
        let w = total-append (waits p) s.routines (new_routine ∷ []) in
        let left : remaining t.retry ≡ excess c.max_retries c.retry_count = ap remaining config in
        record {
          scheduled = omega (arith, h.scheduled, length-modify s.store q f);
          counted = omega (arith, h.counted, errors);
          runs = omega (arith, h.runs, runs, errors, e);
          budget =
              Budget-modify p g g _ _ q f s.store h.budget
                (λ o at same.
                  let one : waits p new_routine ≡ 1 = ground (arith, same) in
                  Budget-retry p g f t _ _ refl refl
                    (excess-increment c.max_retries c.retry_count more ∙ sym left)
                    (omega (arith, w, one)) o (sym at ∙ here))
                (λ o ne b.
                  let none_more : waits p new_routine ≡ 0 = ground (arith, ne) in
                  Budget-less g _ _ o (omega (arith, w, none_more)) b);
        }

    pub handle_error-IsSound :
        (k : ℕ) (s : Scheduler K F E) (q : ℕ) (t : Task K F E) (o : Option (RetryConfig F))
        → get_elem? s.store q ≡ some t
        → t.retry ≡ o
        → IsSound p g k s
        → IsSound p g k (handle_error dec cal floats now s q o)
    unfolding handle_error
    handle_error-IsSound k s q t none here config h = h
    handle_error-IsSound k s q t (some c) here config h =
        if_cases (IsSound p g k) (ltz c.retry_count c.max_retries) _ _
          (λ more. schedule_retry-IsSound k s q t c here config more h) (λ _. h)

    -- The failure of the function, before its retry.
    pub fail-IsSound :
        (s : Scheduler K F E) (q : ℕ) (t : Task K F E) (e : E)
        → get_elem? s.store q ≡ some t
        → IsSound p g 0 s
        → IsSound p g 1
            (record (change s q (λ u. increment_error_count (record u { last_error = some e }))) {
              total_failed = s.total_failed + 1;
            })
    unfolding increment_error_count
    fail-IsSound s q t e here h =
        let f : Task K F E → Task K F E =
          λ u. increment_error_count (record u { last_error = some e }) in
        let runs = total-modify_same run_count_of s.store q f λ u. refl in
        let errors = total-modify error_count_of s.store q f t here in
        record {
          scheduled = omega (arith, h.scheduled, length-modify s.store q f);
          counted = omega (arith, h.counted, errors);
          runs = omega (arith, h.runs, runs, errors);
          budget =
              Budget-modify p g g _ _ q f s.store h.budget
                (λ o _ _. Budget-same p g f _ (λ u. (refl, refl, refl)) o) (λ o _ b. b);
        }
