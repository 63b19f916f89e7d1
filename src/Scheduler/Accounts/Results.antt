-- ===== src/Scheduler/Accounts/Results.antt =====
-- What the return of a function and the end of a context do to the counters.
use gocc.Prelude.{
  ℕ, ◌+◌, ◌≡◌, ◌∙◌, refl, sym, ap, subst, Option, none, some, get_elem?, at_some,
  get_elem?-modify_self, get_elem?-append_lt, arith,
}
use gocc.Prelude.Int.{ltz}
use gocc.Scheduler.Task.{TaskType, RetryConfig, Task}
use gocc.Scheduler.Engine.{in_select, in_func, Routine, Scheduler, change}
use gocc.Prelude.{if_cases, ◌||◌}
use gocc.Scheduler.Cron.{Calendar}
use gocc.Scheduler.Task.{cancelled, set_state, increment_error_count}
use gocc.Scheduler.Engine.{Floats}
use gocc.Scheduler.Execution.{schedule_retry, handle_error, record_result, finish_task, end_context}
use gocc.Scheduler.Accounts.{executing, IsSound}
use gocc.Scheduler.Accounts.Moves.{change-IsSound, move-gone-IsSound}
use gocc.Scheduler.Accounts.Execution.{after_execute-IsSound, handle_error-IsSound, fail-IsSound}

module _ {K F E : Type 0} (p g : ℕ) where
  module _ (dec : Discrete K) (cal : Calendar) (floats : Floats F) (now : ℕ) where
    -- What the result of the function leaves: the goroutine, and the type of the task.
    Stays : Scheduler K F E → ℕ → ℕ → Routine → TaskType → Type 0
    Stays s q i r type =
        (get_elem? s.routines i ≡ some r)
        × ((u : Task K F E) × (get_elem? s.store q ≡ some u) × (type ≡ u.task_type))

    Stays-change :
        (s : Scheduler K F E) (q i : ℕ) (r : Routine) (type : TaskType)
        (f : Task K F E → Task K F E)
        → ((u : Task K F E) → (f u).task_type ≡ u.task_type)
        → Stays s q i r type
        → Stays (change s q f) q i r type
    unfolding Stays
    Stays-change s q i r type f same (at, (u, here, e)) =
        (at, (f u, get_elem?-modify_self s.store q f ∙ ap (at_some f) here, e ∙ sym (same u)))

    handle_error-Stays :
        (s : Scheduler K F E) (q i : ℕ) (r : Routine) (type : TaskType) (o : Option (RetryConfig F))
        → Stays s q i r type
        → Stays (handle_error dec cal floats now s q o) q i r type
    unfolding Stays handle_error schedule_retry
    handle_error-Stays s q i r type none h = h
    handle_error-Stays s q i r type (some c) h =
        if_cases (λ (s' : Scheduler K F E). Stays s' q i r type) (ltz c.retry_count c.max_retries) _
          _
          (λ _.
            let (at, rest) = Stays-change s q i r type _ (λ u. refl) h in
            (get_elem?-append_lt s.routines _ i r at, rest))
          (λ _. h)

    record_result-IsSound :
        (s : Scheduler K F E) (q i : ℕ) (r : Routine) (t : Task K F E) (err : Option E)
        → get_elem? s.routines i ≡ some r
        → get_elem? s.store q ≡ some t
        → IsSound p g 0 s
        → IsSound p g 1 (record_result dec cal floats now s q t err)
          × Stays (record_result dec cal floats now s q t err) q i r t.task_type
    unfolding record_result Stays increment_error_count
    record_result-IsSound s q i r t none at here h =
        let f : Task K F E → Task K F E = λ u. record u { last_error = none } in
        let h' = change-IsSound p g 0 s q f (λ u. (refl, refl, refl, refl)) h in
        (
          record {
            scheduled = h'.scheduled;
            counted = h'.counted;
            runs = omega (arith, h'.runs);
            budget = h'.budget;
          },
          Stays-change s q i r t.task_type f (λ u. refl) (at, (t, here, refl)),
        )
    record_result-IsSound s q i r t (some e) at here h =
        let f : Task K F E → Task K F E =
          λ u. increment_error_count (record u { last_error = some e }) in
        let s1 : Scheduler K F E = record (change s q f) { total_failed = s.total_failed + 1 } in
        let here' = get_elem?-modify_self s.store q f ∙ ap (at_some f) here in
        (
          handle_error-IsSound p g dec cal floats now 1 s1 q (f t) t.retry here' refl
              (fail-IsSound p g dec cal floats now s q t e here h),
          handle_error-Stays s1 q i r t.task_type t.retry (at, (f t, here', refl)),
        )

    pub finish_task-IsSound :
        (s : Scheduler K F E) (i : ℕ) (r : Routine) (err : Option E) (o : Option (Task K F E))
        → get_elem? s.routines i ≡ some r
        → get_elem? s.store r.task ≡ o
        → r.phase ≡ in_func
        → IsSound p g 0 s
        → IsSound p g 0 (finish_task dec cal floats now s i r err o)
    unfolding finish_task Stays
    finish_task-IsSound s i r err none at here phase h = h
    finish_task-IsSound s i r err (some t) at here phase h =
        let s' : Scheduler K F E = record_result dec cal floats now s r.task t err in
        let (sound, (at', (u, here', e))) = record_result-IsSound s r.task i r t err at here h in
        after_execute-IsSound p g dec cal floats now s' i r u t at' here' (sym e)
          (subst (λ k. IsSound p g k s') (sym (ap executing phase)) sound)

    pub end_context-IsSound :
        (s : Scheduler K F E) (i : ℕ) (r : Routine) (o : Option (Task K F E))
        → get_elem? s.routines i ≡ some r
        → r.phase ≡ in_select
        → IsSound p g 0 s
        → IsSound p g 0 (end_context dec cal floats s i r o)
    unfolding end_context set_state
    end_context-IsSound s i r none at phase h = h
    end_context-IsSound s i r (some t) at phase h =
        let h' = subst (λ k. IsSound p g k s) (sym (ap executing phase)) h in
        if_cases (IsSound p g 0) (t.is_cancelled || s.closed) _ _
          (λ _.
            if_cases (IsSound p g 0) r.retrying _ _ (λ _. move-gone-IsSound p g s i r at h')
              (λ _. move-gone-IsSound p g (change s r.task (set_state cancelled)) i r at (
                change-IsSound p g (executing r.phase) s r.task (set_state cancelled)
                  (λ u. (refl, refl, refl, refl)) h')))
          (λ _. h)
