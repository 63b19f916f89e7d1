-- ===== src/Scheduler/Accounts/Runs.antt =====
-- The counters of a scheduler after any run, and how often a task can have run.
use gocc.Prelude.{
  ℕ, ◌+◌, ◌≤◌, ◌≡◌, inl, inr, subst, List, [], ◌∷◌, some, length, get_elem?, total, arith,
}
use gocc.Prelude.Int.{ℤ}
use gocc.Scheduler.Cron.{Calendar}
use gocc.Scheduler.Task.{once, Task}
use gocc.Scheduler.Engine.{Scheduler, Floats, Event, new}
use gocc.Scheduler.Operations.{run}
use gocc.Scheduler.Accounts.{waits, run_count_of, error_count_of, Budget, IsSound}
use gocc.Scheduler.Accounts.Steps.{granted, IsSound-grant, step-IsSound}

module _ {K F E : Type 0} (dec : Discrete K) (cal : Calendar) (floats : Floats F) where
  run-IsSound :
      (p : ℕ) (es : List (Event K F E)) (g : ℕ) (s : Scheduler K F E)
      → IsSound p g 0 s
      → IsSound p (total (granted p) es + g) 0 (run dec cal floats s es)
  unfolding run
  run-IsSound p [] g s h = IsSound-grant p g _ s (omega arith) h
  run-IsSound p (e ∷ es) g s h =
      IsSound-grant p (total (granted p) es + (granted p e + g)) _ _ (omega arith)
        (run-IsSound p es (granted p e + g) _ (step-IsSound p dec cal floats g s h e))

  new-IsSound : (p : ℕ) → IsSound {K = K} {F = F} {E = E} p 0 0 new
  unfolding new
  new-IsSound p = record {
    scheduled = omega arith;
    counted = omega arith;
    runs = omega arith;
    budget = omega arith;
  }

  -- After any run of a new scheduler, the number of tasks scheduled is the number of tasks made, the
  -- total of failures is the sum of the error counts of all tasks, removed ones included, and those are
  -- together at most the sum of the run counts.
  pub totals-agree :
      (es : List (Event K F E))
      → ((run dec cal floats new es).total_scheduled ≡ length (run dec cal floats new es).store)
        × ((run dec cal floats new es).total_failed
            ≡ total error_count_of (run dec cal floats new es).store)
        × ((run dec cal floats new es).total_failed
            ≤ total run_count_of (run dec cal floats new es).store)
  totals-agree es =
      let h = run-IsSound 0 es 0 new (new-IsSound 0) in
      (h.scheduled, h.counted, omega (arith, h.counted, h.runs))

  -- In any run of a new scheduler, a task that is scheduled once has run at most once, and once more
  -- for each retry that the client has granted it: the sum, over all configurations that the client has
  -- given the task, of MaxRetries minus RetryCount, or zero where that is negative.
  pub once-budget :
      (es : List (Event K F E)) (p : ℕ) (t : Task K F E) (d : ℤ)
      → get_elem? (run dec cal floats new es).store p ≡ some t
      → t.task_type ≡ once d
      → t.run_count ≤ 1 + total (granted p) es
  once-budget es p t d at type =
      let h = run-IsSound p es 0 new (new-IsSound p) in
      let w = total (waits p) (run dec cal floats new es).routines in
      elim (subst (λ o. Budget (total (granted p) es + 0) o w) at h.budget) [
        | inl b ↦ ground (arith, b, type)
        | inr b ↦ omega (arith, b)
      ]
