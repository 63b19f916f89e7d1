-- ===== src/Scheduler/Accounts.antt =====
-- The counters of a scheduler, and how often a task can still run.
pub mod Moves
pub mod Execution
pub mod Results
pub mod Adding
pub mod Steps
pub mod Runs
use gocc.Prelude.{
  ℕ, zero, suc, ◌+◌, ◌-◌, ◌≤◌, ◌<◌, ◌≡◌, ◌≢◌, ◌∙◌, ◌⊎◌, inl, inr, refl, sym, ap, subst, Bool, true,
  false, List, [], ◌∷◌, ◌++◌, Option, none, some, ltb, ◌==◌, if◌then◌else◌, length, get_elem?,
  modify, total, at_some, length-modify, length-append, get_elem?-modify_ne, get_elem?-modify_self,
  get_elem?-append_lt, total-append, total-modify, total-modify_same, arith, ℕ_discrete,
}
use gocc.Prelude.Int.{ℤ, excess}
use gocc.Scheduler.Cron.{CronExpr}
use gocc.Scheduler.Task.{TaskType, once, interval, cron, RetryConfig, Task}
use gocc.Scheduler.Engine.{
  Phase, in_select, in_func, gone, crashed, Routine, Scheduler, in_phase, change, move,
}

-- 1 for a goroutine that will call the function, and for one that has called it.
abbrev pub selecting : Phase → ℕ
selecting in_select = 1
selecting in_func = 0
selecting gone = 0
selecting crashed = 0

abbrev pub executing : Phase → ℕ
executing in_func = 1
executing in_select = 0
executing gone = 0
executing crashed = 0

abbrev pub executes : Routine → ℕ
executes r = executing r.phase

-- 1 for a goroutine that waits to run the task at `p`.
abbrev pub waits : ℕ → Routine → ℕ
waits p r = if r.task == p then selecting r.phase else 0

abbrev pub repeats : TaskType → Bool
repeats (once d) = false
repeats (interval d) = true
repeats (cron c) = true

-- The retries that a configuration still allows.
abbrev pub remaining : {F : Type 0} → Option (RetryConfig F) → ℕ
remaining none = 0
remaining (some c) = excess c.max_retries c.retry_count

module _ {K F E : Type 0} where
  abbrev pub run_count_of : Task K F E → ℕ
  run_count_of t = t.run_count

  abbrev pub error_count_of : Task K F E → ℕ
  error_count_of t = t.error_count

  -- `w` goroutines wait to run the task, and `g` retries have been granted to it.
  abbrev pub Budget : ℕ → Option (Task K F E) → ℕ → Type 0
  Budget g none w = w ≡ 0
  Budget g (some t) w = (repeats t.task_type ≡ true) ⊎ (t.run_count + w + remaining t.retry ≤ suc g)

  -- `slack` is 1 between the failure of a function and the return of its goroutine.
  pub record IsSound (p g slack : ℕ) (s : Scheduler K F E) : Type 0 where
    pub scheduled : s.total_scheduled ≡ length s.store
    pub counted : s.total_failed ≡ total error_count_of s.store
    pub runs :
        total error_count_of s.store + total executes s.routines
        ≤ total run_count_of s.store + slack
    pub budget : Budget g (get_elem? s.store p) (total (waits p) s.routines)

  pub Budget-modify :
      (p g g' w w' q : ℕ) (f : Task K F E → Task K F E) (store : List (Task K F E))
      → Budget g (get_elem? store p) w
      → ((o : Option (Task K F E))
          → get_elem? store q ≡ o
          → q ≡ p
          → Budget g o w
          → Budget g' (at_some f o) w')
      → ((o : Option (Task K F E)) → q ≢ p → Budget g o w → Budget g' o w')
      → Budget g' (get_elem? (modify store q f) p) w'
  Budget-modify p g g' w w' q f store b same other = elim (ℕ_discrete q p) [
    | yes e ↦
        let at = get_elem? store q in
        subst (λ o. Budget g' o w')
          (sym (ap (get_elem? (modify store q f)) (sym e) ∙ get_elem?-modify_self store q f))
          (same at refl e (subst (λ i. Budget g (get_elem? store i) w) (sym e) b))
    | no ne ↦
        subst (λ o. Budget g' o w') (sym (get_elem?-modify_ne store q p f ne))
          (other (get_elem? store p) ne b)
  ]

  pub Budget-less : (g w w' : ℕ) (o : Option (Task K F E)) → w' ≤ w → Budget g o w → Budget g o w'
  Budget-less g w w' none le b = omega arith
  Budget-less g w w' (some t) le (inl b) = inl b
  Budget-less g w w' (some t) le (inr b) = inr (omega arith)

  pub Budget-kept :
      (g w : ℕ) (t u : Task K F E)
      → u.run_count ≡ t.run_count
      → u.task_type ≡ t.task_type
      → u.retry ≡ t.retry
      → Budget g (some t) w
      → Budget g (some u) w
  Budget-kept g w t u n ty re (inl b) = inl (ap repeats ty ∙ b)
  Budget-kept g w t u n ty re (inr b) =
      let same : remaining u.retry ≡ remaining t.retry = ap remaining re in
      inr (omega (arith, same))
