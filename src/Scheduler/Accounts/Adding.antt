-- ===== src/Scheduler/Accounts/Adding.antt =====
-- What a new task does to the counters.
use gocc.Prelude.{
  ℕ, zero, suc, ◌≤◌, ◌≡◌, ◌≢◌, ◌⊎◌, inl, inr, refl, sym, ap, subst, false, List, [], ◌∷◌, ◌++◌,
  Option, none, some, length, get_elem?, total, length-append, total-append, arith, if_cases,
}
use gocc.Prelude.Int.{ℤ}
use gocc.Prelude.Dict.{lookup}
use gocc.Scheduler.Cron.{CronExpr, Calendar, parse_cron}
use gocc.Scheduler.Task.{TaskType, once, interval, cron, Task}
use gocc.Scheduler.Engine.{
  Answer, Phase, in_select, in_func, gone, crashed, Routine, Scheduler, type_phase, fresh_task,
  add_at, schedule_once, schedule_interval, schedule_cron_at, schedule_cron,
}
use gocc.Scheduler.Accounts.{
  selecting, executing, executes, waits, remaining, run_count_of, error_count_of, Budget, IsSound,
  Budget-less,
}

-- A list one longer: its last element is the new one, and nothing was there before.
get_elem?-snoc :
    {A : Type 0} (xs : List A) (x : A) (p : ℕ)
    → ((get_elem? (xs ++ x ∷ []) p ≡ get_elem? xs p) × (length xs ≢ p))
      ⊎ ((length xs ≡ p) × (get_elem? xs p ≡ none) × (get_elem? (xs ++ x ∷ []) p ≡ some x))
get_elem?-snoc [] x zero = inr (refl, refl, refl)
get_elem?-snoc [] x (suc p) = inl (refl, λ e. omega (arith, e))
get_elem?-snoc (y ∷ xs) x zero = inl (refl, λ e. omega (arith, e))
get_elem?-snoc (y ∷ xs) x (suc p) = elim (get_elem?-snoc xs x p) [
  | inl (e, ne) ↦ inl (e, λ q. ne (omega (arith, q)))
  | inr (e, a, b) ↦ inr (ap suc e, a, b)
]

selecting_le : (ph : Phase) → selecting ph ≤ 1
selecting_le in_select = omega arith
selecting_le in_func = omega arith
selecting_le gone = omega arith
selecting_le crashed = omega arith

starts : (type : TaskType) → executing (type_phase type) ≡ 0
starts (once d) = refl
starts (interval d) = ground arith
starts (cron c) = refl

module _ {K F E : Type 0} (p : ℕ) where
  module _ (g : ℕ) (s : Scheduler K F E) (h : IsSound p g 0 s) where
    -- A new task and its goroutine.
    new_task-Budget :
        (t : Task K F E) (r : Routine)
        → t.run_count ≡ 0
        → t.retry ≡ none
        → r.task ≡ length s.store
        → Budget g (get_elem? (s.store ++ t ∷ []) p) (total (waits p) (s.routines ++ r ∷ []))
    new_task-Budget t r runs retry at =
        let w = total-append (waits p) s.routines (r ∷ []) in
        elim (get_elem?-snoc s.store t p) [
          | inl (e, ne) ↦
              let none_new : waits p r ≡ 0 = ground (arith, at, ne) in
              subst (λ o. Budget g o (total (waits p) (s.routines ++ r ∷ []))) (sym e)
                (Budget-less g _ _ (get_elem? s.store p) (omega (arith, w, none_new)) h.budget)
          | inr (e, a, b) ↦
              let old : total (waits p) s.routines ≡ 0 =
                subst (λ o. Budget g o (total (waits p) s.routines)) a h.budget in
              let one : waits p r ≤ 1 = ground (arith, selecting_le r.phase) in
              let spare : remaining t.retry ≡ 0 = ap remaining retry in
              subst (λ o. Budget g o (total (waits p) (s.routines ++ r ∷ []))) (sym b)
                (inr (omega (arith, w, old, one, spare, runs)))
        ]

    module _ (dec : Discrete K) (cal : Calendar) (now : ℕ) (id : K) (name : List ℕ) where
      add_at-IsSound :
          (type : TaskType) (next_run : ℕ) (o : Option ℕ)
          → IsSound p g 0 (add_at dec cal s now id name type next_run o).0
      unfolding add_at
      add_at-IsSound type next_run (some q) = h
      add_at-IsSound type next_run none =
          let t : Task K F E = fresh_task now id name type next_run in
          let r : Routine = record {
            task = length s.store;
            retrying = false;
            phase = type_phase type;
          } in
          let idle = starts type in
          let long = length-append s.store (t ∷ []) in
          let runs = total-append run_count_of s.store (t ∷ []) in
          let errors = total-append error_count_of s.store (t ∷ []) in
          let e = total-append executes s.routines (r ∷ []) in
          record {
            scheduled = omega (arith, h.scheduled, long);
            counted = omega (arith, h.counted, errors);
            runs = omega (arith, h.runs, runs, errors, e, idle);
            budget = new_task-Budget t r refl refl refl;
          }

      pub schedule_once-IsSound : (d : ℤ) → IsSound p g 0 (schedule_once dec cal now s id name d).0
      unfolding schedule_once
      schedule_once-IsSound d =
          if_cases (λ (x : Scheduler K F E × Answer). IsSound p g 0 x.0) s.closed _ _ (λ _. h)
            (λ _. add_at-IsSound (once d) _ (lookup dec id s.tasks))

      pub schedule_interval-IsSound :
          (d : ℤ) → IsSound p g 0 (schedule_interval dec cal now s id name d).0
      unfolding schedule_interval
      schedule_interval-IsSound d =
          if_cases (λ (x : Scheduler K F E × Answer). IsSound p g 0 x.0) s.closed _ _ (λ _. h)
            (λ _. add_at-IsSound (interval d) _ (lookup dec id s.tasks))

      schedule_cron_at-IsSound :
          (o : Option CronExpr) → IsSound p g 0 (schedule_cron_at dec cal now s id name o).0
      unfolding schedule_cron_at
      schedule_cron_at-IsSound none = h
      schedule_cron_at-IsSound (some c) = add_at-IsSound (cron c) _ (lookup dec id s.tasks)

      pub schedule_cron-IsSound :
          (expr : List ℕ) → IsSound p g 0 (schedule_cron dec cal now s id name expr).0
      unfolding schedule_cron
      schedule_cron-IsSound expr =
          if_cases (λ (x : Scheduler K F E × Answer). IsSound p g 0 x.0) s.closed _ _ (λ _. h)
            (λ _. schedule_cron_at-IsSound (parse_cron expr))
