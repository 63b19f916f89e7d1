-- ===== src/Scheduler/Accounts/Moves.antt =====
-- What a change of a task and a move of a goroutine do to the counters.
use gocc.Prelude.{
  ℕ, suc, ◌+◌, ◌≤◌, ◌≡◌, ◌∙◌, inl, inr, sym, ap, subst, true, Option, none, some, get_elem?, total,
  at_some, length-modify, total-modify, total-modify_same, arith, ℕ_discrete,
}
use gocc.Scheduler.Task.{Task}
use gocc.Scheduler.Engine.{in_select, gone, Routine, Scheduler, in_phase, change, move}
use gocc.Scheduler.Accounts.{
  executing, executes, waits, repeats, remaining, run_count_of, error_count_of, Budget, IsSound,
  Budget-modify, Budget-less, Budget-kept,
}

-- A change that no account reads.
abbrev pub Neutral : {K F E : Type 0} → (Task K F E → Task K F E) → Type 0
Neutral {K} {F} {E} f =
    (t : Task K F E)
    → ((f t).run_count ≡ t.run_count)
      × ((f t).error_count ≡ t.error_count)
      × ((f t).task_type ≡ t.task_type)
      × ((f t).retry ≡ t.retry)

module _ {K F E : Type 0} (p g : ℕ) where
  pub Budget-same :
      (f : Task K F E → Task K F E) (w : ℕ)
      → ((u : Task K F E)
          → ((f u).run_count ≡ u.run_count)
            × ((f u).task_type ≡ u.task_type)
            × ((f u).retry ≡ u.retry))
      → (o : Option (Task K F E)) → Budget g o w
      → Budget g (at_some f o) w
  Budget-same f w n none b = b
  Budget-same f w n (some t) b =
      let (runs, type, retry) = n t in Budget-kept g w t (f t) runs type retry b

  pub change-IsSound :
      (k : ℕ) (s : Scheduler K F E) (q : ℕ) (f : Task K F E → Task K F E)
      → Neutral f
      → IsSound p g k s
      → IsSound p g k (change s q f)
  change-IsSound k s q f n h =
      let runs = total-modify_same run_count_of s.store q f λ t. (n t).0 in
      let errors = total-modify_same error_count_of s.store q f λ t. (n t).1 in
      record {
        scheduled = omega (arith, h.scheduled, length-modify s.store q f);
        counted = omega (arith, h.counted, errors);
        runs = omega (arith, h.runs, runs, errors);
        budget =
            Budget-modify p g g _ _ q f s.store h.budget
              (λ o _ _.
                Budget-same f _ (λ u. let (runs, errors, type, retry) = n u in (runs, type, retry))
                  o)
              (λ o ne b. b);
      }

  pub move-gone-IsSound :
      (s : Scheduler K F E) (i : ℕ) (r : Routine)
      → get_elem? s.routines i ≡ some r
      → IsSound p g (executing r.phase) s
      → IsSound p g 0 (move s i gone)
  move-gone-IsSound s i r at h =
      let e = total-modify executes s.routines i (in_phase gone) r at in
      let w = total-modify (waits p) s.routines i (in_phase gone) r at in
      let none_left : waits p (in_phase gone r) ≡ 0 = ground arith in
      record {
        scheduled = h.scheduled;
        counted = h.counted;
        runs = omega (arith, h.runs, e);
        budget = Budget-less g _ _ (get_elem? s.store p) (omega (arith, w, none_left)) h.budget;
      }

  -- One goroutine less waits, and the task has run once more.
  pub Budget-begun :
      (f : Task K F E → Task K F E)
      → ((u : Task K F E)
          → ((f u).run_count ≡ u.run_count + 1)
            × ((f u).task_type ≡ u.task_type)
            × ((f u).retry ≡ u.retry))
      → (w w' : ℕ) (o : Option (Task K F E)) → suc w' ≤ w
      → Budget g o w
      → Budget g (at_some f o) w'
  Budget-begun f n w w' none le b = omega arith
  Budget-begun f n w w' (some t) le (inl b) =
      let (runs, type, retry) = n t in inl (ap repeats type ∙ b)
  Budget-begun f n w w' (some t) le (inr b) =
      let (runs, type, retry) = n t in
      let same : remaining (f t).retry ≡ remaining t.retry = ap remaining retry in
      inr (omega (arith, b, runs, same, le))

  -- One goroutine more waits, and one retry less remains.
  pub Budget-retry :
      (f : Task K F E → Task K F E) (t : Task K F E) (w w' : ℕ)
      → (f t).run_count ≡ t.run_count
      → (f t).task_type ≡ t.task_type
      → suc (remaining (f t).retry) ≡ remaining t.retry
      → w' ≡ suc w
      → (o : Option (Task K F E)) → o ≡ some t
      → Budget g o w
      → Budget g (at_some f o) w'
  Budget-retry f t w w' runs type left more o e b =
      subst (λ o. Budget g (at_some f o) w') (sym e) (go (subst (λ o. Budget g o w) e b))
    where
      go : Budget g (some t) w → Budget g (some (f t)) w'
      go (inl b) = inl (ap repeats type ∙ b)
      go (inr b) = inr (omega (arith, b, runs, left, more))

  -- A goroutine of a task that repeats goes back to its select.
  pub move-in_select-IsSound :
      (s : Scheduler K F E) (i : ℕ) (r : Routine) (t : Task K F E)
      → get_elem? s.routines i ≡ some r
      → get_elem? s.store r.task ≡ some t
      → repeats t.task_type ≡ true
      → IsSound p g (executing r.phase) s
      → IsSound p g 0 (move s i in_select)
  move-in_select-IsSound s i r t at here repeating h =
      let e = total-modify executes s.routines i (in_phase in_select) r at in
      let w = total-modify (waits p) s.routines i (in_phase in_select) r at in
      record {
        scheduled = h.scheduled;
        counted = h.counted;
        runs = omega (arith, h.runs, e);
        budget = elim (ℕ_discrete r.task p) [
          | yes same ↦
              subst (λ o. Budget g o (total (waits p) (move s i in_select).routines))
                (sym here ∙ ap (get_elem? s.store) same) (inl repeating)
          | no ne ↦
              let a : waits p r ≡ 0 = ground (arith, ne) in
              let b : waits p (in_phase in_select r) ≡ 0 = ground (arith, ne) in
              Budget-less g _ _ (get_elem? s.store p) (omega (arith, w, a, b)) h.budget
        ];
      }
