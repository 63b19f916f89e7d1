-- ===== src/Scheduler/Registry.antt =====
-- Which tasks a scheduler knows by their identifiers.
use gocc.Prelude.{
  ℕ, ◌≡◌, ◌≢◌, ◌∙◌, refl, sym, ap, subst, false, List, [], ◌∷◌, ◌++◌, Option, none, some, length,
  get_elem?, arith, if◌then◌else◌,
}
use gocc.Prelude.Int.{ℤ, add_to}
use gocc.Prelude.Dict.{
  lookup, lookup-insert_self, lookup-insert_ne, lookup-delete_self, lookup-delete_ne,
}
use gocc.Scheduler.Cron.{Calendar}
use gocc.Scheduler.Task.{once, pending}
use gocc.Scheduler.Engine.{
  Scheduler, Answer, refused, task_at, task_not_found, task_exists, scheduler_closed, done, add_at,
  schedule_once,
}
use gocc.Scheduler.Operations.{found_at, get, remove_at, remove}

found_at-missing : (o : Option ℕ) → found_at o ≡ refused task_not_found → o ≡ none
found_at-missing none e = refl
found_at-missing (some p) e = ground (arith, e)

found_at-present : (o : Option ℕ) (p : ℕ) → found_at o ≡ task_at p → o ≡ some p
found_at-present none p e = ground (arith, e)
found_at-present (some q) p e = ground (arith, e)

get_elem?-snoc_self :
    {A : Type 0} (xs : List A) (x : A) → get_elem? (xs ++ x ∷ []) (length xs) ≡ some x
get_elem?-snoc_self [] x = refl
get_elem?-snoc_self (y ∷ xs) x = get_elem?-snoc_self xs x

schedule_once-present :
    {K F E : Type 0} (dec : Discrete K) (cal : Calendar) (s : Scheduler K F E) (id : K) (now : ℕ)
    (name : List ℕ) (delay : ℤ) (p : ℕ)
    → s.closed ≡ false
    → lookup dec id s.tasks ≡ some p
    → schedule_once dec cal now s id name delay ≡ (s, refused task_exists)
unfolding schedule_once add_at
schedule_once-present dec cal s id now name delay p unclosed found =
    let add = add_at dec cal s now id name (once delay) (add_to now delay) in
    ap (λ b. if b then (s, refused scheduler_closed) else add (lookup dec id s.tasks)) unclosed
    ∙ ap add found

schedule_once-absent :
    {K F E : Type 0} (dec : Discrete K) (cal : Calendar) (s : Scheduler K F E) (id : K) (now : ℕ)
    (name : List ℕ) (delay : ℤ)
    → s.closed ≡ false
    → lookup dec id s.tasks ≡ none
    → schedule_once dec cal now s id name delay
      ≡ add_at dec cal s now id name (once delay) (add_to now delay) none
unfolding schedule_once
schedule_once-absent dec cal s id now name delay unclosed missing =
    let add = add_at dec cal s now id name (once delay) (add_to now delay) in
    ap (λ b. if b then (s, refused scheduler_closed) else add (lookup dec id s.tasks)) unclosed
    ∙ ap add missing

module _ {K F E : Type 0} (dec : Discrete K) (cal : Calendar) (s : Scheduler K F E) (id : K) where
  -- What Get, a second ScheduleOnce and Remove say after the task is added.
  Registered : ℕ → List ℕ → ℤ → ℕ → List ℕ → ℤ → K → Scheduler K F E × Answer → Type 0
  Registered now name delay now' name' delay' j x =
      (x.1 ≡ task_at (length s.store))
      × (get dec x.0 id ≡ task_at (length s.store))
      × (get_elem? x.0.store (length s.store)
          ≡ some (record {
            id = id;
            name = name;
            task_type = once delay;
            retry = none;
            depends_on = [];
            created_at = now;
            next_run_at = add_to now delay;
            last_run_at = 0;
            run_count = 0;
            error_count = 0;
            last_error = none;
            state = pending;
            is_cancelled = false;
          }))
      × (get dec x.0 j ≡ get dec s j)
      × (schedule_once dec cal now' x.0 id name' delay' ≡ (x.0, refused task_exists))
      × ((remove dec x.0 id).1 ≡ done)
      × (get dec (remove dec x.0 id).0 id ≡ refused task_not_found)
      × (get dec (remove dec x.0 id).0 j ≡ get dec s j)

  add_at-Registered :
      (now : ℕ) (name : List ℕ) (delay : ℤ) (now' : ℕ) (name' : List ℕ) (delay' : ℤ) (j : K)
      → id ≢ j
      → s.closed ≡ false
      → Registered now name delay now' name' delay' j
          (add_at dec cal s now id name (once delay) (add_to now delay) none)
  unfolding Registered get add_at remove remove_at
  add_at-Registered now name delay now' name' delay' j ne unclosed =
      let found = lookup-insert_self dec id (length s.store) s.tasks in
      let kept = lookup-insert_ne dec id j (length s.store) s.tasks ne in
      let s' = (add_at dec cal s now id name (once delay) (add_to now delay) none).0 in
      (
        refl,
        ap found_at found,
        get_elem?-snoc_self s.store _,
        ap found_at kept,
        schedule_once-present dec cal _ id now' name' delay' (length s.store) unclosed found,
        ap (λ o. (remove_at dec s' id o).1) found,
        ap (λ o. get dec (remove_at dec s' id o).0 id) found
            ∙ ap found_at (lookup-delete_self dec id s'.tasks),
        ap (λ o. get dec (remove_at dec s' id o).0 j) found
            ∙ ap found_at (lookup-delete_ne dec id j s'.tasks ne ∙ kept),
      )

  -- ScheduleOnce under an identifier that has no task, while the scheduler is open, answers a task
  -- that Get then finds under that identifier: it has the identifier and the name given, is due at the
  -- present instant plus the delay, is pending, and has not run. Get finds under every other identifier
  -- what it found before, and ScheduleOnce under the same identifier is then refused and changes
  -- nothing. Remove then succeeds; after it Get finds no task under the identifier, and under every
  -- other one still what it found before.
  pub schedule_once-get :
      (now : ℕ) (name : List ℕ) (delay : ℤ) (now' : ℕ) (name' : List ℕ) (delay' : ℤ) (j : K)
      → id ≢ j
      → s.closed ≡ false
      → get dec s id ≡ refused task_not_found
      → ((schedule_once dec cal now s id name delay).1 ≡ task_at (length s.store))
        × (get dec (schedule_once dec cal now s id name delay).0 id ≡ task_at (length s.store))
        × (get_elem? (schedule_once dec cal now s id name delay).0.store (length s.store)
            ≡ some (record {
              id = id;
              name = name;
              task_type = once delay;
              retry = none;
              depends_on = [];
              created_at = now;
              next_run_at = add_to now delay;
              last_run_at = 0;
              run_count = 0;
              error_count = 0;
              last_error = none;
              state = pending;
              is_cancelled = false;
            }))
        × (get dec (schedule_once dec cal now s id name delay).0 j ≡ get dec s j)
        × (schedule_once dec cal now' (schedule_once dec cal now s id name delay).0 id name' delay'
            ≡ ((schedule_once dec cal now s id name delay).0, refused task_exists))
        × ((remove dec (schedule_once dec cal now s id name delay).0 id).1 ≡ done)
        × (get dec (remove dec (schedule_once dec cal now s id name delay).0 id).0 id
            ≡ refused task_not_found)
        × (get dec (remove dec (schedule_once dec cal now s id name delay).0 id).0 j ≡ get dec s j)
  unfolding get Registered
  schedule_once-get now name delay now' name' delay' j ne unclosed missing =
      subst (Registered now name delay now' name' delay' j)
        (sym (
          schedule_once-absent dec cal s id now name delay unclosed
            (found_at-missing (lookup dec id s.tasks) missing)))
        (add_at-Registered now name delay now' name' delay' j ne unclosed)
