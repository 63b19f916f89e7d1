-- ===== src/Scheduler/Waiter/Wakeups/Delivery.antt =====
-- No completion is lost on a goroutine that sleeps.
use gocc.Prelude.{
  ℕ, ◌+◌, ◌-◌, ◌<◌, ◌≡◌, ◌⊎◌, inl, inr, refl, Bool, true, false, List, [], ◌∷◌, Option, none, some,
  ltb, arith, if_cases,
}
use gocc.Prelude.Dict.{lookup-delete}
use gocc.Scheduler.Waiter.{
  TaskWaiter, Wanted, WaitResult, one_task, any_task, all_tasks, is_completed, wait_check,
  first_completed, wait_any_loop, wait_any_check, all_completed, wait_all_check, check, reset,
}
use gocc.Scheduler.Waiter.Wakeups.{
  Phase, Scene, Event, ready, checked, asleep, returned, checks, sleeps, completes, resets,
  broadcasts, cancels, context_broadcasts, other_broadcasts, wake, after_check, with_lock, do_check,
  do_sleep, start, step, run, is_done,
}

module _ {K E : Type 0} (dec : Discrete K) (empty : K) where
  -- Nothing that is wanted has come.
  abbrev pub Unmet : Wanted K → TaskWaiter K E → Type 0
  Unmet wanted tw = check dec empty wanted false tw none ≡ none

  check-Unmet :
      (wanted : Wanted K) (first : Bool) (tw : TaskWaiter K E) (ctx_err : Option E)
      → check dec empty wanted first tw ctx_err ≡ none
      → Unmet wanted tw
  unfolding check wait_check wait_any_check wait_any_loop wait_all_check
  check-Unmet (one_task id) first tw ctx_err h = ground (arith, h)
  check-Unmet (any_task ids) false tw none h = h
  check-Unmet (any_task ids) false tw (some e) h = ground (arith, h)
  check-Unmet (any_task ids) true tw ctx_err h = ground (arith, h)
  check-Unmet (all_tasks ids) first tw none h = h
  check-Unmet (all_tasks ids) first tw (some e) h = ground (arith, h)

  is_completed-reset :
      (tw : TaskWaiter K E) (id j : K)
      → is_completed dec tw j ≡ false
      → is_completed dec (reset dec tw id) j ≡ false
  unfolding is_completed reset
  is_completed-reset tw id j h = ground (arith, h, lookup-delete dec id j tw.completed)

  first_completed-reset :
      (tw : TaskWaiter K E) (id : K) (ids : List K)
      → first_completed dec tw ids ≡ none
      → first_completed dec (reset dec tw id) ids ≡ none
  unfolding first_completed
  first_completed-reset tw id [] h = refl
  first_completed-reset tw id (j ∷ ids) h =
      ground (arith, h, first_completed-reset tw id ids, is_completed-reset tw id j)

  all_completed-reset :
      (tw : TaskWaiter K E) (id : K) (ids : List K)
      → all_completed dec tw ids ≡ false
      → all_completed dec (reset dec tw id) ids ≡ false
  unfolding all_completed
  all_completed-reset tw id [] h = ground (arith, h)
  all_completed-reset tw id (j ∷ ids) h =
      ground (arith, h, all_completed-reset tw id ids, is_completed-reset tw id j)

  reset-Unmet :
      (wanted : Wanted K) (tw : TaskWaiter K E) (id : K)
      → Unmet wanted tw
      → Unmet wanted (reset dec tw id)
  unfolding check wait_check wait_any_check wait_any_loop wait_all_check
  reset-Unmet (one_task j) tw id h = ground (arith, h, is_completed-reset tw id j)
  reset-Unmet (any_task ids) tw id h = first_completed-reset tw id ids h
  reset-Unmet (all_tasks ids) tw id h = ground (arith, h, all_completed-reset tw id ids)

  -- A goroutine about to sleep has nothing to wake up for; one asleep has not either, or somebody is
  -- about to broadcast.
  abbrev Watched : Wanted K → TaskWaiter K E → ℕ → Phase (WaitResult K E) → Type 0
  Watched wanted tw signals ready = Unit {0}
  Watched wanted tw signals checked = Unmet wanted tw
  Watched wanted tw signals asleep = Unmet wanted tw ⊎ (0 < signals)
  Watched wanted tw signals (returned r) = Unit {0}

  IsWatched : Wanted K → Scene K E → Type 0
  IsWatched wanted s = Watched wanted s.waiter s.signals s.phase

  checked-Watched :
      (wanted : Wanted K) (tw : TaskWaiter K E) (n : ℕ) (o : Option (WaitResult K E))
      → (o ≡ none → Unmet wanted tw)
      → Watched wanted tw n (after_check o)
  checked-Watched wanted tw n none h = h refl
  checked-Watched wanted tw n (some r) h = tt

  wake-Watched :
      (wanted : Wanted K) (tw : TaskWaiter K E) (n m : ℕ) (p : Phase (WaitResult K E))
      → Watched wanted tw n p
      → Watched wanted tw m (wake p)
  wake-Watched wanted tw n m ready w = tt
  wake-Watched wanted tw n m checked w = w
  wake-Watched wanted tw n m asleep w = tt
  wake-Watched wanted tw n m (returned r) w = tt

  check-IsWatched :
      (wanted : Wanted K) (p : Phase (WaitResult K E)) (s : Scene K E)
      → IsWatched wanted s
      → IsWatched wanted (do_check dec empty wanted p s)
  unfolding IsWatched
  check-IsWatched wanted ready s w =
      checked-Watched wanted s.waiter s.signals _ (check-Unmet wanted s.first s.waiter s.ctx_err)
  check-IsWatched wanted checked s w = w
  check-IsWatched wanted asleep s w = w
  check-IsWatched wanted (returned r) s w = w

  -- `e` is the phase, which the goroutine that sleeps has read.
  sleep-IsWatched :
      (wanted : Wanted K) (p : Phase (WaitResult K E)) (s : Scene K E)
      → Watched wanted s.waiter s.signals p
      → IsWatched wanted s
      → IsWatched wanted (do_sleep p s)
  unfolding IsWatched
  sleep-IsWatched wanted checked s v w = inl v
  sleep-IsWatched wanted ready s v w = w
  sleep-IsWatched wanted asleep s v w = w
  sleep-IsWatched wanted (returned r) s v w = w

  completes-Watched :
      (wanted : Wanted K) (p : Phase (WaitResult K E)) (tw tw' : TaskWaiter K E) (n : ℕ)
      → Watched wanted tw n p
      → Watched wanted (with_lock p tw tw') (with_lock p n (n + 1)) p
  completes-Watched wanted ready tw tw' n w = tt
  completes-Watched wanted checked tw tw' n w = w
  completes-Watched wanted asleep tw tw' n w = inr (omega arith)
  completes-Watched wanted (returned r) tw tw' n w = tt

  resets-Watched :
      (wanted : Wanted K) (p : Phase (WaitResult K E)) (tw : TaskWaiter K E) (id : K) (n : ℕ)
      → Watched wanted tw n p
      → Watched wanted (with_lock p tw (reset dec tw id)) n p
  resets-Watched wanted ready tw id n w = tt
  resets-Watched wanted checked tw id n w = w
  resets-Watched wanted asleep tw id n (inl h) = inl (reset-Unmet wanted tw id h)
  resets-Watched wanted asleep tw id n (inr h) = inr h
  resets-Watched wanted (returned r) tw id n w = tt

  step-IsWatched :
      (wanted : Wanted K) (s : Scene K E) (o : Event K E)
      → IsWatched wanted s
      → IsWatched wanted (step dec empty wanted s o)
  unfolding IsWatched step
  step-IsWatched wanted s checks w = check-IsWatched wanted s.phase s w
  step-IsWatched wanted s sleeps w = sleep-IsWatched wanted s.phase s w w
  step-IsWatched wanted s (completes id e) w =
      completes-Watched wanted s.phase s.waiter _ s.signals w
  step-IsWatched wanted s (resets id) w = resets-Watched wanted s.phase s.waiter id s.signals w
  step-IsWatched wanted s broadcasts w =
      if_cases (IsWatched wanted) (ltb 0 s.signals) _ _
        (λ _. wake-Watched wanted s.waiter s.signals (s.signals - 1) s.phase w) (λ _. w)
  step-IsWatched wanted s (cancels e) w = w
  step-IsWatched wanted s context_broadcasts w =
      if_cases (IsWatched wanted) (is_done s.ctx_err) _ _
        (λ _.
          if_cases (IsWatched wanted) s.watching _ _
            (λ _. wake-Watched wanted s.waiter s.signals s.signals s.phase w) (λ _. w))
        (λ _. w)
  step-IsWatched wanted s other_broadcasts w =
      wake-Watched wanted s.waiter s.signals s.signals s.phase w

  run-IsWatched :
      (wanted : Wanted K) (os : List (Event K E)) (s : Scene K E)
      → IsWatched wanted s
      → IsWatched wanted (run dec empty wanted s os)
  unfolding run
  run-IsWatched wanted [] s w = w
  run-IsWatched wanted (o ∷ os) s w =
      run-IsWatched wanted os (step dec empty wanted s o) (step-IsWatched wanted s o w)

  asleep-Unmet :
      (wanted : Wanted K) (s : Scene K E) (p : Phase (WaitResult K E))
      → p ≡ asleep
      → s.signals ≡ 0
      → Watched wanted s.waiter s.signals p
      → Unmet wanted s.waiter
  asleep-Unmet wanted s ready e z w = ground (arith, e)
  asleep-Unmet wanted s checked e z w = w
  asleep-Unmet wanted s asleep e z (inl h) = h
  asleep-Unmet wanted s asleep e z (inr h) = absurd (omega arith)
  asleep-Unmet wanted s (returned r) e z w = ground (arith, e)

  -- Under every schedule of a goroutine that calls Wait, WaitAny or WaitAll, its context, goroutines
  -- that complete and reset tasks, and other goroutines whose wait is broken off: if it is asleep and nobody who has completed a task has
  -- still to broadcast, then what it waits for is not there, since the test of its call would find
  -- nothing.
  pub run-asleep-unmet :
      (wanted : Wanted K) (os : List (Event K E))
      → (run dec empty wanted start os).phase ≡ asleep
      → (run dec empty wanted start os).signals ≡ 0
      → check dec empty wanted false (run dec empty wanted start os).waiter none ≡ none
  unfolding IsWatched
  run-asleep-unmet wanted os sleeping quiet =
      let s = run dec empty wanted start os in
      asleep-Unmet wanted s s.phase sleeping quiet (run-IsWatched wanted os start tt)
