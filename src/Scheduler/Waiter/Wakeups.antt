-- ===== src/Scheduler/Waiter/Wakeups.antt =====
-- One goroutine in Wait, WaitAny or WaitAll, among goroutines that complete and reset tasks and other
-- goroutines that wait, under any schedule. Of another goroutine that waits the model has what
-- reaches this one: when its context ends, it broadcasts to all.
pub mod Delivery
pub mod Cancelled
use gocc.Prelude.{
  ℕ, zero, suc, ◌+◌, ◌-◌, Bool, true, false, List, [], ◌∷◌, Option, none, some, ltb, if◌then◌else◌,
}
use gocc.Scheduler.Waiter.{
  TaskWaiter, Wanted, WaitResult, check, mark_complete, reset, new_task_waiter,
}

-- Where the waiting goroutine is: about to take the lock for a check; past a check that found
-- nothing, with the lock, before cond.Wait; asleep in cond.Wait; or back with a result.
pub data Phase (R : Type 0) : Type 0 where
  ready checked asleep : Phase R
  returned : R → Phase R

-- `first` says that the goroutine has made no check yet, `signals` is the number of goroutines that
-- have completed a task and have still to broadcast, and `watching` says that the goroutine which
-- waits for the context has not broadcast.
pub record Scene (K E : Type 0) : Type 0 where
  pub waiter : TaskWaiter K E
  pub ctx_err : Option E
  pub first : Bool
  pub signals : ℕ
  pub watching : Bool
  pub phase : Phase (WaitResult K E)

-- What can happen next. Another goroutine that needs the lock does nothing as long as the waiting
-- goroutine has it.
pub data Event (K E : Type 0) : Type 0 where
  checks sleeps : Event K E
  completes : K → Option E → Event K E
  resets : K → Event K E
  broadcasts : Event K E
  cancels : E → Event K E
  context_broadcasts : Event K E
  other_broadcasts : Event K E

abbrev pub wake : {R : Type 0} → Phase R → Phase R
wake asleep = ready
wake ready = ready
wake checked = checked
wake (returned r) = returned r

abbrev pub after_check : {R : Type 0} → Option R → Phase R
after_check none = checked
after_check (some r) = returned r

-- The value of a variable after another goroutine would have changed it under the lock.
abbrev pub with_lock : {R A : Type 0} → Phase R → A → A → A
with_lock checked a b = a
with_lock ready a b = b
with_lock asleep a b = b
with_lock (returned r) a b = b

abbrev pub cancelled_by : {E : Type 0} → E → Option E → Option E
cancelled_by e none = some e
cancelled_by e (some d) = some d

abbrev pub is_done : {E : Type 0} → Option E → Bool
is_done none = false
is_done (some e) = true

module _ {K E : Type 0} where
  abbrev pub start : Scene K E
  start = record {
    waiter = new_task_waiter;
    ctx_err = none;
    first = true;
    signals = 0;
    watching = true;
    phase = ready;
  }

  abbrev pub do_sleep : Phase (WaitResult K E) → Scene K E → Scene K E
  do_sleep checked s = record s { phase = asleep }
  do_sleep ready s = s
  do_sleep asleep s = s
  do_sleep (returned r) s = s

module _ {K E : Type 0} (dec : Discrete K) (empty : K) (wanted : Wanted K) where
  abbrev pub do_check : Phase (WaitResult K E) → Scene K E → Scene K E
  do_check ready s = record s {
    phase = after_check (check dec empty wanted s.first s.waiter s.ctx_err);
    first = false;
  }
  do_check checked s = s
  do_check asleep s = s
  do_check (returned r) s = s

  unfoldable pub step : Scene K E → Event K E → Scene K E
  step s checks = do_check s.phase s
  step s sleeps = do_sleep s.phase s
  step s (completes id e) = record s {
    waiter = with_lock s.phase s.waiter (mark_complete dec s.waiter id e);
    signals = with_lock s.phase s.signals (s.signals + 1);
  }
  step s (resets id) = record s { waiter = with_lock s.phase s.waiter (reset dec s.waiter id) }
  step s broadcasts =
      if ltb 0 s.signals then record s { phase = wake s.phase; signals = s.signals - 1 } else s
  step s (cancels e) = record s { ctx_err = cancelled_by e s.ctx_err }
  step s context_broadcasts =
      if is_done s.ctx_err
      then if s.watching then record s { phase = wake s.phase; watching = false } else s
      else s
  step s other_broadcasts = record s { phase = wake s.phase }

  unfoldable pub run : Scene K E → List (Event K E) → Scene K E
  unfolding step
  run s [] = s
  run s (o ∷ os) = run (step s o) os
