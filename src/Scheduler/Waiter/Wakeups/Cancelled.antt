-- ===== src/Scheduler/Waiter/Wakeups/Cancelled.antt =====
-- The end of a context can be lost on a goroutine that is about to sleep.
use gocc.Prelude.{◌≡◌, true, false}
use gocc.Scheduler.Waiter.Wakeups.{
  Scene, Event, asleep, checks, sleeps, completes, resets, broadcasts, cancels, context_broadcasts,
  other_broadcasts, is_done,
}

module _ {K E : Type 0} (dec : Discrete K) (empty : K) where
  -- No event that completes a task, and no broadcast for the context of another goroutine.
  abbrev pub NoSignal : Event K E → Type 0
  NoSignal (completes id e) = true ≡ false
  NoSignal checks = Unit {0}
  NoSignal sleeps = Unit {0}
  NoSignal (resets id) = Unit {0}
  NoSignal broadcasts = Unit {0}
  NoSignal (cancels e) = Unit {0}
  NoSignal context_broadcasts = Unit {0}
  NoSignal other_broadcasts = true ≡ false

  record IsStuck (s : Scene K E) : Type 0 where
    cancelled : is_done s.ctx_err ≡ true
    sleeping : s.phase ≡ asleep
    quiet : s.signals ≡ 0
    unwatched : s.watching ≡ false
