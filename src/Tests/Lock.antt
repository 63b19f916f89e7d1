-- ===== src/Tests/Lock.antt =====
-- Three holders (1, 2 and 3) and the lock of key 7, which the first takes at 10 for 5 nanoseconds.
use gocc.Prelude.{ℕ, ◌≡◌, ◌≢◌, refl, true, false, List, [], ◌∷◌, inl, inr, arith, ℕ_discrete}
use gocc.Prelude.Int.{pos}
use gocc.Prelude.Dict.{lookup, insert}
use gocc.Scheduler.Lock.{
  LockCall, acquiring, releasing, extending, new_distributed_lock, acquire_at, acquire, release,
  extend_at, extend, is_locked, exec, run,
}
use gocc.Scheduler.Lock.Exclusion.{acquire-excludes}
use gocc.Scheduler.Lock.Recovery.{acquire_after_deadlines}

abbrev others : List (ℕ × LockCall ℕ ℕ)
others = (11, acquiring 7 2 (pos 3)) ∷ (12, releasing 7 2) ∷ (13, acquiring 8 2 (pos 9)) ∷ []

-- The holder extends its own lock after it has expired, and then holds it again.
late_extend :
    is_locked ℕ_discrete ℕ_discrete 21
      (run ℕ_discrete ℕ_discrete new_distributed_lock
        ((10, acquiring 7 1 (pos 5)) ∷ (20, extending 7 1 (pos 5)) ∷ []))
      7
    ≡ true
unfolding is_locked run exec acquire acquire_at extend extend_at new_distributed_lock lookup insert
    ℕ_discrete
late_extend = refl

first_acquires :
    (acquire ℕ_discrete ℕ_discrete 10 (new_distributed_lock {K = ℕ} {H = ℕ}) 7 1 (pos 5)).1 ≡ true
unfolding acquire acquire_at new_distributed_lock lookup
first_acquires = refl

other_holder : ◌≢◌ {A = ℕ} 2 1
other_holder e = omega (arith, e)

acquire-excludes_example :
    let after =
      run ℕ_discrete ℕ_discrete
        (acquire ℕ_discrete ℕ_discrete 10 new_distributed_lock 7 1 (pos 5)).0
        others in
    (is_locked ℕ_discrete ℕ_discrete 14 after 7 ≡ true)
    × (acquire ℕ_discrete ℕ_discrete 14 after 7 2 (pos 1) ≡ (after, false))
    × (release ℕ_discrete ℕ_discrete after 7 2 ≡ (after, false))
    × (extend ℕ_discrete ℕ_discrete 14 after 7 2 (pos 1) ≡ (after, false))
acquire-excludes_example =
    acquire-excludes ℕ_discrete ℕ_discrete 7 10 new_distributed_lock 1 (pos 5) others 14 2 (pos 1)
      first_acquires
      (inr (other_holder, omega arith), (inr other_holder, (inl (λ e. omega (arith, e)), tt)))
      (omega arith) other_holder

acquire_after_deadlines_example :
    (acquire ℕ_discrete ℕ_discrete 30
      (run ℕ_discrete ℕ_discrete new_distributed_lock others)
      7
      3
      (pos 5)).1
    ≡ true
acquire_after_deadlines_example =
    acquire_after_deadlines ℕ_discrete ℕ_discrete 7 30 others 3 (pos 5)
      (omega arith, (tt, (omega arith, tt)))
