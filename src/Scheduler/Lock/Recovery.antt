-- ===== src/Scheduler/Lock/Recovery.antt =====
-- A DistributedLock whose holders are gone can be taken again.
use gocc.Prelude.{ℕ, ◌≤◌, ◌≡◌, refl, true, List, [], ◌∷◌, Option, none, some, All, arith}
use gocc.Prelude.Int.{ℤ, add_to}
use gocc.Prelude.Dict.{lookup, lookup-insert, lookup-delete}
use gocc.Scheduler.Lock.{
  LockInfo, DistributedLock, LockCall, acquiring, releasing, extending, new_distributed_lock,
  take_lock, acquire_at, acquire, release_at, release, extend_at, extend, exec, run,
}

-- A call that asks for no lock beyond the instant, whether it is granted one or not.
abbrev pub Past : {K H : Type 0} → K → ℕ → ℕ × LockCall K H → Type 0
Past k later (now, acquiring j g ttl) = add_to now ttl ≤ later
Past k later (now, releasing j g) = Unit {0}
Past k later (now, extending j g ttl) = add_to now ttl ≤ later

module _ {K H : Type 0} (dec : Discrete K) (dec_holder : Discrete H) (k : K) (later : ℕ) where
  abbrev Over : Option (LockInfo H) → Type 0
  Over none = Unit {0}
  Over (some info) = info.expires_at ≤ later

  module _ (now : ℕ) (dl : DistributedLock K H) (j : K) (g : H)
      (h : Over (lookup dec k dl.locks)) where
    take-Over :
        (ttl : ℤ)
        → add_to now ttl ≤ later
        → Over (lookup dec k (take_lock dec dec_holder now dl j g ttl).locks)
    take-Over ttl le =
        rw (lookup-insert dec j k (record { holder = g; expires_at = add_to now ttl }) dl.locks)
          (ground arith)

    acquire-Over :
        (ttl : ℤ) (o : Option (LockInfo H))
        → add_to now ttl ≤ later
        → Over (lookup dec k (acquire_at dec dec_holder now dl j g ttl o).0.locks)
    unfolding acquire_at
    acquire-Over ttl none le = take-Over ttl le
    acquire-Over ttl (some i) le = ground (arith, take-Over ttl le)

    release-Over :
        (o : Option (LockInfo H)) → Over (lookup dec k (release_at dec dec_holder dl j g o).0.locks)
    unfolding release_at
    release-Over none = h
    release-Over (some i) = ground (arith, lookup-delete dec j k dl.locks)

    extend-Over :
        (ttl : ℤ) (o : Option (LockInfo H))
        → add_to now ttl ≤ later
        → Over (lookup dec k (extend_at dec dec_holder now dl j g ttl o).0.locks)
    unfolding extend_at
    extend-Over ttl none le = h
    extend-Over ttl (some i) le = ground (arith, take-Over ttl le)

  run-Over :
      (cs : List (ℕ × LockCall K H)) (dl : DistributedLock K H)
      → Over (lookup dec k dl.locks)
      → All (Past k later) cs
      → Over (lookup dec k (run dec dec_holder dl cs).locks)
  unfolding run exec acquire release extend
  run-Over [] dl h p = h
  run-Over ((now, acquiring j g ttl) ∷ cs) dl h p =
      run-Over cs _ (acquire-Over now dl j g h ttl (lookup dec j dl.locks) p.0) p.1
  run-Over ((now, releasing j g) ∷ cs) dl h p =
      run-Over cs _ (release-Over now dl j g h (lookup dec j dl.locks)) p.1
  run-Over ((now, extending j g ttl) ∷ cs) dl h p =
      run-Over cs _ (extend-Over now dl j g h ttl (lookup dec j dl.locks) p.0) p.1

  -- After any calls on a fresh DistributedLock, at an instant that no call asked for a deadline
  -- beyond, the refused calls included, anyone acquires the lock of any key, whether its holder has
  -- released it or not.
  pub acquire_after_deadlines :
      (cs : List (ℕ × LockCall K H)) (h : H) (ttl : ℤ)
      → All (Past k later) cs
      → (acquire dec dec_holder later (run dec dec_holder new_distributed_lock cs) k h ttl).1 ≡ true
  unfolding acquire new_distributed_lock lookup
  acquire_after_deadlines cs h ttl p =
      go (run dec dec_holder new_distributed_lock cs)
        (lookup dec k (run dec dec_holder new_distributed_lock cs).locks)
        (run-Over cs new_distributed_lock tt p)
    where
      go :
          (dl : DistributedLock K H) (o : Option (LockInfo H))
          → Over o
          → (acquire_at dec dec_holder later dl k h ttl o).1 ≡ true
      go dl none q = refl
      go dl (some i) q = ground (arith, q)
