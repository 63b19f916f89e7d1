-- ===== src/Scheduler/Lock.antt =====
-- scheduler/waiter.go: DistributedLock. The map `locks` is the state; the clock's reading `now` is
-- an argument of each method.
pub mod Exclusion
pub mod Recovery
use gocc.Prelude.{
  ℕ, Bool, true, false, ◌&&◌, not, List, [], ◌∷◌, Option, none, some, ltb, if◌then◌else◌, is_yes,
}
use gocc.Prelude.Int.{ℤ, add_to}
use gocc.Prelude.Dict.{Dict, lookup, insert, delete}

pub record LockInfo (H : Type 0) : Type 0 where
  pub holder : H
  pub expires_at : ℕ

pub record DistributedLock (K H : Type 0) : Type 0 where
  pub locks : Dict K (LockInfo H)

pub data LockCall (K H : Type 0) : Type 0 where
  acquiring : K → H → ℤ → LockCall K H
  releasing : K → H → LockCall K H
  extending : K → H → ℤ → LockCall K H

module _ {K H : Type 0} where
  unfoldable pub new_distributed_lock : DistributedLock K H
  new_distributed_lock = record { locks = [] }

module _ {K H : Type 0} (dec : Discrete K) (dec_holder : Discrete H) where
  -- `dl.locks[key] = lockInfo{…}`
  abbrev pub take_lock : ℕ → DistributedLock K H → K → H → ℤ → DistributedLock K H
  take_lock now dl key holder ttl = record {
    locks = insert dec key (record { holder = holder; expires_at = add_to now ttl }) dl.locks;
  }

  -- Each method, once it has looked the key up.
  unfoldable pub acquire_at :
      ℕ → DistributedLock K H → K → H → ℤ → Option (LockInfo H) → DistributedLock K H × Bool
  acquire_at now dl key holder ttl none = (take_lock now dl key holder ttl, true)
  acquire_at now dl key holder ttl (some info) =
      if ltb now info.expires_at && not (is_yes (dec_holder info.holder holder))
      then (dl, false)
      else (take_lock now dl key holder ttl, true)

  unfoldable pub acquire : ℕ → DistributedLock K H → K → H → ℤ → DistributedLock K H × Bool
  unfolding acquire_at
  acquire now dl key holder ttl = acquire_at now dl key holder ttl (lookup dec key dl.locks)

  unfoldable pub release_at :
      DistributedLock K H → K → H → Option (LockInfo H) → DistributedLock K H × Bool
  release_at dl key holder none = (dl, false)
  release_at dl key holder (some info) =
      if is_yes (dec_holder info.holder holder)
      then (record { locks = delete dec key dl.locks }, true)
      else (dl, false)

  unfoldable pub release : DistributedLock K H → K → H → DistributedLock K H × Bool
  unfolding release_at
  release dl key holder = release_at dl key holder (lookup dec key dl.locks)

  unfoldable pub extend_at :
      ℕ → DistributedLock K H → K → H → ℤ → Option (LockInfo H) → DistributedLock K H × Bool
  extend_at now dl key holder ttl none = (dl, false)
  extend_at now dl key holder ttl (some info) =
      if is_yes (dec_holder info.holder holder)
      then (take_lock now dl key holder ttl, true)
      else (dl, false)

  unfoldable pub extend : ℕ → DistributedLock K H → K → H → ℤ → DistributedLock K H × Bool
  unfolding extend_at
  extend now dl key holder ttl = extend_at now dl key holder ttl (lookup dec key dl.locks)

  unfoldable pub is_locked : ℕ → DistributedLock K H → K → Bool
  is_locked now dl key = elim (lookup dec key dl.locks) [
    | none ↦ false
    | some info ↦ ltb now info.expires_at
  ]

  unfoldable pub exec : DistributedLock K H → ℕ × LockCall K H → DistributedLock K H
  unfolding acquire release extend
  exec dl (now, acquiring k h ttl) = (acquire now dl k h ttl).0
  exec dl (now, releasing k h) = (release dl k h).0
  exec dl (now, extending k h ttl) = (extend now dl k h ttl).0

  unfoldable pub run : DistributedLock K H → List (ℕ × LockCall K H) → DistributedLock K H
  unfolding exec
  run dl [] = dl
  run dl (c ∷ cs) = run (exec dl c) cs
