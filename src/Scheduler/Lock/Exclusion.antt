-- ===== src/Scheduler/Lock/Exclusion.antt =====
-- Who can take a DistributedLock, and for how long nobody else can.
use gocc.Prelude.{
  ℕ, ◌<◌, ◌≡◌, ◌≢◌, ◌∙◌, ◌⊎◌, inl, inr, sym, subst, true, false, List, [], ◌∷◌, Option, none, some,
  All, arith,
}
use gocc.Prelude.Int.{ℤ, add_to}
use gocc.Prelude.Dict.{lookup, lookup-insert_self, lookup-insert_ne, lookup-delete_ne}
use gocc.Scheduler.Lock.{
  LockInfo, DistributedLock, LockCall, acquiring, releasing, extending, take_lock, acquire_at,
  acquire, release_at, release, extend_at, extend, is_locked, exec, run,
}

-- A call on another key, or by another holder, and an Acquire of theirs comes before the deadline.
abbrev pub Harmless : {K H : Type 0} → K → H → ℕ → ℕ × LockCall K H → Type 0
Harmless k h deadline (now, acquiring j g ttl) = (j ≢ k) ⊎ ((g ≢ h) × (now < deadline))
Harmless k h deadline (now, releasing j g) = (j ≢ k) ⊎ (g ≢ h)
Harmless k h deadline (now, extending j g ttl) = (j ≢ k) ⊎ (g ≢ h)

module _ {K H : Type 0} (dec : Discrete K) (dec_holder : Discrete H) (k : K) where
  -- The lock of `k` as `info` says.
  Held : LockInfo H → DistributedLock K H → Type 0
  Held info dl = lookup dec k dl.locks ≡ some info

  module _ (info : LockInfo H) (dl : DistributedLock K H) (held : Held info dl) (now : ℕ) (j : K)
      (g : H) (ne : j ≢ k) where
    take_other : (ttl : ℤ) → Held info (take_lock dec dec_holder now dl j g ttl)
    unfolding Held
    take_other ttl = lookup-insert_ne dec j k _ dl.locks ne ∙ held

    acquire_other :
        (ttl : ℤ) (o : Option (LockInfo H))
        → Held info (acquire_at dec dec_holder now dl j g ttl o).0
    unfolding Held acquire_at
    acquire_other ttl none = take_other ttl
    acquire_other ttl (some i) = ground (arith, held, take_other ttl)

    release_other : (o : Option (LockInfo H)) → Held info (release_at dec dec_holder dl j g o).0
    unfolding Held release_at
    release_other none = held
    release_other (some i) = ground (arith, held, lookup-delete_ne dec j k dl.locks ne)

    extend_other :
        (ttl : ℤ) (o : Option (LockInfo H))
        → Held info (extend_at dec dec_holder now dl j g ttl o).0
    unfolding Held extend_at
    extend_other ttl none = held
    extend_other ttl (some i) = ground (arith, held, take_other ttl)

  module _ (info : LockInfo H) (dl : DistributedLock K H) (held : Held info dl) (now : ℕ) (g : H)
      (other : g ≢ info.holder) where
    acquire_refused :
        (ttl : ℤ) → now < info.expires_at → acquire dec dec_holder now dl k g ttl ≡ (dl, false)
    unfolding Held acquire acquire_at
    acquire_refused ttl soon = rw (held, acquire_at) (ground (arith, other))

    release_refused : release dec dec_holder dl k g ≡ (dl, false)
    unfolding Held release release_at
    release_refused = rw (held, release_at) (ground (arith, other))

    extend_refused : (ttl : ℤ) → extend dec dec_holder now dl k g ttl ≡ (dl, false)
    unfolding Held extend extend_at
    extend_refused ttl = rw (held, extend_at) (ground (arith, other))

  exec-Held :
      (info : LockInfo H) (dl : DistributedLock K H) (c : ℕ × LockCall K H)
      → Held info dl
      → Harmless k info.holder info.expires_at c
      → Held info (exec dec dec_holder dl c)
  unfolding Held exec
  exec-Held info dl (now, acquiring j g ttl) held (inl ne) =
      acquire_other info dl held now j g ne ttl (lookup dec j dl.locks)
  exec-Held info dl (now, acquiring j g ttl) held (inr (other, soon)) = elim (dec j k) [
    | yes e ↦
        subst (λ i. Held info (acquire dec dec_holder now dl i g ttl).0) (sym e)
          (rw (acquire_refused info dl held now g other ttl soon) held)
    | no ne ↦ acquire_other info dl held now j g ne ttl (lookup dec j dl.locks)
  ]
  exec-Held info dl (now, releasing j g) held (inl ne) =
      release_other info dl held now j g ne (lookup dec j dl.locks)
  exec-Held info dl (now, releasing j g) held (inr other) = elim (dec j k) [
    | yes e ↦
        subst (λ i. Held info (release dec dec_holder dl i g).0) (sym e)
          (rw (release_refused info dl held now g other) held)
    | no ne ↦ release_other info dl held now j g ne (lookup dec j dl.locks)
  ]
  exec-Held info dl (now, extending j g ttl) held (inl ne) =
      extend_other info dl held now j g ne ttl (lookup dec j dl.locks)
  exec-Held info dl (now, extending j g ttl) held (inr other) = elim (dec j k) [
    | yes e ↦
        subst (λ i. Held info (extend dec dec_holder now dl i g ttl).0) (sym e)
          (rw (extend_refused info dl held now g other ttl) held)
    | no ne ↦ extend_other info dl held now j g ne ttl (lookup dec j dl.locks)
  ]

  run-Held :
      (info : LockInfo H) (cs : List (ℕ × LockCall K H)) (dl : DistributedLock K H)
      → Held info dl
      → All (Harmless k info.holder info.expires_at) cs
      → Held info (run dec dec_holder dl cs)
  unfolding run
  run-Held info [] dl held safe = held
  run-Held info (c ∷ cs) dl held safe =
      run-Held info cs (exec dec dec_holder dl c) (exec-Held info dl c held safe.0) safe.1

  acquire_taken :
      (now : ℕ) (dl : DistributedLock K H) (h : H) (ttl : ℤ)
      → (acquire dec dec_holder now dl k h ttl).1 ≡ true
      → Held
          (record { holder = h; expires_at = add_to now ttl })
          (acquire dec dec_holder now dl k h ttl).0
  unfolding Held acquire
  acquire_taken now dl h ttl won = go (lookup dec k dl.locks) won
    where
      go :
          (o : Option (LockInfo H))
          → (acquire_at dec dec_holder now dl k h ttl o).1 ≡ true
          → lookup dec k (acquire_at dec dec_holder now dl k h ttl o).0.locks
            ≡ some (record { holder = h; expires_at = add_to now ttl })
      go none won = lookup-insert_self dec k _ dl.locks
      go (some i) won = ground (
        arith,
        won,
        lookup-insert_self dec k (record { holder = h; expires_at = add_to now ttl }) dl.locks,
      )

  -- Once a holder has acquired the lock of a key, then whatever others do with it before it expires,
  -- and whatever anyone does with other keys, up to the deadline the lock counts as held and nobody
  -- else can acquire, release or extend it. Nothing is asked of the order of the instants.
  pub acquire-excludes :
      (now : ℕ) (dl : DistributedLock K H) (h : H) (ttl : ℤ) (cs : List (ℕ × LockCall K H))
      (later : ℕ) (g : H) (ttl' : ℤ)
      → (acquire dec dec_holder now dl k h ttl).1 ≡ true
      → All (Harmless k h (add_to now ttl)) cs
      → later < add_to now ttl
      → g ≢ h
      → let after = run dec dec_holder (acquire dec dec_holder now dl k h ttl).0 cs in
        (is_locked dec dec_holder later after k ≡ true)
        × (acquire dec dec_holder later after k g ttl' ≡ (after, false))
        × (release dec dec_holder after k g ≡ (after, false))
        × (extend dec dec_holder later after k g ttl' ≡ (after, false))
  unfolding is_locked Held
  acquire-excludes now dl h ttl cs later g ttl' won safe soon other =
      let after = run dec dec_holder (acquire dec dec_holder now dl k h ttl).0 cs in
      let info : LockInfo H = record { holder = h; expires_at = add_to now ttl } in
      let held = run-Held info cs _ (acquire_taken now dl h ttl won) safe in
      (
        rw (held, is_locked) (ground arith),
        acquire_refused info after held later g other ttl' soon,
        release_refused info after held later g other,
        extend_refused info after held later g other ttl',
      )
