-- ===== src/ConnPool/Managed/Cleaning.antt =====
-- What the cleanup of idle connections keeps and what it destroys.
use gocc.Prelude.{
  ℕ, suc, ◌+◌, ◌≤◌, ◌≡◌, refl, List, [], ◌∷◌, ◌++◌, ltb, if◌then◌else◌, length, length-append,
  append_assoc, append-nil, if_cases, ◌<◌, arith, ◌∙◌, ap, sym, Bool, true, not, ◌&&◌, Bool-cases,
  inl, inr, ◌-◌, leb, zero,
}
use gocc.Prelude.Int.{ℤ, pos, negsuc}
use gocc.ConnPool.{Env}
use gocc.ConnPool.Managed.{
  ManagedPool, should_destroy, destroy_conn, recheck, recheck_all, recheck_idle, exceeds,
}
use gocc.ConnPool.Managed.Invariant.{Accounts}

-- At most `d` nanoseconds from `since` to `now`; a `d` that is not positive is no limit.
abbrev pub within_limit : ℤ → ℕ → ℕ → Bool
within_limit (pos zero) since now = true
within_limit (pos (suc d)) since now = leb (now - since) (suc d)
within_limit (negsuc d) since now = true

-- Valid, made within `max_lifetime` and used within `max_idle_time`.
unfoldable pub is_healthy : Env → ManagedPool → ℕ → Bool
is_healthy env p c =
    env.is_valid c
    && (within_limit p.max_lifetime (p.heap c).created_at env.now
        && within_limit p.max_idle_time (p.heap c).last_used_at env.now)

-- The healthy connections, in order.
unfoldable pub healthy : Env → ManagedPool → List ℕ → List ℕ
unfolding is_healthy
healthy env p [] = []
healthy env p (c ∷ cs) =
    let rest = healthy env p cs in if is_healthy env p c then c ∷ rest else rest

within_limit-exceeds :
    (d : ℤ) (since now : ℕ) → within_limit d since now ≡ not (exceeds d since now)
within_limit-exceeds (pos zero) since now = ground arith
within_limit-exceeds (pos (suc d)) since now = ground arith
within_limit-exceeds (negsuc d) since now = refl

should_destroy-is_healthy :
    (env : Env) (p : ManagedPool) (c : ℕ) → should_destroy env p c ≡ not (is_healthy env p c)
unfolding should_destroy is_healthy
should_destroy-is_healthy env p c = ground (
  arith,
  within_limit-exceeds p.max_lifetime (p.heap c).created_at env.now,
  within_limit-exceeds p.max_idle_time (p.heap c).last_used_at env.now,
)

-- The connections that shouldDestroy lets pass, in order.
kept : Env → ManagedPool → List ℕ → List ℕ
kept env p [] = []
kept env p (c ∷ cs) = if should_destroy env p c then kept env p cs else c ∷ kept env p cs

kept-healthy : (env : Env) (p : ManagedPool) (cs : List ℕ) → kept env p cs ≡ healthy env p cs
unfolding kept healthy
kept-healthy env p [] = refl
kept-healthy env p (c ∷ cs) =
    let rest = kept-healthy env p cs in
    let same = should_destroy-is_healthy env p c in
    elim (Bool-cases (is_healthy env p c)) [
      | inl fit ↦ rw (same, fit) (ap (λ l. c ∷ l) rest)
      | inr bad ↦ rw (same, bad) rest
    ]

-- What a pass over `cs` leaves: the ones that pass shouldDestroy are back in the channel, in order, and each of the
-- others has given its slot back.
record Rechecked (env : Env) (p q : ManagedPool) (cs : List ℕ) : Type 0 where
  back : q.conns ≡ p.conns ++ kept env p cs
  slots : q.semaphore + length cs ≡ p.semaphore + length (kept env p cs)
  gone : q.destroyed + length (kept env p cs) ≡ p.destroyed + length cs
  same_heap : q.heap ≡ p.heap

module _ (env : Env) where
  should_destroy-recheck :
      (p : ManagedPool) (c d : ℕ) → should_destroy env (recheck env p c) d ≡ should_destroy env p d
  unfolding recheck destroy_conn should_destroy
  should_destroy-recheck p c d =
      if_cases (λ (q : ManagedPool). should_destroy env q d ≡ should_destroy env p d)
        (should_destroy env p c) _ _ (λ _. refl)
        λ _.
          if_cases (λ (q : ManagedPool). should_destroy env q d ≡ should_destroy env p d)
            (ltb (length p.conns) p.max_size) _ _ (λ _. refl) (λ _. refl)

  kept-recheck :
      (p : ManagedPool) (c : ℕ) (cs : List ℕ) → kept env (recheck env p c) cs ≡ kept env p cs
  unfolding kept
  kept-recheck p c [] = refl
  kept-recheck p c (d ∷ cs) = ground (arith, should_destroy-recheck p c d, kept-recheck p c cs)

  length-kept-le : (p : ManagedPool) (cs : List ℕ) → length (kept env p cs) ≤ length cs
  unfolding kept
  length-kept-le p [] = omega arith
  length-kept-le p (c ∷ cs) = ground (arith, length-kept-le p cs)

  recheck-Rechecked :
      (p : ManagedPool) (c : ℕ)
      → length p.conns < p.max_size
      → 0 < p.semaphore
      → Rechecked env p (recheck env p c) (c ∷ [])
  unfolding recheck destroy_conn kept
  recheck-Rechecked p c room slot = record {
    back = ground (arith, append-nil p.conns);
    slots = ground arith;
    gone = ground arith;
    same_heap = ground arith;
  }

  recheck_room :
      (p : ManagedPool) (c n : ℕ)
      → length p.conns + suc n ≤ p.semaphore
      → p.semaphore ≤ p.max_size
      → (length (recheck env p c).conns + n ≤ (recheck env p c).semaphore)
        × ((recheck env p c).semaphore ≤ (recheck env p c).max_size)
  unfolding recheck destroy_conn
  recheck_room p c n h k = ground (arith, length-append p.conns (c ∷ []))

  kept-cons :
      (p : ManagedPool) (c : ℕ) (cs : List ℕ)
      → kept env p (c ∷ cs) ≡ kept env p (c ∷ []) ++ kept env p cs
  unfolding kept
  kept-cons p c cs = ground arith

  recheck_all-Rechecked :
      (p : ManagedPool) (cs : List ℕ)
      → length p.conns + length cs ≤ p.semaphore
      → p.semaphore ≤ p.max_size
      → Rechecked env p (recheck_all env p cs) cs
  unfolding recheck_all kept
  recheck_all-Rechecked p [] h k = record {
    back = ground (arith, append-nil p.conns);
    slots = refl;
    gone = refl;
    same_heap = refl;
  }
  recheck_all-Rechecked p (c ∷ cs) h k =
      let first = recheck-Rechecked p c (omega arith) (omega arith) in
      let (room, cap) = recheck_room p c (length cs) h k in
      let rest = recheck_all-Rechecked (recheck env p c) cs room cap in
      let parts = ap length (kept-cons p c cs) in
      let split = length-append (kept env p (c ∷ [])) (kept env p cs) in
      let same = ap length (kept-recheck p c cs) in
      record {
        back =
            rest.back
            ∙ ap (λ l. l ++ kept env (recheck env p c) cs) first.back
            ∙ append_assoc p.conns (kept env p (c ∷ [])) (kept env (recheck env p c) cs)
            ∙ ap (λ l. p.conns ++ (kept env p (c ∷ []) ++ l)) (kept-recheck p c cs)
            ∙ ap (◌++◌ p.conns) (sym (kept-cons p c cs));
        slots = omega (arith, first.slots, rest.slots, parts, split, same);
        gone = omega (arith, first.gone, rest.gone, parts, split, same);
        same_heap = rest.same_heap ∙ first.same_heap;
      }

  kept_drained :
      (p : ManagedPool) (cs : List ℕ) → kept env (record p { conns = [] }) cs ≡ kept env p cs
  unfolding kept should_destroy
  kept_drained p [] = refl
  kept_drained p (c ∷ cs) = ground (arith, kept_drained p cs)

  pub cleanup-healthy :
      (p : ManagedPool)
      → Accounts p []
      → let q = recheck_idle env p in
        (q.conns ≡ healthy env p p.conns)
        × (q.semaphore + length p.conns ≡ p.semaphore + length q.conns)
        × (q.destroyed + length q.conns ≡ p.destroyed + length p.conns)
  unfolding recheck_idle
  cleanup-healthy p v =
      let r =
        recheck_all-Rechecked (record p { conns = [] }) p.conns (omega (arith, v.balance))
          v.capacity in
      let back = r.back ∙ kept_drained p p.conns ∙ kept-healthy env p p.conns in
      (back, omega (arith, r.slots, ap length r.back), omega (arith, r.gone, ap length r.back))
