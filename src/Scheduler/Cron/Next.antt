-- ===== src/Scheduler/Cron/Next.antt =====
-- What Next finds: the first matching whole second within the seconds it looks at, or the zero time.
use gocc.Prelude.{
  ℕ, zero, suc, ◌+◌, ◌-◌, ◌*◌, ◌/◌, ◌%◌, ◌≤◌, ◌<◌, ◌≡◌, ◌↔◌, ◌∙◌, inl, inr, refl, sym, ap, subst,
  true, false, arith, Bool-cases, if_cases,
}
use gocc.Scheduler.Cron.{
  CronExpr, Calendar, matches, time_second, max_rounds, next_second, next_from, next,
}

module _ (cal : Calendar) (c : CronExpr) where
  -- `r` is the first match at or after `t`, one of whose followers at `top` matches.
  FirstMatch : ℕ → ℕ → ℕ → Type 0
  FirstMatch t top r =
      (t ≤ r)
      × (r ≤ top)
      × ((k : ℕ) × (r ≡ t + k * time_second))
      × (matches cal c r ≡ true)
      × ((j : ℕ) → t + j * time_second < r → matches cal c (t + j * time_second) ≡ false)

  FirstMatch-later :
      (t top r : ℕ)
      → matches cal c t ≡ false
      → FirstMatch (t + time_second) top r
      → FirstMatch t top r
  unfolding FirstMatch
  FirstMatch-later t top r here (low, high, (k, e), now, before) =
      (omega arith, high, (suc k, omega arith), now, earlier)
    where
      earlier : (j : ℕ) → t + j * time_second < r → matches cal c (t + j * time_second) ≡ false
      earlier zero h = subst (λ u. matches cal c u ≡ false) {x = t} (omega arith) here
      earlier (suc j) h =
          subst (λ u. matches cal c u ≡ false) {x = t + time_second + j * time_second} (omega arith)
            (before j (omega arith))

  -- The match is not at `t`: what the rest of the search finds.
  after_first :
      (t i r : ℕ)
      → matches cal c t ≡ false
      → matches cal c (t + i * time_second) ≡ true
      → ((n : ℕ)
          → suc n ≡ i
          → matches cal c (t + time_second + n * time_second) ≡ true
          → FirstMatch (t + time_second) (t + time_second + n * time_second) r)
      → FirstMatch t (t + i * time_second) r
  after_first t zero r here m rest =
      let e : t + 0 * time_second ≡ t = omega arith in
      let m' : matches cal c t ≡ true = sym (ap (matches cal c) e) ∙ m in absurd (cc (m', here))
  after_first t (suc n) r here m rest =
      let e : t + suc n * time_second ≡ t + time_second + n * time_second = omega arith in
      subst (λ u. FirstMatch t u r) (sym e)
        (FirstMatch-later t _ r here (rest n refl (sym (ap (matches cal c) e) ∙ m)))

  next_from-FirstMatch :
      (rounds i t : ℕ)
      → i < rounds
      → matches cal c (t + i * time_second) ≡ true
      → FirstMatch t (t + i * time_second) (next_from cal c rounds t)
  unfolding FirstMatch next_from
  next_from-FirstMatch zero i t h m = elim h [ ]
  next_from-FirstMatch (suc rounds) i t h m =
      if_cases (λ (r : ℕ). FirstMatch t (t + i * time_second) r) (matches cal c t) _ _
        (λ here. (omega arith, omega arith, (0, omega arith), here, λ j b. absurd (omega arith)))
        (λ here.
          after_first t i (next_from cal c rounds (t + time_second)) here m
            λ n b m'. next_from-FirstMatch rounds n (t + time_second) (omega arith) m')

  next_from-none :
      (rounds t : ℕ)
      → ((j : ℕ) → j < rounds → matches cal c (t + j * time_second) ≡ false)
      → next_from cal c rounds t ≡ 0
  unfolding next_from
  next_from-none zero t h = refl
  next_from-none (suc rounds) t h =
      let e : t + 0 * time_second ≡ t = omega arith in
      let here : matches cal c t ≡ false =
        subst (λ u. matches cal c u ≡ false) e (h 0 (omega arith)) in
      let later = next_from-none rounds (t + time_second) λ j b.
        let e' : t + suc j * time_second ≡ t + time_second + j * time_second = omega arith in
        subst (λ u. matches cal c u ≡ false) e' (h (suc j) (omega arith)) in
      rw here later

  next_from_le : (rounds t : ℕ) → next_from cal c rounds t ≤ t + rounds * time_second
  unfolding next_from
  next_from_le zero t = omega arith
  next_from_le (suc rounds) t =
      if_cases (λ (r : ℕ). r ≤ t + suc rounds * time_second) (matches cal c t) _ _
        (λ _. omega arith) (λ _. omega (arith, next_from_le rounds (t + time_second)))

  module _ (from : ℕ) where
    next-FirstMatch :
        (i : ℕ)
        → i < max_rounds
        → matches cal c (next_second from + i * time_second) ≡ true
        → FirstMatch (next_second from) (next_second from + i * time_second) (next cal c from)
    unfolding next
    next-FirstMatch i h m = next_from-FirstMatch max_rounds i (next_second from) h m

    -- When some second matches of the 366 days of seconds that follow an instant, then the next
    -- instant of the expression is after that instant, not after that second, a whole second, and
    -- matches.
    pub next-match :
        (i : ℕ)
        → i < max_rounds
        → matches cal c (next_second from + i * time_second) ≡ true
        → (from < next cal c from)
          × (next cal c from ≤ next_second from + i * time_second)
          × (next cal c from % time_second ≡ 0)
          × (matches cal c (next cal c from) ≡ true)
    unfolding FirstMatch
    next-match i h m =
        let (low, high, (k, e), now, before) = next-FirstMatch i h m in
        (omega (arith, low), high, omega (arith, e), now)

    -- No whole second after an instant and before what Next gives for it matches.
    pub next-first :
        (t : ℕ) → from < t → t < next cal c from → t % time_second ≡ 0 → matches cal c t ≡ false
    unfolding FirstMatch next
    next-first t after ahead whole = elim (Bool-cases (matches cal c t)) [
      | inr m ↦ m
      | inl m ↦
          let j = t / time_second - next_second from / time_second in
          let e : next_second from + j * time_second ≡ t = omega (arith, after, whole) in
          let near : j < max_rounds =
            omega (arith, e, ahead, next_from_le max_rounds (next_second from)) in
          let (low, high, _, _, _) = next-FirstMatch j near (ap (matches cal c) e ∙ m) in
          absurd (omega (arith, high, ahead, e))
    ]

    next_none :
        ((j : ℕ) → j < max_rounds → matches cal c (next_second from + j * time_second) ≡ false)
        → next cal c from ≡ 0
    unfolding next
    next_none h = next_from-none max_rounds (next_second from) h

    -- Next gives the zero time exactly when none of the seconds of the 366 days that follow matches.
    pub next-zero :
        (next cal c from ≡ 0)
        ↔ ((j : ℕ) → j < max_rounds → matches cal c (next_second from + j * time_second) ≡ false)
    unfolding FirstMatch
    next-zero = (
      λ e j h. elim (Bool-cases (matches cal c (next_second from + j * time_second))) [
        | inl m ↦ let (low, _, _, _, _) = next-FirstMatch j h m in absurd (omega (arith, low, e))
        | inr m ↦ m
      ],
      next_none,
    )
