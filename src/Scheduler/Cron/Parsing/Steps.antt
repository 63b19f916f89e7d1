-- ===== src/Scheduler/Cron/Parsing/Steps.antt =====
-- The loop over the steps of `*/n` ends, also where its sum wraps round.
use gocc.Prelude.{
  ℕ, zero, suc, ◌+◌, ◌-◌, ◌%◌, ◌^◌, ◌≤◌, ◌<◌, ◌≡◌, ◌∙◌, refl, sym, ap, true, [], ◌∷◌, arith, dec_lt,
}
use gocc.Scheduler.Cron.{at_most, steps_from}

module _ (max step : ℕ) where
  steps_from-past : (fuel i : ℕ) → max < i → i < 2 ^ 63 → steps_from fuel step max i ≡ []
  unfolding steps_from
  steps_from-past zero i past top = refl
  steps_from-past (suc fuel) i past top = ground (arith, past, top)

  steps_from-on :
      (fuel i j : ℕ)
      → at_most i max ≡ true
      → (i + step) % 2 ^ 64 ≡ j
      → steps_from (suc fuel) step max i ≡ i ∷ steps_from fuel step max j
  unfolding steps_from
  steps_from-on fuel i j go next = rw (go, next) refl

  -- Without a wrap.
  steps_from-more :
      (fuel extra i : ℕ)
      → 0 < step
      → step + max < 2 ^ 63
      → i < 2 ^ 63
      → max < i + fuel
      → steps_from (fuel + extra) step max i ≡ steps_from fuel step max i
  unfolding steps_from
  steps_from-more zero extra i above small top enough =
      steps_from-past (0 + extra) i (omega arith) top
  steps_from-more (suc fuel) extra i above small top enough = elim (dec_lt max i) [
    | yes past ↦
        steps_from-past (suc fuel + extra) i past top ∙ sym (steps_from-past (suc fuel) i past top)
    | no in_range ↦
        let go : at_most i max ≡ true = ground (arith, in_range) in
        let next : (i + step) % 2 ^ 64 ≡ i + step = omega (arith, in_range, small) in
        ap (λ n. steps_from n step max i) {x = suc fuel + extra} {y = suc (fuel + extra)}
          (omega arith)
        ∙ steps_from-on (fuel + extra) i (i + step) go next
        ∙ ap (λ vs. i ∷ vs)
            (steps_from-more fuel extra (i + step) above small (omega (arith, in_range, small))
              (omega (arith, enough, above)))
        ∙ sym (steps_from-on fuel i (i + step) go next)
  ]

  -- A step beyond the upper bound, without a wrap.
  steps_from-one :
      (fuel i : ℕ)
      → i ≤ max
      → max < i + step
      → i + step < 2 ^ 63
      → steps_from (suc fuel) step max i ≡ i ∷ []
  steps_from-one fuel i low past top =
      steps_from-on fuel i (i + step) (ground (arith, low)) (omega arith)
      ∙ ap (λ vs. i ∷ vs) (steps_from-past fuel (i + step) past top)

-- The one step whose sum with the lower bound 1 wraps round.
steps_from-three :
    (max fuel : ℕ)
    → 0 < max
    → max ≤ 59
    → steps_from (suc (suc (suc fuel))) (2 ^ 63 - 1) max 1 ≡ 1 ∷ (2 ^ 63) ∷ (2 ^ 64 - 1) ∷ []
steps_from-three max fuel some_value top =
    steps_from-on max (2 ^ 63 - 1) (suc (suc fuel)) 1 (2 ^ 63) (ground (arith, some_value))
      (omega arith)
    ∙ ap (λ vs. 1 ∷ vs)
        (steps_from-on max (2 ^ 63 - 1) (suc fuel) (2 ^ 63) (2 ^ 64 - 1) (ground arith)
            (omega arith)
          ∙ ap (λ vs. (2 ^ 63) ∷ vs)
              (steps_from-on max (2 ^ 63 - 1) fuel (2 ^ 64 - 1) (2 ^ 63 - 2) (ground arith)
                  (omega arith)
                ∙ ap (λ vs. (2 ^ 64 - 1) ∷ vs)
                    (steps_from-past max (2 ^ 63 - 1) fuel (2 ^ 63 - 2) (omega arith)
                      (omega arith))))

steps_from-wrapped :
    (min max step fuel : ℕ)
    → min ≡ 1
    → step ≡ 2 ^ 63 - 1
    → 2 < fuel
    → 0 < max
    → max ≤ 59
    → steps_from fuel step max min ≡ 1 ∷ (2 ^ 63) ∷ (2 ^ 64 - 1) ∷ []
steps_from-wrapped min max step fuel e f enough some_value top =
    let three : fuel ≡ suc (suc (suc (fuel - 3))) = omega arith in
    cc (e, f, three, steps_from-three max (fuel - 3) some_value top)

-- In every field the loop over the steps of `*/n` has ended within one step more than the upper bound,
-- for every n that is an int above zero: more fuel does not change what it gives, also where the sum
-- wraps round. The lower bound is at most 1 and the upper bound from 2 to 59.
pub steps_from-ends :
    (min max step extra : ℕ)
    → min ≤ 1
    → 1 < max
    → max ≤ 59
    → 0 < step
    → step < 2 ^ 63
    → steps_from (max + 1 + extra) step max min ≡ steps_from (max + 1) step max min
steps_from-ends min max step extra low some_values top above int =
    elim (dec_lt (step + max) (2 ^ 63)) [
      | yes small ↦
          steps_from-more max step (max + 1) extra min above small (omega arith) (omega arith)
      | no large ↦ elim (dec_lt (min + step) (2 ^ 63)) [
        | yes once ↦
            let short : (n : ℕ) → 0 < n → steps_from n step max min ≡ min ∷ [] = λ n some_fuel.
              ap (λ m. steps_from m step max min) {x = n} {y = suc (n - 1)} (omega arith)
              ∙ steps_from-one max step (n - 1) min (omega arith) (omega (arith, large)) once in
            short (max + 1 + extra) (omega arith) ∙ sym (short (max + 1) (omega arith))
        | no wraps ↦
            let e : min ≡ 1 = omega (arith, wraps) in
            let f : step ≡ 2 ^ 63 - 1 = omega (arith, wraps) in
            steps_from-wrapped min max step (max + 1 + extra) e f (omega arith) (omega arith) top
            ∙ sym (steps_from-wrapped min max step (max + 1) e f (omega arith) (omega arith) top)
      ]
    ]
