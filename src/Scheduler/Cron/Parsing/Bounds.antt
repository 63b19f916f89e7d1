-- ===== src/Scheduler/Cron/Parsing/Bounds.antt =====
-- The values that parseField makes from its bounds.
use gocc.Prelude.{
  ℕ, zero, suc, ◌+◌, ◌-◌, ◌%◌, ◌^◌, ◌≤◌, ◌<◌, ◌≡◌, refl, List, Option, none, some, length, All,
  arith, if_cases,
}
use gocc.Scheduler.Cron.{range_from, range_slice, at_most, steps_from}

-- At least one value, and all of them within the bounds.
abbrev pub Within : ℕ → ℕ → List ℕ → Type 0
Within min max vs = (0 < length vs) × All (λ v. (min ≤ v) × (v ≤ max)) vs

-- What holds of a result, if there is one.
abbrev pub OnSome : {A : Type 0} → (A → Type 0) → Option A → Type 0
OnSome P none = Unit
OnSome P (some a) = P a

range_from-All :
    (min max n i : ℕ)
    → min ≤ i
    → i + n ≤ max + 1
    → All (λ v. (min ≤ v) × (v ≤ max)) (range_from n i)
unfolding range_from
range_from-All min max zero i low high = tt
range_from-All min max (suc n) i low high =
    ((low, omega arith), range_from-All min max n (i + 1) (omega arith) (omega arith))

length-range_from : (n i : ℕ) → length (range_from n i) ≡ n
unfolding range_from
length-range_from zero i = refl
length-range_from (suc n) i = omega (arith, length-range_from n (i + 1))

pub range_slice-Within :
    (min max a b : ℕ) → min ≤ a → a ≤ b → b ≤ max → Within min max (range_slice a b)
unfolding range_slice
range_slice-Within min max a b low mid high = (
  omega (arith, length-range_from (b + 1 - a) a),
  range_from-All min max (b + 1 - a) a low (omega arith),
)

steps_from-All :
    (min max step fuel i : ℕ)
    → step + max < 2 ^ 63
    → min ≤ i
    → i < 2 ^ 63
    → All (λ v. (min ≤ v) × (v ≤ max)) (steps_from fuel step max i)
unfolding steps_from
steps_from-All min max step zero i small low top = tt
steps_from-All min max step (suc fuel) i small low top =
    if_cases (λ (vs : List ℕ). All (λ v. (min ≤ v) × (v ≤ max)) vs) (at_most i max) _ _
      (λ yes.
        let high : i ≤ max = ground (arith, yes, top) in
        let next : (i + step) % 2 ^ 64 ≡ i + step = omega (arith, high, small) in
        (
          (low, high),
          steps_from-All min max step fuel ((i + step) % 2 ^ 64) small (omega (arith, next, low))
              (omega (arith, next, high, small)),
        ))
      (λ no. tt)

pub steps_from-Within :
    (min max step fuel : ℕ)
    → step + max < 2 ^ 63
    → min ≤ max
    → Within min max (steps_from (suc fuel) step max min)
unfolding steps_from
steps_from-Within min max step fuel small h = (
  ground (arith, h),
  steps_from-All min max step (suc fuel) min small (omega arith) (omega (arith, h, small)),
)
