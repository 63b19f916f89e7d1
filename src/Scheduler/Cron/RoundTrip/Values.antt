-- ===== src/Scheduler/Cron/RoundTrip/Values.antt =====
-- What the values that parseField computes are: the numbers of a field's range that pass a test.
use gocc.Prelude.{
  ℕ, zero, suc, ◌+◌, ◌-◌, ◌*◌, ◌%◌, ◌^◌, ◌≤◌, ◌<◌, ◌≡◌, ◌∙◌, refl, sym, ap, Bool, true, false, ◌&&◌,
  List, [], ◌∷◌, leb, ◌==◌, if◌then◌else◌, arith, dec_lt,
}
use native.Mathlib.Nat.{mul-add-mod_self_right, mod-eq_of_lt, suc-mul, zero-mul}
use gocc.Scheduler.Cron.{range_from, range_slice, at_most, steps_from}

-- Those of the `n` numbers from `i` on that pass the test, in order.
unfoldable pub select : (ℕ → Bool) → ℕ → ℕ → List ℕ
select test zero i = []
select test (suc n) i = let rest = select test n (i + 1) in if test i then i ∷ rest else rest

module _ (test : ℕ → Bool) where
  select_at : (n n' i i' : ℕ) → n ≡ n' → i ≡ i' → select test n i ≡ select test n' i'
  select_at n n' i i' e f = cc (e, f)

  select-skip :
      (m n i : ℕ)
      → ((v : ℕ) → i ≤ v → v < i + m → test v ≡ false)
      → select test (m + n) i ≡ select test n (i + m)
  unfolding select
  select-skip zero n i no_one = select_at (0 + n) n i (i + 0) (omega arith) (omega arith)
  select-skip (suc m) n i no_one =
      let here : test i ≡ false = no_one i (omega arith) (omega arith) in
      select_at (suc m + n) (suc (m + n)) i i (omega arith) refl
      ∙ rw here (
          select-skip m n (i + 1) (λ v le lt. no_one v (omega (arith, le)) (omega (arith, lt)))
          ∙ select_at n n (i + 1 + m) (i + suc m) refl (omega arith))

  select-none : (n i : ℕ) → ((v : ℕ) → i ≤ v → v < i + n → test v ≡ false) → select test n i ≡ []
  unfolding select
  select-none n i no_one = select_at n (n + 0) i i (omega arith) refl ∙ select-skip n 0 i no_one

  select-range :
      (n k i : ℕ)
      → ((v : ℕ) → i ≤ v → v < i + n → test v ≡ true)
      → ((v : ℕ) → i + n ≤ v → v < i + n + k → test v ≡ false)
      → select test (n + k) i ≡ range_from n i
  unfolding select range_from
  select-range zero k i each no_more =
      select_at (0 + k) k i i (omega arith) refl
      ∙ select-none k i λ v le lt. no_more v (omega (arith, le)) (omega (arith, lt))
  select-range (suc n) k i each no_more =
      let here : test i ≡ true = each i (omega arith) (omega arith) in
      let rest : select test (n + k) (i + 1) ≡ range_from n (i + 1) =
        select-range n k (i + 1) (λ v le lt. each v (omega (arith, le)) (omega (arith, lt)))
          (λ v le lt. no_more v (omega (arith, le)) (omega (arith, lt))) in
      select_at (suc n + k) (suc (n + k)) i i (omega arith) refl ∙ rw here (ap (λ vs. i ∷ vs) rest)

pub range_slice-select :
    (test : ℕ → Bool) (a b max : ℕ)
    → a ≤ b
    → b ≤ max
    → ((v : ℕ) → v < a → test v ≡ false)
    → ((v : ℕ) → a ≤ v → v ≤ b → test v ≡ true)
    → ((v : ℕ) → b < v → v ≤ max → test v ≡ false)
    → range_slice a b ≡ select test (max + 1) 0
unfolding range_slice
range_slice-select test a b max mid high below inside above =
    let n = b + 1 - a in
    sym (
      ap (λ m. select test m 0) {x = max + 1} {y = a + (n + (max - b))} (omega arith)
      ∙ select-skip test a (n + (max - b)) 0 (λ v le lt. below v (omega (arith, lt)))
      ∙ select_at test (n + (max - b)) (n + (max - b)) (0 + a) a refl (omega arith)
      ∙ select-range test n (max - b) a (λ v le lt. inside v le (omega (arith, lt)))
          (λ v le lt. above v (omega (arith, le)) (omega (arith, lt))))

-- The numbers from `min` on that are `min` plus a multiple of `n`.
abbrev pub is_stepped : ℕ → ℕ → ℕ → Bool
is_stepped min n v = leb min v && ((v - min) % n == 0)

module _ (min max n : ℕ) (above : 0 < n) (small : n + max < 2 ^ 63) where
  is_stepped-at : (q r : ℕ) → r < n → is_stepped min n (min + q * n + r) ≡ (r == 0)
  is_stepped-at q r lt =
      let rest : (min + q * n + r - min) % n ≡ r =
        ap (λ k. k % n) {x = min + q * n + r - min} {y = q * n + r} (omega arith)
        ∙ mul-add-mod_self_right q n r
        ∙ mod-eq_of_lt lt in
      ground (arith, rest)

  between : (q v : ℕ) → min + q * n + 1 ≤ v → v < min + q * n + n → is_stepped min n v ≡ false
  between q v low high =
      let r = v - (min + q * n) in
      ap (is_stepped min n) {x = v} {y = min + q * n + r} (omega arith)
      ∙ is_stepped-at q r (omega arith)
      ∙ ground (arith, low)

  steps_from-end : (fuel i : ℕ) → max < i → i < 2 ^ 63 → steps_from fuel n max i ≡ []
  unfolding steps_from
  steps_from-end zero i past top = refl
  steps_from-end (suc fuel) i past top = ground (arith, past, top)

  steps_from-next :
      (fuel i : ℕ) → i ≤ max → steps_from (suc fuel) n max i ≡ i ∷ steps_from fuel n max (i + n)
  unfolding steps_from
  steps_from-next fuel i le =
      let go : at_most i max ≡ true = ground (arith, le) in
      let next : (i + n) % 2 ^ 64 ≡ i + n = omega (arith, le, small) in rw (go, next) refl

  steps_from-select :
      (fuel q k : ℕ)
      → k ≤ fuel
      → min + q * n + k ≡ max + 1
      → steps_from fuel n max (min + q * n) ≡ select (is_stepped min n) k (min + q * n)
  unfolding select
  steps_from-select fuel q zero le e = steps_from-end fuel (min + q * n) (omega arith) (omega arith)
  steps_from-select zero q (suc k) le e = absurd (omega arith)
  steps_from-select (suc fuel) q (suc k) le e =
      let i = min + q * n in
      let here : is_stepped min n i ≡ true =
        ap (is_stepped min n) {x = i} {y = i + 0} (omega arith)
        ∙ is_stepped-at q 0 above
        ∙ ground arith in
      let rest : steps_from fuel n max (i + n) ≡ select (is_stepped min n) k (i + 1) =
        elim (dec_lt k (n - 1)) [
          | yes few ↦
              steps_from-end fuel (i + n) (omega (arith, few)) (omega arith)
              ∙ sym (
                  select-none (is_stepped min n) k (i + 1)
                    λ v le lt. between q v le (omega (arith, few, lt)))
          | no many ↦
              let next : min + suc q * n ≡ i + n = ap (λ m. min + m) (suc-mul q n) ∙ omega arith in
              ap (steps_from fuel n max) (sym next)
              ∙ steps_from-select fuel (suc q) (k + 1 - n) (omega arith) (omega (arith, next, many))
              ∙ ap (select (is_stepped min n) (k + 1 - n)) {x = min + suc q * n}
                  {y = i + 1 + (n - 1)} (next ∙ omega arith)
              ∙ sym (
                  select-skip (is_stepped min n) (n - 1) (k + 1 - n) (i + 1)
                    λ v le lt. between q v le (omega (arith, lt)))
              ∙ ap (λ m. select (is_stepped min n) m (i + 1)) {x = n - 1 + (k + 1 - n)} {y = k}
                  (omega (arith, many))
        ] in
      steps_from-next fuel i (omega arith) ∙ rw here (ap (λ vs. i ∷ vs) rest)

  pub steps_from-stepped :
      min ≤ max → steps_from (max + 1) n max min ≡ select (is_stepped min n) (max + 1) 0
  steps_from-stepped le =
      let start : min + 0 * n ≡ min = omega (arith, zero-mul n) in
      ap (steps_from (max + 1) n max) (sym start)
      ∙ steps_from-select (max + 1) 0 (max + 1 - min) (omega arith) (omega (arith, start))
      ∙ ap (select (is_stepped min n) (max + 1 - min)) start
      ∙ sym (
          ap (λ m. select (is_stepped min n) m 0) {x = max + 1} {y = min + (max + 1 - min)}
            (omega arith)
          ∙ select-skip (is_stepped min n) min (max + 1 - min) 0 (λ v le lt. ground (arith, lt))
          ∙ select_at (is_stepped min n) (max + 1 - min) (max + 1 - min) (0 + min) min refl
              (omega arith))
