-- ===== src/ConcurrentMap/Sharding/PowerOf2.antt =====
-- nextPowerOf2 smears the highest one of n - 1 over all the digits below it.
use gocc.Prelude.{
  ℕ, zero, suc, ◌+◌, ◌-◌, ◌/◌, ◌^◌, ◌≤◌, ◌<◌, ◌≡◌, ◌∙◌, inl, inr, refl, sym, ap, ap₂, leb, ltb,
  Bool-cases, tests, arith,
}
use gocc.Prelude.Bits.{bit, bit_or-digit, bit_le, bit_or-lt}
use gocc.Prelude.Int.{ℤ, pos, negsuc, pos_part}
use gocc.ConcurrentMap.Sharding.{or_shift, next_power_of_2}
use native.Mathlib.Nat.{pow-suc, pow-le-pow_right, div-le_self, div-div-eq-div-mul}

-- The `j` highest of the digits 0 to `top` are ones, and there is no digit above.
record Smeared (top j a : ℕ) : Type 0 where
  below : a < 2 ^ suc top
  ones : (i : ℕ) → i ≤ top → top < i + j → bit i a ≡ 1

bit-shift : (k i a : ℕ) → bit i (a / 2 ^ k) ≡ bit (i + k) a
unfolding bit
bit-shift zero i a =
    let e : i ≡ i + 0 = omega arith in let f : a / 2 ^ 0 ≡ a = omega arith in ap₂ bit e f
bit-shift (suc k) i a =
    let halves : a / 2 ^ suc k ≡ a / 2 / 2 ^ k =
      ap (λ (n : ℕ). a / n) (omega (arith, pow-suc 2 k)) ∙ sym (div-div-eq-div-mul a 2 (2 ^ k)) in
    let next : suc (i + k) ≡ i + suc k = omega arith in
    ap (bit i) halves ∙ bit-shift k i (a / 2) ∙ ap (λ n. bit n a) next

or_shift-Smeared : (top k a : ℕ) → Smeared top k a → Smeared top (k + k) (or_shift k a)
or_shift-Smeared top k a s = record {
  below = bit_or-lt (suc top) a (a / 2 ^ k) s.below (omega (arith, div-le_self a (2 ^ k), s.below));
  ones = λ i le gt. elim (Bool-cases (ltb top (i + k))) [
    | inl near ↦ omega (
      arith,
      bit_or-digit i a (a / 2 ^ k),
      s.ones i le (omega (tests, near)),
      bit_le i (a / 2 ^ k),
    )
    | inr far ↦ omega (
      arith,
      bit_or-digit i a (a / 2 ^ k),
      bit-shift k i a,
      s.ones (i + k) (ground (arith, far)) (omega (arith, gt)),
      bit_le i a,
    )
  ];
}

-- A positive number has a highest one.
highest : (fuel a : ℕ) → 0 < a → a ≤ fuel → (top : ℕ) × (2 ^ top ≤ a) × Smeared top 1 a
unfolding bit
highest zero a h k = absurd (omega arith)
highest (suc fuel) zero h k = absurd (omega arith)
highest (suc fuel) (suc zero) h k = (
  0,
  omega arith,
  record {
    below = omega arith;
    ones = λ i le gt. let e : i ≡ 0 = omega arith in ap (λ n. bit n 1) e;
  },
)
highest (suc fuel) (suc (suc b)) h k =
    let a = suc (suc b) in
    let (top, low, s) = highest fuel (a / 2) (omega arith) (omega arith) in
    (
      suc top,
      omega (arith, pow-suc 2 top),
      record {
        below = omega (arith, pow-suc 2 (suc top), s.below);
        ones = λ i le gt.
            let e : i ≡ suc top = omega arith in
            ap (λ n. bit n a) e ∙ s.ones top (omega arith) (omega arith);
      },
    )

all_ones : (top a : ℕ) → ((i : ℕ) → i ≤ top → bit i a ≡ 1) → 2 ^ suc top ≤ a + 1
unfolding bit
all_ones zero a h = ground (arith, h 0)
all_ones (suc top) a h = omega (
  arith,
  pow-suc 2 (suc top),
  all_ones top (a / 2) (λ i le. h (suc i) (omega arith)),
  h 0 (omega arith),
)

abbrev smear : ℕ → ℕ
smear a = or_shift 16 (or_shift 8 (or_shift 4 (or_shift 2 (or_shift 1 a))))

smear-Smeared : (top a : ℕ) → Smeared top 1 a → Smeared top 32 (smear a)
smear-Smeared top a s = or_shift-Smeared top 16 _ (
    or_shift-Smeared top 8 _
      (or_shift-Smeared top 4 _ (or_shift-Smeared top 2 _ (or_shift-Smeared top 1 a s))))

pow_reflects : (i j : ℕ) → 2 ^ i < 2 ^ j → i < j
pow_reflects i j h = elim (Bool-cases (ltb i j)) [
  | inl e ↦ omega (tests, e)
  | inr e ↦
      let le : j ≤ i = ground (arith, e) in
      absurd (omega (arith, h, pow-le-pow_right {n = 2} (omega arith) le))
]

smear_all : (top a : ℕ) → 2 ^ top ≤ a → a < 2 ^ 32 → Smeared top 1 a → smear a + 1 ≡ 2 ^ suc top
smear_all top a low h s =
    let t = smear-Smeared top a s in
    let small : top < 32 = pow_reflects top 32 (omega arith) in
    omega (arith, t.below, all_ones top (smear a) (λ i le. t.ones i le (omega arith)))

-- Up to 2 ^ 32, nextPowerOf2 gives the least power of two that is not below its argument.
pub next_power_of_2-least :
    (n : ℤ)
    → pos_part n ≤ 2 ^ 32
    → (k : ℕ) × (next_power_of_2 n ≡ 2 ^ k)
      × (pos_part n ≤ 2 ^ k)
      × ((j : ℕ) → pos_part n ≤ 2 ^ j → k ≤ j)
unfolding next_power_of_2
next_power_of_2-least (negsuc n) h = (0, refl, omega arith, λ j _. omega arith)
next_power_of_2-least (pos n) h = elim (Bool-cases (leb n 1)) [
  | inl small ↦ (0, rw small refl, omega (tests, small), λ j _. omega arith)
  | inr large ↦
      let many : 1 < n = ground (arith, large) in
      let (top, low, s) = highest (n - 1) (n - 1) (omega arith) (omega arith) in
      (
        suc top,
        rw large (smear_all top (n - 1) low (omega arith) s),
        omega (arith, s.below),
        λ j fits. pow_reflects top j (omega (arith, low, fits)),
      )
]
