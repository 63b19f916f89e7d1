-- ===== src/Prelude/Bits.antt =====
-- The binary digits of native numbers, and what `|` and `&` do to them.
use Prim.Native.Nat.{max, min, digits, bit_and, bit_or, bit_and-bitwise, bit_or-bitwise}
use gocc.Prelude.{
  ℕ, zero, suc, ◌+◌, ◌-◌, ◌*◌, ◌/◌, ◌%◌, ◌^◌, ◌≤◌, ◌<◌, ◌≡◌, ◌∙◌, refl, ap, ap₂, arith,
}
use native.Mathlib.Nat.{
  pow-suc, one-le-pow, mod-lt, div-add-mod, mul-add-mod_self_left, mod-eq_of_lt,
}

-- Once the fuel reaches the first number, more of it changes nothing.
enough_fuel :
    (z : ℕ → ℕ) (f : ℕ → ℕ → ℕ) (fuel more a b : ℕ)
    → a ≤ fuel
    → fuel ≤ more
    → digits z f more a b ≡ digits z f fuel a b
enough_fuel z f zero zero a b h k = refl
enough_fuel z f (suc fuel) zero a b h k = absurd (omega arith)
enough_fuel z f zero (suc more) zero b h k = refl
enough_fuel z f zero (suc more) (suc a) b h k = absurd (omega arith)
enough_fuel z f (suc fuel) (suc more) zero b h k = refl
enough_fuel z f (suc fuel) (suc more) (suc a) b h k =
    rw (enough_fuel z f fuel more (suc a / 2) (b / 2) (omega arith) (omega arith)) refl

or_lowest : (a b : ℕ) → bit_or a b ≡ bit_or (a / 2) (b / 2) * 2 + max (a % 2) (b % 2)
or_lowest zero b = simp bit_or-bitwise (omega arith)
or_lowest (suc a) b = simp bit_or-bitwise (
    rw (enough_fuel (λ y. y) max (suc a / 2) a (suc a / 2) (b / 2) (omega arith) (omega arith))
      refl)

and_lowest : (a b : ℕ) → bit_and a b ≡ bit_and (a / 2) (b / 2) * 2 + min (a % 2) (b % 2)
and_lowest zero b = simp bit_and-bitwise (omega arith)
and_lowest (suc a) b = simp bit_and-bitwise (
    rw (enough_fuel (λ y. 0) min (suc a / 2) a (suc a / 2) (b / 2) (omega arith) (omega arith))
      refl)

unfoldable pub bit : ℕ → ℕ → ℕ
bit zero a = a % 2
bit (suc i) a = bit i (a / 2)

pub bit_or-digit : (i a b : ℕ) → bit i (bit_or a b) ≡ max (bit i a) (bit i b)
unfolding bit
bit_or-digit zero a b = omega (arith, or_lowest a b)
bit_or-digit (suc i) a b =
    let half : bit_or a b / 2 ≡ bit_or (a / 2) (b / 2) = omega (arith, or_lowest a b) in
    ap (bit i) half ∙ bit_or-digit i (a / 2) (b / 2)

pub bit_le : (i a : ℕ) → bit i a ≤ 1
unfolding bit
bit_le zero a = omega arith
bit_le (suc i) a = bit_le i (a / 2)

pub bit_or-lt : (w a b : ℕ) → a < 2 ^ w → b < 2 ^ w → bit_or a b < 2 ^ w
bit_or-lt zero a b h k = ground (arith, or_lowest a b)
bit_or-lt (suc w) a b h k = omega (
  arith,
  or_lowest a b,
  pow-suc 2 w,
  bit_or-lt w (a / 2) (b / 2) (omega (arith, pow-suc 2 w)) (omega (arith, pow-suc 2 w)),
)

and_below : (fuel a b : ℕ) → digits (λ y. 0) min fuel a b ≤ b
and_below zero a b = omega arith
and_below (suc fuel) zero b = omega arith
and_below (suc fuel) (suc a) b = omega (arith, and_below fuel (suc a / 2) (b / 2))

pub bit_and-le : (a b : ℕ) → bit_and a b ≤ b
bit_and-le a b = simp bit_and-bitwise (and_below a a b)

mod_double : (h p : ℕ) → 0 < p → h % (p * 2) ≡ h / 2 % p * 2 + h % 2
mod_double h p pos =
    let r = h / 2 % p * 2 + h % 2 in
    let small : r < p * 2 = omega (arith, mod-lt (h / 2) pos) in
    let whole : h ≡ p * 2 * (h / 2 / p) + r =
      grind (arith, div-add-mod (h / 2) p, div-add-mod h 2) in
    ap (λ (n : ℕ). n % (p * 2)) whole
    ∙ mul-add-mod_self_left (p * 2) (h / 2 / p) r
    ∙ mod-eq_of_lt small

-- `h & (2 ^ k - 1)` is `h` modulo 2 ^ k.
pub bit_and-mask : (k h : ℕ) → bit_and h (2 ^ k - 1) ≡ h % 2 ^ k
bit_and-mask zero h = omega (arith, bit_and-le h 0)
bit_and-mask (suc k) h =
    let one : 1 ≤ 2 ^ k = one-le-pow k 2 (omega arith) in
    let half : (2 ^ suc k - 1) / 2 ≡ 2 ^ k - 1 = omega (arith, pow-suc 2 k) in
    let odd : (2 ^ suc k - 1) % 2 ≡ 1 = omega (arith, pow-suc 2 k, one) in
    and_lowest h (2 ^ suc k - 1)
    ∙ ap₂ (λ (x y : ℕ). bit_and (h / 2) x * 2 + min (h % 2) y) half odd
    ∙ omega (
      arith,
      bit_and-mask k (h / 2),
      mod_double h (2 ^ k) one,
      ap (λ (n : ℕ). h % n) (pow-suc 2 k),
    )
