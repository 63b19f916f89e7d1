-- ===== src/Prelude/Int.antt =====
-- Signed integers over the native numbers. A Go `int` argument that may be negative or zero, and a
-- `time.Duration`, are such integers.
use gocc.Prelude.{ℕ, zero, suc, ◌+◌, ◌-◌, ◌≡◌, Bool, true, false, ltb, arith}

-- `negsuc n` is -(n + 1).
pub data ℤ : Type 0 where
  pos : ℕ → ℤ
  negsuc : ℕ → ℤ

abbrev pub pos_part : ℤ → ℕ
pos_part (pos n) = n
pos_part (negsuc n) = 0

abbrev pub neg_part : ℤ → ℕ
neg_part (pos n) = 0
neg_part (negsuc n) = suc n

-- `0 < d`
abbrev pub is_pos : ℤ → Bool
is_pos (pos n) = ltb 0 n
is_pos (negsuc n) = false

-- `t.Add(d)` for an instant `t`, which is a number of nanoseconds since the zero time.
abbrev pub add_to : ℕ → ℤ → ℕ
add_to t d = t + pos_part d - neg_part d

-- `a < b`
abbrev pub ltz : ℤ → ℤ → Bool
ltz (pos m) (pos n) = ltb m n
ltz (pos m) (negsuc n) = false
ltz (negsuc m) (pos n) = true
ltz (negsuc m) (negsuc n) = ltb n m

-- `a++`
abbrev pub increment : ℤ → ℤ
increment (pos n) = pos (n + 1)
increment (negsuc zero) = pos 0
increment (negsuc (suc n)) = negsuc n

-- `a - b`, or 0 when that is negative.
abbrev pub excess : ℤ → ℤ → ℕ
excess a b = (pos_part a + neg_part b) - (neg_part a + pos_part b)

pub excess-increment : (a b : ℤ) → ltz b a ≡ true → suc (excess a (increment b)) ≡ excess a b
excess-increment (pos m) (pos n) lt = ground (arith, lt)
excess-increment (pos m) (negsuc zero) lt = omega arith
excess-increment (pos m) (negsuc (suc n)) lt = omega arith
excess-increment (negsuc m) (pos n) lt = ground (arith, lt)
excess-increment (negsuc m) (negsuc zero) lt = ground (arith, lt)
excess-increment (negsuc m) (negsuc (suc n)) lt = ground (arith, lt)
