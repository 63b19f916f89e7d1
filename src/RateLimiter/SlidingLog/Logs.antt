-- ===== src/RateLimiter/SlidingLog/Logs.antt =====
-- Sorted logs of instants, and how many of them lie in a window.
use gocc.Prelude.{
  ℕ, zero, suc, ◌+◌, ◌≤◌, ◌<◌, ◌≡◌, refl, true, ◌&&◌, List, [], ◌∷◌, ◌++◌, leb, if◌then◌else◌, ltb,
  Bool, length, replicate, All, All-append, arith,
}
use gocc.Prelude.Int.{ℤ, pos_part, neg_part}
use gocc.RateLimiter.SlidingLog.{after_start}
use gocc.RateLimiter.SlidingLog.Cleanup.{drop_expired, expired_prefix}

-- Later than `window` before `t`, and not after `t`.
abbrev pub in_window : ℤ → ℕ → ℕ → Bool
in_window window t ts = leb ts t && ltb (t + neg_part window) (ts + pos_part window)

-- How many entries lie in the window that ends at `t`.
unfoldable pub count_in : ℤ → ℕ → List ℕ → ℕ
count_in window t [] = 0
count_in window t (ts ∷ rest) =
    if in_window window t ts then suc (count_in window t rest) else count_in window t rest

abbrev pub Sorted : List ℕ → Type 0
Sorted [] = Unit
Sorted (x ∷ xs) = All (λ y. x ≤ y) xs × Sorted xs

abbrev pub AllExpired : ℤ → ℕ → List ℕ → Type 0
AllExpired window now = All (λ x. x + pos_part window ≤ now + neg_part window)

module _ (window : ℤ) (t : ℕ) where
  pub count_in-append :
      (xs ys : List ℕ) → count_in window t (xs ++ ys) ≡ count_in window t xs + count_in window t ys
  unfolding count_in
  count_in-append [] ys = omega arith
  count_in-append (x ∷ xs) ys = ground (arith, count_in-append xs ys)

  pub count_in-le-length : (xs : List ℕ) → count_in window t xs ≤ length xs
  unfolding count_in
  count_in-le-length [] = omega arith
  count_in-le-length (x ∷ xs) = ground (arith, count_in-le-length xs)

  pub count_in_expired :
      (now : ℕ) (xs : List ℕ) → now ≤ t → AllExpired window now xs → count_in window t xs ≡ 0
  unfolding count_in
  count_in_expired now [] h e = refl
  count_in_expired now (x ∷ xs) h e = ground (arith, count_in_expired now xs h e.1)

  pub count_in_future : (now k : ℕ) → t < now → count_in window t (replicate k now) ≡ 0
  unfolding count_in
  count_in_future now zero h = refl
  count_in_future now (suc k) h = ground (arith, count_in_future now k h)

pub expired_prefix-AllExpired :
    (window : ℤ) (now : ℕ) (xs : List ℕ) → AllExpired window now (expired_prefix window now xs)
unfolding expired_prefix
expired_prefix-AllExpired window now [] = tt
expired_prefix-AllExpired window now (x ∷ xs) =
    ground (arith, expired_prefix-AllExpired window now xs)

pub AllExpired-mono :
    (window : ℤ) (last now : ℕ) (xs : List ℕ)
    → last ≤ now
    → AllExpired window last xs
    → AllExpired window now xs
AllExpired-mono window last now [] h e = tt
AllExpired-mono window last now (x ∷ xs) h e =
    (omega arith, AllExpired-mono window last now xs h e.1)

pub All-le_mono :
    (last now : ℕ) (xs : List ℕ) → last ≤ now → All (λ x. x ≤ last) xs → All (λ x. x ≤ now) xs
All-le_mono last now [] h e = tt
All-le_mono last now (x ∷ xs) h e = (omega arith, All-le_mono last now xs h e.1)

-- In a sorted log an entry after a live one is live.
count_in_live :
    (window : ℤ) (now x : ℕ) (xs : List ℕ)
    → after_start window now x ≡ true
    → All (λ y. x ≤ y) xs
    → All (λ y. y ≤ now) xs
    → count_in window now xs ≡ length xs
unfolding count_in
count_in_live window now x [] h low high = refl
count_in_live window now x (y ∷ xs) h low high =
    ground (arith, count_in_live window now x xs h low.1 high.1)

pub count_in-drop_expired :
    (window : ℤ) (now : ℕ) (xs : List ℕ)
    → Sorted xs
    → All (λ y. y ≤ now) xs
    → count_in window now (drop_expired window now xs) ≡ length (drop_expired window now xs)
unfolding count_in drop_expired
count_in-drop_expired window now [] s high = refl
count_in-drop_expired window now (x ∷ xs) s high =
    ground (arith, count_in-drop_expired window now xs s.1 high.1, count_in_live window now x xs)

pub drop_expired-keeps :
    (window : ℤ) (now n : ℕ) (xs : List ℕ)
    → Sorted xs
    → All (λ y. y ≤ n) xs
    → Sorted (drop_expired window now xs)
      × All (λ y. y ≤ n) (drop_expired window now xs)
      × (length (drop_expired window now xs) ≤ length xs)
unfolding drop_expired
drop_expired-keeps window now n [] s high = (tt, tt, omega arith)
drop_expired-keeps window now n (x ∷ xs) s high =
    ground (arith, drop_expired-keeps window now n xs s.1 high.1)

pub All-le-replicate : (k now : ℕ) → All (λ y. y ≤ now) (replicate k now)
All-le-replicate zero now = tt
All-le-replicate (suc k) now = (omega arith, All-le-replicate k now)

All-ge-replicate : (k x now : ℕ) → x ≤ now → All (λ y. x ≤ y) (replicate k now)
All-ge-replicate zero x now h = tt
All-ge-replicate (suc k) x now h = (h, All-ge-replicate k x now h)

Sorted-replicate : (k now : ℕ) → Sorted (replicate k now)
Sorted-replicate zero now = tt
Sorted-replicate (suc k) now = (All-ge-replicate k now now (omega arith), Sorted-replicate k now)

pub Sorted-append :
    (k now : ℕ) (xs : List ℕ) → Sorted xs → All (λ y. y ≤ now) xs → Sorted (xs ++ replicate k now)
Sorted-append k now [] s high = Sorted-replicate k now
Sorted-append k now (x ∷ xs) s high = (
  All-append (λ y. x ≤ y) xs (replicate k now) s.0 (All-ge-replicate k x now high.0),
  Sorted-append k now xs s.1 high.1,
)
