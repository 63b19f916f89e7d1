-- ===== src/RateLimiter/SlidingLog.antt =====
-- ratelimiter/sliding_window.go, the type SlidingWindowLog. Instants are nanoseconds; the clock's
-- reading `now` is an argument of each method.
pub mod Cleanup
pub mod Logs
pub mod Window
pub mod Runs
use gocc.Prelude.{
  ℕ, suc, ◌+◌, ◌-◌, ◌^◌, Bool, true, false, List, [], ◌∷◌, ◌++◌, ltb, leb, ◌==◌, if◌then◌else◌,
  length, replicate, drop,
}
use gocc.Prelude.Int.{ℤ, pos_part, neg_part}

pub record SlidingWindowLog : Type 0 where
  pub timestamps : List ℕ
  pub limit : ℤ
  pub window : ℤ

unfoldable pub new_sliding_window_log : ℤ → ℤ → SlidingWindowLog
new_sliding_window_log limit window = record { timestamps = []; limit = limit; window = window }

-- `ts.After(now.Add(-window))`
abbrev pub after_start : (window : ℤ) (now ts : ℕ) → Bool
after_start window now ts = ltb (now + neg_part window) (ts + pos_part window)

-- The loop of `cleanup`: `n` is `len(sw.timestamps)`, `i` the index, `valid` the variable
-- `validIndex`.
unfoldable pub valid_index : (window : ℤ) (now n i valid : ℕ) → List ℕ → ℕ
valid_index window now n i valid [] = valid
valid_index window now n i valid (ts ∷ rest) =
    if after_start window now ts
    then i
    else valid_index window now n (suc i) (if i == n - 1 then n else valid) rest

unfoldable pub cleanup : SlidingWindowLog → ℕ → SlidingWindowLog
unfolding valid_index
cleanup sw now =
    let valid = valid_index sw.window now (length sw.timestamps) 0 0 sw.timestamps in
    if ltb 0 valid then record sw { timestamps = drop valid sw.timestamps } else sw

-- `len(ts) < limit`
abbrev pub below_limit : List ℕ → ℤ → Bool
below_limit ts limit = ltb (length ts) (pos_part limit)

unfoldable pub allow : SlidingWindowLog → ℕ → SlidingWindowLog × Bool
allow sw now =
    let sw' = cleanup sw now in
    if below_limit sw'.timestamps sw'.limit
    then (record sw' { timestamps = sw'.timestamps ++ now ∷ [] }, true)
    else (sw', false)

-- What is taken off a sum that does not fit into Go's int, which then wraps round.
abbrev pub wrapped : ℕ → ℕ
wrapped sum = if ltb sum (2 ^ 63) then 0 else 2 ^ 64

-- `len(ts)+n <= limit`
abbrev pub fits_limit : List ℕ → ℤ → ℤ → Bool
fits_limit ts n limit =
    leb (length ts + pos_part n + neg_part limit)
      (pos_part limit + neg_part n + wrapped (length ts + pos_part n))

unfoldable pub allow_n : SlidingWindowLog → ℤ → ℕ → SlidingWindowLog × Bool
allow_n sw n now =
    let sw' = cleanup sw now in
    if fits_limit sw'.timestamps n sw'.limit
    then (record sw' { timestamps = sw'.timestamps ++ replicate (pos_part n) now }, true)
    else (sw', false)

unfoldable pub count : SlidingWindowLog → ℕ → SlidingWindowLog × ℕ
count sw now = let sw' = cleanup sw now in (sw', length sw'.timestamps)
