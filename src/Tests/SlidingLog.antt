-- ===== src/Tests/SlidingLog.antt =====
-- A log that admits two requests in any ten nanoseconds.
use gocc.Prelude.{ℕ, ◌^◌, ◌-◌, ◌≤◌, ◌≡◌, refl, true, List, [], ◌∷◌, ltb, arith}
use gocc.Prelude.Int.{pos, negsuc}
use gocc.RateLimiter.SlidingLog.{new_sliding_window_log, cleanup, allow, allow_n, fits_limit}
use gocc.RateLimiter.SlidingLog.Window.{Call, allows, allows_n, run, SmallRequests}
use gocc.RateLimiter.SlidingLog.Logs.{count_in}
use gocc.RateLimiter.SlidingLog.Runs.{admissions, window_limit, allow_exact}

abbrev calls : List (ℕ × Call)
calls = (5, allows) ∷ (7, allows_n (pos 2)) ∷ (8, allows) ∷ (9, allows) ∷ (16, allows) ∷ []

-- The requests at 7 and 9 are refused, and the one at 16 comes after the first has left the window.
calls_admitted : admissions (pos 2) (pos 10) calls ≡ 5 ∷ 8 ∷ 16 ∷ []
unfolding new_sliding_window_log run allow allow_n cleanup
calls_admitted = refl

-- AllowN of a negative number succeeds and admits nothing.
negative_request : (allow_n (new_sliding_window_log (pos 2) (pos 10)) (negsuc 0) 5).1 ≡ true
unfolding new_sliding_window_log allow_n cleanup
negative_request = refl

-- A request for 2^63 - 1 after one that was admitted wraps round, and is admitted.
wrapped_request : fits_limit (5 ∷ []) (pos (2 ^ 63 - 1)) (pos 2) ≡ true
wrapped_request = refl

small_calls : SmallRequests 2 calls
small_calls = (tt, (omega arith, (tt, (tt, (tt, tt)))))

window_limit_example : count_in (pos 10) 16 (admissions (pos 2) (pos 10) calls) ≤ 2
window_limit_example = window_limit (pos 2) (pos 10) calls 16 (omega arith) small_calls

allow_exact_example :
    (allow (run (new_sliding_window_log (pos 2) (pos 10)) [] calls).0 20).1
    ≡ ltb (count_in (pos 10) 20 (admissions (pos 2) (pos 10) calls)) 2
allow_exact_example = allow_exact (pos 2) (pos 10) calls 20 (omega arith) small_calls
