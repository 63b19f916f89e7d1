-- ===== src/RateLimiter/SlidingLog/Runs.antt =====
-- SlidingWindowLog from its constructor on, under any sequence of Allow and AllowN.
use gocc.Prelude.{ℕ, ◌≤◌, ◌≡◌, refl, List, [], ◌∷◌, ◌++◌, ltb, arith, ◌∙◌, subst, sym}
use gocc.Prelude.Int.{ℤ, pos_part}
use gocc.RateLimiter.SlidingLog.{SlidingWindowLog, new_sliding_window_log, cleanup, allow, allow_n}
use gocc.RateLimiter.SlidingLog.Window.{
  Call, allows, allows_n, call, admitted, run, ClockFrom, SmallRequests, Tracks, Tracks-call,
  allow-count_in,
}
use gocc.RateLimiter.SlidingLog.Logs.{count_in}

abbrev last_of : ℕ → List (ℕ × Call) → ℕ
last_of last [] = last
last_of last ((now, c) ∷ calls) = last_of now calls

ClockFrom-last :
    (last now : ℕ) (c : Call) (calls : List (ℕ × Call))
    → ClockFrom last (calls ++ (now, c) ∷ [])
    → ClockFrom last calls × (last_of last calls ≤ now)
ClockFrom-last last now c [] h = (tt, h.0)
ClockFrom-last last now c ((n, d) ∷ calls) h =
    let (rest, le) = ClockFrom-last n now c calls h.1 in ((h.0, rest), le)

call-config :
    (sw : SlidingWindowLog) (now : ℕ) (c : Call)
    → ((call sw now c).0.window ≡ sw.window) × ((call sw now c).0.limit ≡ sw.limit)
unfolding allow allow_n cleanup
call-config sw now allows = ground arith
call-config sw now (allows_n n) = ground arith

run-config :
    (sw : SlidingWindowLog) (log : List ℕ) (calls : List (ℕ × Call))
    → ((run sw log calls).0.window ≡ sw.window) × ((run sw log calls).0.limit ≡ sw.limit)
unfolding run
run-config sw log [] = (refl, refl)
run-config sw log ((now, c) ∷ calls) =
    let r = call sw now c in
    let (w, l) = run-config r.0 (log ++ admitted now c r.1) calls in
    (w ∙ (call-config sw now c).0, l ∙ (call-config sw now c).1)

run-Tracks :
    (sw : SlidingWindowLog) (log : List ℕ) (last : ℕ) (calls : List (ℕ × Call))
    → Tracks sw log last
    → ClockFrom last calls
    → SmallRequests (pos_part sw.limit) calls
    → Tracks (run sw log calls).0 (run sw log calls).1 (last_of last calls)
unfolding run
run-Tracks sw log last [] v h small = v
run-Tracks sw log last ((now, c) ∷ calls) v h small =
    let r = call sw now c in
    run-Tracks r.0 (log ++ admitted now c r.1) now calls (Tracks-call v now h.0 c small.0) h.1
      (subst (λ l. SmallRequests (pos_part l) calls) (sym (call-config sw now c).1) small.1)

new-Tracks : (limit window : ℤ) → Tracks (new_sliding_window_log limit window) [] 0
unfolding new_sliding_window_log count_in
new-Tracks limit window = record {
  old = [];
  split = refl;
  expired = tt;
  past = tt;
  sorted = tt;
  bounded = omega arith;
  within = λ t. omega arith;
}

-- All instants that a limiter built with `limit` and `window` has admitted after `calls`.
abbrev pub admissions : ℤ → ℤ → List (ℕ × Call) → List ℕ
admissions limit window calls = (run (new_sliding_window_log limit window) [] calls).1

-- After any sequence of Allow and AllowN calls on a fresh limiter whose clock never goes back, at
-- most `limit` admitted requests lie in the window that ends at t, for every instant t: those not
-- after t and later than `window` before it. Each AllowN asks for so few that their sum with the limit
-- is below 2^63. A limit below zero counts as zero.
pub window_limit :
    (limit window : ℤ) (calls : List (ℕ × Call)) (t : ℕ)
    → ClockFrom 0 calls
    → SmallRequests (pos_part limit) calls
    → count_in window t (admissions limit window calls) ≤ pos_part limit
unfolding new_sliding_window_log
window_limit limit window calls t h small =
    let v = run-Tracks _ [] 0 calls (new-Tracks limit window) h small in
    let (w, l) = run-config (new_sliding_window_log limit window) [] calls in
    rw (w, l) at (v.within t)

-- On a limiter that has seen any sequence of Allow and AllowN calls, with a clock that has not gone
-- back and no AllowN for so many that their sum with the limit reaches 2^63, Allow admits a request
-- exactly if fewer than `limit` of the admitted requests lie in the window that ends now: later than
-- `window` before it.
pub allow_exact :
    (limit window : ℤ) (calls : List (ℕ × Call)) (now : ℕ)
    → ClockFrom 0 (calls ++ (now, allows) ∷ [])
    → SmallRequests (pos_part limit) calls
    → (allow (run (new_sliding_window_log limit window) [] calls).0 now).1
      ≡ ltb (count_in window now (admissions limit window calls)) (pos_part limit)
unfolding new_sliding_window_log
allow_exact limit window calls now h small =
    let (clock, le) = ClockFrom-last 0 now allows calls h in
    let v = run-Tracks _ [] 0 calls (new-Tracks limit window) clock small in
    let (w, l) = run-config (new_sliding_window_log limit window) [] calls in
    rw (w, l) at (allow-count_in v now le)
