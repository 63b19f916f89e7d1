-- ===== src/RateLimiter/SlidingLog/Window.antt =====
-- The promise of SlidingWindowLog: over any sequence of calls whose clock readings do not go back,
-- no window holds more admitted requests than the limit, and a request is refused only then.
use native.Mathlib.Decide.{dec_lt}
use gocc.Prelude.{
  ℕ, ◌+◌, ◌^◌, ◌≤◌, ◌<◌, ◌≡◌, sym, ap, ◌∙◌, Bool, true, false, List, [], ◌∷◌, ◌++◌, ltb, length,
  length-append, length-replicate, replicate, All, All-append, append_assoc, append-nil, subst,
  Bool-cases, inl, inr, arith,
}
use gocc.Prelude.Int.{ℤ, pos_part}
use gocc.RateLimiter.SlidingLog.{SlidingWindowLog, allow, allow_n, below_limit, fits_limit}
use gocc.RateLimiter.SlidingLog.Cleanup.{
  drop_expired, expired_prefix, prefix-drop, cleanup-drop_expired,
}
use gocc.RateLimiter.SlidingLog.Logs.{
  count_in, Sorted, AllExpired, count_in-append, count_in-le-length, count_in_expired,
  count_in_future, expired_prefix-AllExpired, AllExpired-mono, All-le_mono, count_in-drop_expired,
  drop_expired-keeps, All-le-replicate, Sorted-append,
}

pub data Call : Type 0 where
  allows : Call
  allows_n : ℤ → Call

-- A request that is added to as many entries as the limit without wrapping round.
abbrev pub Small : ℕ → Call → Type 0
Small limit allows = Unit
Small limit (allows_n n) = limit + pos_part n < 2 ^ 63

abbrev pub SmallRequests : ℕ → List (ℕ × Call) → Type 0
SmallRequests limit [] = Unit
SmallRequests limit ((now, c) ∷ calls) = Small limit c × SmallRequests limit calls

-- What a call does to the limiter, and the instants that it admits.
abbrev pub call : SlidingWindowLog → ℕ → Call → SlidingWindowLog × Bool
call sw now allows = allow sw now
call sw now (allows_n n) = allow_n sw n now

abbrev pub admitted : ℕ → Call → Bool → List ℕ
admitted now c false = []
admitted now allows true = now ∷ []
admitted now (allows_n n) true = replicate (pos_part n) now

-- A run carries the log of all instants ever admitted, which the limiter does not keep.
unfoldable pub run : SlidingWindowLog → List ℕ → List (ℕ × Call) → SlidingWindowLog × List ℕ
run sw log [] = (sw, log)
run sw log ((now, c) ∷ calls) = let r = call sw now c in run r.0 (log ++ admitted now c r.1) calls

abbrev pub ClockFrom : ℕ → List (ℕ × Call) → Type 0
ClockFrom last [] = Unit
ClockFrom last ((now, c) ∷ calls) = (last ≤ now) × ClockFrom now calls

-- The limiter's log is the recent end of the log of all admissions.
pub record Tracks (sw : SlidingWindowLog) (log : List ℕ) (last : ℕ) : Type 0 where
  pub old : List ℕ
  pub split : log ≡ old ++ sw.timestamps
  pub expired : AllExpired sw.window last old
  pub past : All (λ y. y ≤ last) sw.timestamps
  pub sorted : Sorted sw.timestamps
  pub bounded : length sw.timestamps ≤ pos_part sw.limit
  pub within : (t : ℕ) → count_in sw.window t log ≤ pos_part sw.limit

module _ {sw : SlidingWindowLog} {log : List ℕ} {last : ℕ} (v : Tracks sw log last) (now : ℕ)
    (le : last ≤ now) where
  live : List ℕ
  live = drop_expired sw.window now sw.timestamps

  gone : List ℕ
  gone = v.old ++ expired_prefix sw.window now sw.timestamps

  gone-AllExpired : AllExpired sw.window now gone
  unfolding gone
  gone-AllExpired =
      All-append _ v.old _ (AllExpired-mono sw.window last now v.old le v.expired)
        (expired_prefix-AllExpired sw.window now sw.timestamps)

  log-split : log ≡ gone ++ live
  unfolding gone live
  log-split =
      v.split
      ∙ sym (
          append_assoc v.old (expired_prefix sw.window now sw.timestamps)
            (drop_expired sw.window now sw.timestamps)
          ∙ ap (◌++◌ v.old) (prefix-drop sw.window now sw.timestamps))

  live-keeps : Sorted live × All (λ y. y ≤ now) live × (length live ≤ length sw.timestamps)
  unfolding live
  live-keeps =
      drop_expired-keeps sw.window now now sw.timestamps v.sorted
        (All-le_mono last now sw.timestamps le v.past)

  -- Exactly the live entries lie in the window that ends now.
  count_in-log : count_in sw.window now log ≡ length live
  unfolding live
  count_in-log = omega (
    arith,
    ap (count_in sw.window now) log-split,
    count_in-append sw.window now gone (drop_expired sw.window now sw.timestamps),
    count_in_expired sw.window now now gone (omega arith) gone-AllExpired,
    count_in-drop_expired sw.window now sw.timestamps v.sorted
        (All-le_mono last now sw.timestamps le v.past),
  )

  within-admit :
      (k : ℕ)
      → length live + k ≤ pos_part sw.limit
      → (t : ℕ) → count_in sw.window t (log ++ replicate k now) ≤ pos_part sw.limit
  within-admit k h t = elim (dec_lt t now) [
    | yes early ↦ omega (
      arith,
      count_in-append sw.window t log (replicate k now),
      count_in_future sw.window t now k early,
      v.within t,
    )
    | no late ↦ omega (
      arith,
      count_in-append sw.window t log (replicate k now),
      ap (count_in sw.window t) log-split,
      count_in-append sw.window t gone live,
      count_in_expired sw.window t now gone (omega arith) gone-AllExpired,
      count_in-le-length sw.window t live,
      count_in-le-length sw.window t (replicate k now),
      length-replicate k now,
    )
  ]

  Tracks-admit :
      (k : ℕ)
      → length live + k ≤ pos_part sw.limit
      → Tracks (record sw { timestamps = live ++ replicate k now }) (log ++ replicate k now) now
  Tracks-admit k h = record {
    old = gone;
    split = ap (λ l. l ++ replicate k now) log-split ∙ append_assoc gone live (replicate k now);
    expired = gone-AllExpired;
    past = All-append _ live _ live-keeps.1 (All-le-replicate k now);
    sorted = Sorted-append k now live live-keeps.0 live-keeps.1;
    bounded = omega (arith, length-append live (replicate k now), length-replicate k now);
    within = within-admit k h;
  }

  Tracks-refuse : Tracks (record sw { timestamps = live }) (log ++ []) now
  Tracks-refuse =
      subst (λ l. Tracks (record sw { timestamps = l }) (log ++ []) now) (append-nil live)
        (Tracks-admit 0 (omega (arith, live-keeps.2, v.bounded)))

  Tracks-allow : Tracks (allow sw now).0 (log ++ admitted now allows (allow sw now).1) now
  unfolding allow live
  Tracks-allow = elim (Bool-cases (below_limit live sw.limit)) [
    | inl room ↦ rw (cleanup-drop_expired sw now, room) (Tracks-admit 1 (ground arith))
    | inr full ↦ rw (cleanup-drop_expired sw now, full) Tracks-refuse
  ]

  Tracks-allow_n :
      (n : ℤ)
      → pos_part sw.limit + pos_part n < 2 ^ 63
      → Tracks (allow_n sw n now).0 (log ++ admitted now (allows_n n) (allow_n sw n now).1) now
  unfolding allow_n live
  Tracks-allow_n n small = elim (Bool-cases (fits_limit live n sw.limit)) [
    | inl room ↦
        rw (cleanup-drop_expired sw now, room)
          (Tracks-admit (pos_part n) (ground (arith, live-keeps.2, v.bounded)))
    | inr full ↦ rw (cleanup-drop_expired sw now, full) Tracks-refuse
  ]

  pub Tracks-call :
      (c : Call)
      → Small (pos_part sw.limit) c
      → Tracks (call sw now c).0 (log ++ admitted now c (call sw now c).1) now
  Tracks-call allows small = Tracks-allow
  Tracks-call (allows_n n) small = Tracks-allow_n n small

  pub allow-count_in : (allow sw now).1 ≡ ltb (count_in sw.window now log) (pos_part sw.limit)
  unfolding allow live
  allow-count_in = rw (cleanup-drop_expired sw now, count_in-log) (ground arith)
