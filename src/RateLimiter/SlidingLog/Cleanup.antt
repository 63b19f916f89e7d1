-- ===== src/RateLimiter/SlidingLog/Cleanup.antt =====
-- What SlidingWindowLog.cleanup keeps: the index loop is a drop of the leading expired entries.
use gocc.Prelude.{
  ℕ, suc, ◌+◌, ◌-◌, ◌≡◌, refl, List, [], ◌∷◌, ◌++◌, ◌==◌, if◌then◌else◌, length, drop, arith,
}
use gocc.Prelude.Int.{ℤ}
use gocc.RateLimiter.SlidingLog.{SlidingWindowLog, after_start, valid_index, cleanup}

-- The entries from the first one inside the window on.
unfoldable pub drop_expired : (window : ℤ) (now : ℕ) → List ℕ → List ℕ
drop_expired window now [] = []
drop_expired window now (ts ∷ rest) =
    if after_start window now ts then ts ∷ rest else drop_expired window now rest

-- The entries in front of it.
unfoldable pub expired_prefix : (window : ℤ) (now : ℕ) → List ℕ → List ℕ
expired_prefix window now [] = []
expired_prefix window now (ts ∷ rest) =
    if after_start window now ts then [] else ts ∷ expired_prefix window now rest

-- The loop's index: it ends at the number of leading expired entries.
valid_index-length :
    (window : ℤ) (now n i valid ts : ℕ) (rest : List ℕ)
    → n ≡ i + length (ts ∷ rest)
    → valid_index window now n i valid (ts ∷ rest)
      ≡ i + length (expired_prefix window now (ts ∷ rest))
unfolding valid_index expired_prefix
valid_index-length window now n i valid ts [] h = ground arith
valid_index-length window now n i valid ts (t ∷ rest) h = ground (
  arith,
  valid_index-length window now n (suc i) (if i == n - 1 then n else valid) t rest (omega arith),
)

pub prefix-drop :
    (window : ℤ) (now : ℕ) (ts : List ℕ)
    → expired_prefix window now ts ++ drop_expired window now ts ≡ ts
unfolding expired_prefix drop_expired
prefix-drop window now [] = refl
prefix-drop window now (t ∷ ts) = ground (arith, prefix-drop window now ts)

drop-prefix :
    (window : ℤ) (now : ℕ) (ts : List ℕ)
    → drop (length (expired_prefix window now ts)) ts ≡ drop_expired window now ts
unfolding expired_prefix drop_expired
drop-prefix window now [] = refl
drop-prefix window now (t ∷ ts) = ground (arith, drop-prefix window now ts)

cleanup_index :
    (sw : SlidingWindowLog) (now : ℕ) (ts : List ℕ)
    → sw.timestamps ≡ ts
    → valid_index sw.window now (length ts) 0 0 ts ≡ length (expired_prefix sw.window now ts)
unfolding valid_index expired_prefix
cleanup_index sw now [] e = refl
cleanup_index sw now (t ∷ ts) e =
    omega (arith, valid_index-length sw.window now (length (t ∷ ts)) 0 0 t ts (omega arith))

-- `cleanup` is the drop of the leading expired entries, whatever the order of the log.
pub cleanup-drop_expired :
    (sw : SlidingWindowLog) (now : ℕ)
    → cleanup sw now ≡ record sw { timestamps = drop_expired sw.window now sw.timestamps }
unfolding cleanup
cleanup-drop_expired sw now =
    ground (arith, cleanup_index sw now sw.timestamps refl, drop-prefix sw.window now sw.timestamps)
