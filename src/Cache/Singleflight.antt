-- ===== src/Cache/Singleflight.antt =====
-- cache/singleflight.go: Singleflight. A call is its place in `calls`, which has its result when the
-- function has returned. `Do` is cut where it holds no lock: its beginning, the return of the function,
-- the end of a wait, and the removal of the call.
pub mod Exclusion
use gocc.Prelude.{ℕ, ◌==◌, List, [], ◌∷◌, ◌++◌, Option, none, some, length, get_elem?, modify}
use gocc.Prelude.Dict.{Dict, lookup, insert, delete}

-- Where a goroutine in Do is: in the function, past it with the call still in the map, in c.wg.Wait, or
-- back with a result. It knows its key and the place of its call.
pub data Phase (K R : Type 0) : Type 0 where
  in_func : K → ℕ → Phase K R
  removing : K → ℕ → R → Phase K R
  waiting : ℕ → Phase K R
  returned : ℕ → R → Phase K R

pub record Singleflight (K R : Type 0) : Type 0 where
  pub inflight : Dict K ℕ
  pub calls : List (Option R)
  pub routines : List (Phase K R)

pub data Event (K R : Type 0) : Type 0 where
  begins : K → Event K R
  fn_returns : ℕ → R → Event K R
  wakes removes : ℕ → Event K R

module _ {K R : Type 0} where
  unfoldable pub new_singleflight : Singleflight K R
  new_singleflight = record { inflight = []; calls = []; routines = [] }

  abbrev pub put : Singleflight K R → ℕ → Phase K R → Singleflight K R
  put s i ph = record s { routines = modify s.routines i (λ _. ph) }

  -- `c.value, c.err = fn()` and `c.wg.Done()`
  unfoldable pub return_at : Singleflight K R → ℕ → R → Option (Phase K R) → Singleflight K R
  return_at s i r none = s
  return_at s i r (some (in_func k c)) = record (put s i (removing k c r)) {
    calls = modify s.calls c (λ _. some r);
  }
  return_at s i r (some (removing k c q)) = s
  return_at s i r (some (waiting c)) = s
  return_at s i r (some (returned c q)) = s

  abbrev pub give : Singleflight K R → ℕ → ℕ → Option (Option R) → Singleflight K R
  give s i c none = s
  give s i c (some none) = s
  give s i c (some (some r)) = put s i (returned c r)

  -- `c.wg.Wait()`, which lets the goroutine go on once the call is done.
  unfoldable pub wake_at : Singleflight K R → ℕ → Option (Phase K R) → Singleflight K R
  wake_at s i none = s
  wake_at s i (some (in_func k c)) = s
  wake_at s i (some (removing k c q)) = s
  wake_at s i (some (waiting c)) = give s i c (get_elem? s.calls c)
  wake_at s i (some (returned c q)) = s

module _ {K R : Type 0} (dec : Discrete K) where
  -- Do up to the function or the wait, from what the lookup finds.
  unfoldable pub begin_at : Singleflight K R → K → Option ℕ → Singleflight K R
  begin_at s key (some c) = record s { routines = s.routines ++ waiting c ∷ [] }
  begin_at s key none = record {
    inflight = insert dec key (length s.calls) s.inflight;
    calls = s.calls ++ none ∷ [];
    routines = s.routines ++ in_func key (length s.calls) ∷ [];
  }

  -- `delete(s.inflight, key)` and the return.
  unfoldable pub remove_at : Singleflight K R → ℕ → Option (Phase K R) → Singleflight K R
  remove_at s i none = s
  remove_at s i (some (in_func k c)) = s
  remove_at s i (some (removing k c r)) = record (put s i (returned c r)) {
    inflight = delete dec k s.inflight;
  }
  remove_at s i (some (waiting c)) = s
  remove_at s i (some (returned c q)) = s

  unfoldable pub step : Singleflight K R → Event K R → Singleflight K R
  unfolding begin_at return_at wake_at remove_at
  step s (begins key) = begin_at s key (lookup dec key s.inflight)
  step s (fn_returns i r) = return_at s i r (get_elem? s.routines i)
  step s (wakes i) = wake_at s i (get_elem? s.routines i)
  step s (removes i) = remove_at s i (get_elem? s.routines i)

  unfoldable pub run : Singleflight K R → List (Event K R) → Singleflight K R
  unfolding step
  run s [] = s
  run s (e ∷ es) = run (step s e) es
