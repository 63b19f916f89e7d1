-- ===== src/Cache/Singleflight/Exclusion.antt =====
-- How many goroutines are in the function of a key, and whose result a caller gets.
use gocc.Prelude.{
  ℕ, ◌≤◌, ◌≡◌, ◌∙◌, refl, sym, ap, List, [], ◌∷◌, Option, none, some, if◌then◌else◌, is_yes, length,
  get_elem?, total, total-append, total-modify, arith,
}
use gocc.Prelude.Dict.{
  lookup, insert, delete, lookup-insert_self, lookup-insert_ne, lookup-delete_self,
  lookup-delete_ne,
}
use gocc.Cache.Singleflight.{
  Phase, in_func, removing, waiting, returned, Singleflight, Event, begins, fn_returns, wakes,
  removes, new_singleflight, put, return_at, give, wake_at, begin_at, remove_at, step, run,
}

abbrev pub present : {A : Type 0} → Option A → ℕ
present none = 0
present (some a) = 1

present_le : {A : Type 0} (o : Option A) → present o ≤ 1
present_le none = omega arith
present_le (some a) = omega arith

-- 1 for the key `k`.
abbrev pub same : {K : Type 0} → Discrete K → K → K → ℕ
same dec k j = if is_yes (dec j k) then 1 else 0

module _ {K R : Type 0} (dec : Discrete K) (k : K) where
  -- 1 for a goroutine in the function of `k`.
  unfoldable pub executes : Phase K R → ℕ
  executes (in_func j c) = same dec k j
  executes (removing j c r) = 0
  executes (waiting c) = 0
  executes (returned c r) = 0

  -- 1 for the goroutine whose call of `k` is in the map.
  owns : Phase K R → ℕ
  owns (in_func j c) = same dec k j
  owns (removing j c r) = same dec k j
  owns (waiting c) = 0
  owns (returned c r) = 0

  owns-executes : (ps : List (Phase K R)) → total executes ps ≤ total owns ps
  unfolding executes owns
  owns-executes [] = omega arith
  owns-executes (in_func j c ∷ ps) = omega (arith, owns-executes ps)
  owns-executes (removing j c r ∷ ps) = omega (arith, owns-executes ps)
  owns-executes (waiting c ∷ ps) = omega (arith, owns-executes ps)
  owns-executes (returned c r ∷ ps) = omega (arith, owns-executes ps)

  -- There is an owner exactly when the key is in the map.
  Owned : Singleflight K R → Type 0
  Owned s = total owns s.routines ≡ present (lookup dec k s.inflight)

  put-Owned :
      (s : Singleflight K R) (i : ℕ) (p q : Phase K R)
      → get_elem? s.routines i ≡ some p
      → owns q ≡ owns p
      → Owned s
      → Owned (put s i q)
  unfolding Owned
  put-Owned s i p q at e h =
      let t = total-modify owns s.routines i (λ _. q) p at in omega (arith, t, e, h)

  begin_at-Owned :
      (s : Singleflight K R) (key : K) (o : Option ℕ)
      → lookup dec key s.inflight ≡ o
      → Owned s
      → Owned (begin_at dec s key o)
  unfolding Owned begin_at owns
  begin_at-Owned s key (some c) at h =
      omega (arith, h, total-append owns s.routines (waiting c ∷ []))
  begin_at-Owned s key none at h =
      let t = total-append owns s.routines (in_func key (length s.calls) ∷ []) in
      elim (dec key k) [
        | yes e ↦
            let now : present (lookup dec k (insert dec key (length s.calls) s.inflight)) ≡ 1 =
              ap present (
                ap (λ j. lookup dec j (insert dec key (length s.calls) s.inflight)) (sym e)
                ∙ lookup-insert_self dec key (length s.calls) s.inflight) in
            let before : present (lookup dec k s.inflight) ≡ 0 =
              ap present (ap (λ j. lookup dec j s.inflight) (sym e) ∙ at) in
            let one : same dec k key ≡ 1 = ground (arith, e) in
            omega (arith, h, t, now, before, one)
        | no ne ↦
            let now : present (lookup dec k (insert dec key (length s.calls) s.inflight))
                ≡ present (lookup dec k s.inflight) =
              ap present (lookup-insert_ne dec key k _ s.inflight ne) in
            let none_new : same dec k key ≡ 0 = ground (arith, ne) in
            omega (arith, h, t, now, none_new)
      ]

  return_at-Owned :
      (s : Singleflight K R) (i : ℕ) (r : R) (o : Option (Phase K R))
      → get_elem? s.routines i ≡ o
      → Owned s
      → Owned (return_at s i r o)
  unfolding return_at owns Owned
  return_at-Owned s i r none at h = h
  return_at-Owned s i r (some (in_func j c)) at h =
      put-Owned s i (in_func j c) (removing j c r) at refl h
  return_at-Owned s i r (some (removing j c q)) at h = h
  return_at-Owned s i r (some (waiting c)) at h = h
  return_at-Owned s i r (some (returned c q)) at h = h

  wake_at-Owned :
      (s : Singleflight K R) (i : ℕ) (o : Option (Phase K R))
      → get_elem? s.routines i ≡ o
      → Owned s
      → Owned (wake_at s i o)
  unfolding wake_at owns
  wake_at-Owned s i none at h = h
  wake_at-Owned s i (some (in_func j c)) at h = h
  wake_at-Owned s i (some (removing j c q)) at h = h
  wake_at-Owned s i (some (waiting c)) at h = gives (get_elem? s.calls c)
    where
      gives : (o : Option (Option R)) → Owned (give s i c o)
      gives none = h
      gives (some none) = h
      gives (some (some r)) = put-Owned s i (waiting c) (returned c r) at refl h
  wake_at-Owned s i (some (returned c q)) at h = h

  remove_at-Owned :
      (s : Singleflight K R) (i : ℕ) (o : Option (Phase K R))
      → get_elem? s.routines i ≡ o
      → Owned s
      → Owned (remove_at dec s i o)
  unfolding remove_at owns Owned
  remove_at-Owned s i none at h = h
  remove_at-Owned s i (some (in_func j c)) at h = h
  remove_at-Owned s i (some (removing j c r)) at h =
      let t = total-modify owns s.routines i (λ _. returned c r) (removing j c r) at in
      elim (dec j k) [
        | yes e ↦
            let after : present (lookup dec k (delete dec j s.inflight)) ≡ 0 = ap present (
              ap (λ x. lookup dec x (delete dec j s.inflight)) (sym e)
              ∙ lookup-delete_self dec j s.inflight) in
            let one : same dec k j ≡ 1 = ground (arith, e) in
            omega (arith, h, t, after, one, present_le (lookup dec k s.inflight))
        | no ne ↦
            let after : present (lookup dec k (delete dec j s.inflight))
                ≡ present (lookup dec k s.inflight) =
              ap present (lookup-delete_ne dec j k s.inflight ne) in
            let none_left : same dec k j ≡ 0 = ground (arith, ne) in
            omega (arith, h, t, after, none_left)
      ]
  remove_at-Owned s i (some (waiting c)) at h = h
  remove_at-Owned s i (some (returned c q)) at h = h

  step-Owned : (s : Singleflight K R) (e : Event K R) → Owned s → Owned (step dec s e)
  unfolding step
  step-Owned s (begins key) h = begin_at-Owned s key (lookup dec key s.inflight) refl h
  step-Owned s (fn_returns i r) h = return_at-Owned s i r (get_elem? s.routines i) refl h
  step-Owned s (wakes i) h = wake_at-Owned s i (get_elem? s.routines i) refl h
  step-Owned s (removes i) h = remove_at-Owned s i (get_elem? s.routines i) refl h

  run-Owned : (es : List (Event K R)) (s : Singleflight K R) → Owned s → Owned (run dec s es)
  unfolding run
  run-Owned [] s h = h
  run-Owned (e ∷ es) s h = run-Owned es (step dec s e) (step-Owned s e h)

  -- Under every interleaving of goroutines that call Do, at most one of them at a time is in the
  -- function of any key, and none is when the key is not in the map of calls in flight.
  pub one_execution :
      (es : List (Event K R))
      → (total executes (run dec new_singleflight es).routines ≤ 1)
        × (total executes (run dec new_singleflight es).routines
            ≤ present (lookup dec k (run {R = R} dec new_singleflight es).inflight))
  unfolding Owned new_singleflight lookup
  one_execution es =
      let s : Singleflight K R = run dec new_singleflight es in
      let owned : total owns s.routines ≡ present (lookup dec k s.inflight) =
        run-Owned es new_singleflight refl in
      let less = owns-executes s.routines in
      (omega (arith, owned, less, present_le (lookup dec k s.inflight)), omega (arith, owned, less))
