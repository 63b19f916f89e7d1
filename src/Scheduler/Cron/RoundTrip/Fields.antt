-- ===== src/Scheduler/Cron/RoundTrip/Fields.antt =====
-- parseField reads back one written field.
use gocc.Prelude.{
  ℕ, ◌+◌, ◌≤◌, ◌<◌, ◌≡◌, ◌∙◌, refl, sym, ap, subst, true, false, ◌&&◌, leb, List, [], ◌∷◌, ◌++◌,
  append-nil, none, some, All, arith,
}
use gocc.Scheduler.Cron.Text.{split, contains_byte, strip_prefix, atoi}
use gocc.Scheduler.Cron.{
  range_slice, value_in, parse_step, parse_list, parse_bounds, parse_range, parse_plain,
  parse_field, is_star,
}
use gocc.Scheduler.Cron.RoundTrip.Values.{
  select, range_slice-select, is_stepped, steps_from-stepped,
}
use gocc.Scheduler.Cron.Rendering.{
  FieldSpec, any, every, listed, span, only, decimal, commas, render, decimal-Digits, decimal_first,
  atoi-decimal, contains_byte-Digits, contains_byte-append, split-word, split-last,
}

-- The values that a field stands for: the numbers up to `max` that pass the test of its form, in
-- order, or the values as they are listed.
unfoldable pub values_of : ℕ → ℕ → FieldSpec → List ℕ
unfolding select
values_of min max any = select (λ v. leb min v) (max + 1) 0
values_of min max (every n) = select (is_stepped min n) (max + 1) 0
values_of min max (listed v w ws) = v ∷ w ∷ ws
values_of min max (span a b) = select (λ v. leb a v && leb v b) (max + 1) 0
values_of min max (only v) = v ∷ []

-- A field whose numbers are in order and within the bounds.
abbrev pub Proper : ℕ → ℕ → FieldSpec → Type 0
Proper min max any = Unit
Proper min max (every n) = (0 < n) × (n < 100)
Proper min max (listed v w ws) = All (λ u. (min ≤ u) × (u ≤ max)) (v ∷ w ∷ ws)
Proper min max (span a b) = (min ≤ a) × (a ≤ b) × (b ≤ max)
Proper min max (only v) = (min ≤ v) × (v ≤ max)

is_star-digit : (d : ℕ) (s : List ℕ) → b'0' ≤ d → is_star (d ∷ s) ≡ false
is_star-digit d [] h = ground (arith, h)
is_star-digit d (c ∷ s) h = refl

strip_prefix-digit : (d : ℕ) (s : List ℕ) → b'0' ≤ d → strip_prefix b'*' b'/' (d ∷ s) ≡ none
unfolding strip_prefix
strip_prefix-digit d [] h = refl
strip_prefix-digit d (c ∷ s) h = ground (arith, h)

parse_field-digit :
    (d : ℕ) (s : List ℕ) (min max : ℕ)
    → b'0' ≤ d
    → parse_field (d ∷ s) min max ≡ parse_plain (d ∷ s) min max
unfolding parse_field
parse_field-digit d s min max low = rw (is_star-digit d s low, strip_prefix-digit d s low) refl

parse_field-plain :
    (n : ℕ) (s : List ℕ) (min max : ℕ)
    → n < 100
    → parse_field (decimal n ++ s) min max ≡ parse_plain (decimal n ++ s) min max
parse_field-plain n s min max h =
    let (d, t, e, low, high) = decimal_first n h in
    subst (λ w. parse_field w min max ≡ parse_plain w min max) (sym (ap (λ u. u ++ s) e))
      (parse_field-digit d (t ++ s) min max low)

module _ (min max : ℕ) (small : max < 100) where
  value_in-decimal : (v : ℕ) → min ≤ v → v ≤ max → value_in min max (atoi (decimal v)) ≡ some v
  unfolding value_in
  value_in-decimal v low high =
      rw (atoi-decimal v (omega arith), value_in) (ground (arith, low, high))

  parse_list-commas :
      (v : ℕ) (ws : List ℕ)
      → All (λ u. (min ≤ u) × (u ≤ max)) (v ∷ ws)
      → parse_list min max (split b',' (commas v ws)) ≡ some (v ∷ ws)
  unfolding parse_list commas
  parse_list-commas v [] ((low, high), _) =
      rw (split-last b',' (decimal v) (omega arith) (decimal-Digits v (omega arith)))
        (rw (value_in-decimal v low high) refl)
  parse_list-commas v (w ∷ ws) ((low, high), rest) =
      rw (split-word b',' (decimal v) (commas w ws) (omega arith) (decimal-Digits v (omega arith)))
        (rw (value_in-decimal v low high, parse_list-commas w ws rest) refl)

  no_comma : (v : ℕ) → v ≤ max → contains_byte b',' (decimal v) ≡ false
  no_comma v high =
      contains_byte-Digits b',' (decimal v) (omega arith) (decimal-Digits v (omega arith))

  no_minus : (v : ℕ) → v ≤ max → contains_byte b'-' (decimal v) ≡ false
  no_minus v high =
      contains_byte-Digits b'-' (decimal v) (omega arith) (decimal-Digits v (omega arith))

  parse_plain-listed :
      (v w : ℕ) (ws : List ℕ)
      → All (λ u. (min ≤ u) × (u ≤ max)) (v ∷ w ∷ ws)
      → parse_plain (commas v (w ∷ ws)) min max ≡ some (v ∷ w ∷ ws)
  unfolding parse_plain commas contains_byte
  parse_plain-listed v w ws p =
      let comma : contains_byte b',' (commas v (w ∷ ws)) ≡ true =
        contains_byte-append b',' (decimal v) (b',' ∷ commas w ws) ∙ ground arith in
      rw comma (parse_list-commas v (w ∷ ws) p)

  parse_plain-span :
      (a b : ℕ)
      → min ≤ a
      → a ≤ b
      → b ≤ max
      → parse_plain (decimal a ++ b'-' ∷ decimal b) min max ≡ some (range_slice a b)
  unfolding parse_plain contains_byte parse_range parse_bounds
  parse_plain-span a b low mid high =
      let comma : contains_byte b',' (decimal a ++ b'-' ∷ decimal b) ≡ false =
        contains_byte-append b',' (decimal a) (b'-' ∷ decimal b)
        ∙ ground (arith, no_comma a (omega arith), no_comma b high) in
      let minus : contains_byte b'-' (decimal a ++ b'-' ∷ decimal b) ≡ true =
        contains_byte-append b'-' (decimal a) (b'-' ∷ decimal b) ∙ ground arith in
      let parts : split b'-' (decimal a ++ b'-' ∷ decimal b) ≡ decimal a ∷ decimal b ∷ [] =
        split-word b'-' (decimal a) (decimal b) (omega arith) (decimal-Digits a (omega arith))
        ∙ ap (λ u. decimal a ∷ u)
            (split-last b'-' (decimal b) (omega arith) (decimal-Digits b (omega arith))) in
      rw (comma, minus, parts, parse_range)
        (rw (atoi-decimal a (omega arith), atoi-decimal b (omega arith), parse_bounds)
          (ground (arith, low, mid, high)))

  parse_plain-only : (v : ℕ) → min ≤ v → v ≤ max → parse_plain (decimal v) min max ≡ some (v ∷ [])
  unfolding parse_plain
  parse_plain-only v low high =
      rw (no_comma v high, no_minus v high) (rw (value_in-decimal v low high) refl)

  pub parse_field-render :
      (f : FieldSpec)
      → min ≤ max
      → Proper min max f
      → parse_field (render f) min max ≡ some (values_of min max f)
  unfolding render values_of parse_field parse_step strip_prefix commas
  parse_field-render any le p = ap some (
      range_slice-select (λ v. leb min v) min max max le (omega arith) (λ v lt. ground (arith, lt))
        (λ v low high. ground (arith, low)) (λ v past top. absurd (omega (arith, past, top))))
  parse_field-render (every n) le (low, high) =
      rw (atoi-decimal n high, parse_step)
        (ground (arith, low, steps_from-stepped min max n low (omega arith) le))
  parse_field-render (listed v w ws) le p =
      parse_field-plain v (b',' ∷ commas w ws) min max (omega (arith, p.0.1))
      ∙ parse_plain-listed v w ws p
  parse_field-render (span a b) le (low, mid, high) =
      parse_field-plain a (b'-' ∷ decimal b) min max (omega arith)
      ∙ parse_plain-span a b low mid high
      ∙ ap some (
          range_slice-select (λ v. leb a v && leb v b) a b max mid high (λ v lt. ground (arith, lt))
            (λ v from to. ground (arith, from, to)) (λ v past top. ground (arith, past)))
  parse_field-render (only v) le (low, high) =
      subst (λ w. parse_field w min max ≡ parse_plain w min max) (append-nil (decimal v))
        (parse_field-plain v [] min max (omega arith))
      ∙ parse_plain-only v low high
