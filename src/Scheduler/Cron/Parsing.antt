-- ===== src/Scheduler/Cron/Parsing.antt =====
-- What ParseCron accepts: every field's values lie between the field's bounds.
pub mod Bounds
pub mod Steps
use gocc.Prelude.{
  ℕ, zero, suc, ◌+◌, ◌-◌, ◌^◌, ◌≤◌, ◌<◌, ◌≡◌, inl, inr, refl, Bool, true, false, ◌&&◌, List, [],
  ◌∷◌, ◌++◌, Option, none, some, subst, if◌then◌else◌, ltb, leb, ◌==◌, ◌>>=◌, length, All, arith,
  if_cases, Option-cases,
}
use gocc.Prelude.Int.{ℤ, pos, negsuc}
use gocc.Scheduler.Cron.Text.{split, split_from, contains_byte, strip_prefix, atoi, fields}
use gocc.Scheduler.Cron.{
  CronExpr, range_from, range_slice, steps_from, value_in, parse_step, parse_list, parse_bounds,
  parse_range, parse_plain, parse_field, parse_fields, parse_cron, is_star, single,
}
use gocc.Scheduler.Cron.Parsing.Bounds.{Within, OnSome, range_slice-Within, steps_from-Within}

value_in-Within :
    (min max : ℕ) (o : Option ℤ) → OnSome (λ v. (min ≤ v) × (v ≤ max)) (value_in min max o)
unfolding value_in
value_in-Within min max none = tt
value_in-Within min max (some (negsuc n)) = tt
value_in-Within min max (some (pos v)) =
    if_cases (λ (o : Option ℕ). OnSome (λ w. (min ≤ w) × (w ≤ max)) o) (leb min v && leb v max) _ _
      (λ yes. (ground (arith, yes), ground (arith, yes))) (λ no. tt)

-- A step that does not wrap round when it is added to a number of at most 59.
abbrev pub Moderate : Option ℤ → Type 0
Moderate none = Unit {0}
Moderate (some (negsuc n)) = Unit {0}
Moderate (some (pos step)) = step + 59 < 2 ^ 63

abbrev pub ModerateStep : Option (List ℕ) → Type 0
ModerateStep none = Unit {0}
ModerateStep (some step) = Moderate (atoi step)

-- A field that does not have the form `*/n`, or whose n is at most 2 ^ 63 - 60.
abbrev pub SmallStep : List ℕ → Type 0
SmallStep field = ModerateStep (strip_prefix b'*' b'/' field)

parse_step-Within :
    (min max : ℕ) (o : Option ℤ)
    → max ≤ 59
    → min ≤ max
    → Moderate o
    → OnSome (Within min max) (parse_step min max o)
unfolding parse_step
parse_step-Within min max none top h small = tt
parse_step-Within min max (some (negsuc n)) top h small = tt
parse_step-Within min max (some (pos step)) top h small =
    if_cases (λ (o : Option (List ℕ)). OnSome (Within min max) o) (step == 0) _ _ (λ yes. tt)
      (λ no.
        subst (λ n. Within min max (steps_from n step max min)) {x = suc max} (omega arith)
          (steps_from-Within min max step max (omega (arith, small, top)) h))

add_value :
    (min max : ℕ) (o : Option ℕ) (l : Option (List ℕ))
    → OnSome (λ v. (min ≤ v) × (v ≤ max)) o
    → OnSome (All (λ v. (min ≤ v) × (v ≤ max))) l
    → OnSome (Within min max) (o >>= λ v. l >>= λ vs. some (v ∷ vs))
add_value min max none l hv hl = tt
add_value min max (some v) none hv hl = tt
add_value min max (some v) (some vs) hv hl = (omega arith, (hv, hl))

forget_length :
    (min max : ℕ) (l : Option (List ℕ))
    → OnSome (Within min max) l
    → OnSome (All (λ v. (min ≤ v) × (v ≤ max))) l
forget_length min max none h = tt
forget_length min max (some vs) h = h.1

parse_list-All :
    (min max : ℕ) (ps : List (List ℕ))
    → OnSome (All (λ v. (min ≤ v) × (v ≤ max))) (parse_list min max ps)
unfolding parse_list
parse_list-All min max [] = tt
parse_list-All min max (p ∷ ps) = forget_length min max (parse_list min max (p ∷ ps)) (
    add_value min max (value_in min max (atoi p)) (parse_list min max ps)
      (value_in-Within min max (atoi p)) (parse_list-All min max ps))

parse_list-Within :
    (min max : ℕ) (p : List ℕ) (ps : List (List ℕ))
    → OnSome (Within min max) (parse_list min max (p ∷ ps))
unfolding parse_list
parse_list-Within min max p ps =
    add_value min max (value_in min max (atoi p)) (parse_list min max ps)
      (value_in-Within min max (atoi p)) (parse_list-All min max ps)

parse_bounds-Within :
    (min max : ℕ) (a b : Option ℤ) → OnSome (Within min max) (parse_bounds min max a b)
unfolding parse_bounds
parse_bounds-Within min max (some (pos a)) (some (pos b)) =
    if_cases (λ (o : Option (List ℕ)). OnSome (Within min max) o)
      (leb min a && (leb b max && leb a b)) _ _
      (λ yes.
        range_slice-Within min max a b (ground (arith, yes)) (ground (arith, yes))
          (ground (arith, yes)))
      (λ no. tt)
parse_bounds-Within min max (some (pos a)) (some (negsuc b)) = tt
parse_bounds-Within min max (some (pos a)) none = tt
parse_bounds-Within min max (some (negsuc a)) b = tt
parse_bounds-Within min max none b = tt

parse_range-Within :
    (min max : ℕ) (ps : List (List ℕ)) → OnSome (Within min max) (parse_range min max ps)
unfolding parse_range
parse_range-Within min max [] = tt
parse_range-Within min max (a ∷ []) = tt
parse_range-Within min max (a ∷ b ∷ []) = parse_bounds-Within min max (atoi a) (atoi b)
parse_range-Within min max (a ∷ b ∷ c ∷ rest) = tt

-- The first word of Split is there.
split_from-cons :
    (P : List (List ℕ) → Type 0) (sep : ℕ) (s word : List ℕ)
    → ((w : List ℕ) (ws : List (List ℕ)) → P (w ∷ ws))
    → P (split_from sep word s)
unfolding split_from
split_from-cons P sep [] word h = h word []
split_from-cons P sep (c ∷ s) word h =
    if_cases P (c == sep) _ _ (λ yes. h word _) (λ no. split_from-cons P sep s (word ++ c ∷ []) h)

single-Within :
    (min max : ℕ) (o : Option ℕ)
    → OnSome (λ v. (min ≤ v) × (v ≤ max)) o
    → OnSome (Within min max) (single o)
single-Within min max none h = tt
single-Within min max (some v) h = (omega arith, (h, tt))

parse_plain-Within :
    (field : List ℕ) (min max : ℕ) → OnSome (Within min max) (parse_plain field min max)
unfolding parse_plain split
parse_plain-Within field min max =
    if_cases (λ (o : Option (List ℕ)). OnSome (Within min max) o) (contains_byte b',' field) _ _
      (λ yes.
        split_from-cons (λ ps. OnSome (Within min max) (parse_list min max ps)) b',' field []
          (parse_list-Within min max))
      (λ no.
        if_cases (λ (o : Option (List ℕ)). OnSome (Within min max) o) (contains_byte b'-' field) _ _
          (λ yes. parse_range-Within min max (split b'-' field))
          (λ no'.
            single-Within min max (value_in min max (atoi field))
              (value_in-Within min max (atoi field))))

parse_field-Within :
    (field : List ℕ) (min max : ℕ)
    → max ≤ 59
    → min ≤ max
    → SmallStep field
    → OnSome (Within min max) (parse_field field min max)
unfolding parse_field
parse_field-Within field min max top h small =
    if_cases (λ (o : Option (List ℕ)). OnSome (Within min max) o) (is_star field) _ _
      (λ yes. range_slice-Within min max min max (omega arith) h (omega arith))
      (λ no. elim (Option-cases (strip_prefix b'*' b'/' field)) [
        | inl q ↦ rw (q, parse_field) (parse_plain-Within field min max)
        | inr (step, q) ↦
            rw (q, parse_field)
              (parse_step-Within min max (atoi step) top h (subst ModerateStep q small))
      ])

-- A result of two steps.
OnSome-bind :
    {A B : Type 0} (P : A → Type 0) (Q : B → Type 0) (o : Option A) (f : A → Option B)
    → OnSome P o
    → ((a : A) → P a → OnSome Q (f a))
    → OnSome Q (o >>= f)
OnSome-bind P Q none f h g = tt
OnSome-bind P Q (some a) f h g = g a h

-- All six fields of an expression within their bounds, and its text.
abbrev pub Bounded : List ℕ → CronExpr → Type 0
Bounded raw c =
    Within 0 59 c.second
    × Within 0 59 c.minute
    × Within 0 23 c.hour
    × Within 1 31 c.day
    × Within 1 12 c.month
    × Within 0 6 c.weekday
    × (c.raw ≡ raw)

parse_fields-Bounded :
    (raw : List ℕ) (fs : List (List ℕ))
    → All SmallStep fs
    → OnSome (Bounded raw) (parse_fields raw fs)
unfolding parse_fields
parse_fields-Bounded raw [] small = tt
parse_fields-Bounded raw (s ∷ []) small = tt
parse_fields-Bounded raw (s ∷ mi ∷ []) small = tt
parse_fields-Bounded raw (s ∷ mi ∷ h ∷ []) small = tt
parse_fields-Bounded raw (s ∷ mi ∷ h ∷ d ∷ []) small = tt
parse_fields-Bounded raw (s ∷ mi ∷ h ∷ d ∷ mo ∷ []) small = tt
parse_fields-Bounded raw (s ∷ mi ∷ h ∷ d ∷ mo ∷ w ∷ []) small =
    OnSome-bind (Within 0 59) (Bounded raw) _ _
      (parse_field-Within s 0 59 (omega arith) (omega arith) small.0)
      λ a ha.
        OnSome-bind (Within 0 59) (Bounded raw) _ _
          (parse_field-Within mi 0 59 (omega arith) (omega arith) small.1.0)
          λ b hb.
            OnSome-bind (Within 0 23) (Bounded raw) _ _
              (parse_field-Within h 0 23 (omega arith) (omega arith) small.1.1.0)
              λ e he.
                OnSome-bind (Within 1 31) (Bounded raw) _ _
                  (parse_field-Within d 1 31 (omega arith) (omega arith) small.1.1.1.0)
                  λ f hf.
                    OnSome-bind (Within 1 12) (Bounded raw) _ _
                      (parse_field-Within mo 1 12 (omega arith) (omega arith) small.1.1.1.1.0)
                      λ g hg.
                        OnSome-bind (Within 0 6) (Bounded raw) _ _
                          (parse_field-Within w 0 6 (omega arith) (omega arith) small.1.1.1.1.1.0)
                          λ i hi. (ha, hb, he, hf, hg, hi, refl)
parse_fields-Bounded raw (s ∷ mi ∷ h ∷ d ∷ mo ∷ w ∷ x ∷ rest) small = tt

-- Every expression that ParseCron accepts and that has no field `*/n` with n above 2 ^ 63 - 60 has six
-- fields, each of which has at least one value and only values within its bounds (0 to 59, 0 to 59, 0
-- to 23, 1 to 31, 1 to 12 and 0 to 6), and keeps its text.
pub parse_cron-Bounded :
    (expr : List ℕ) (c : CronExpr)
    → All SmallStep (fields expr)
    → parse_cron expr ≡ some c
    → Bounded expr c
unfolding parse_cron
parse_cron-Bounded expr c small e =
    subst (OnSome (Bounded expr)) e (parse_fields-Bounded expr (fields expr) small)
