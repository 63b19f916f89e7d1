-- ===== src/Scheduler/Cron.antt =====
-- scheduler/cron.go: ParseCron and CronExpr. A string is the list of its bytes, and `none` is an
-- error of the parser, of which there is one for a field and one for their number. The calendar (the
-- time zone's rules) is an argument. A number in a list is the 64-bit pattern of an int: from 2 ^ 63 on
-- it stands for a negative value, which only the wrap-around of the step of `*/n` makes.
pub mod Text
pub mod Parsing
pub mod Rendering
pub mod RoundTrip
pub mod Next
use gocc.Prelude.{
  ℕ, zero, suc, ◌+◌, ◌-◌, ◌*◌, ◌/◌, ◌%◌, ◌^◌, ◌≤◌, Bool, true, false, ◌&&◌, ◌||◌, not, List, [],
  ◌∷◌, ◌++◌, Option, none, some, ltb, leb, ◌==◌, if◌then◌else◌, ◌>>=◌, length,
}
use gocc.Prelude.Int.{ℤ, pos, negsuc}
use gocc.Scheduler.Cron.Text.{fields, split, contains_byte, strip_prefix, atoi}

pub record CronExpr : Type 0 where
  pub second : List ℕ
  pub minute : List ℕ
  pub hour : List ℕ
  pub day : List ℕ
  pub month : List ℕ
  pub weekday : List ℕ
  pub raw : List ℕ

-- `rangeSlice`, by the number of values left.
unfoldable pub range_from : ℕ → ℕ → List ℕ
range_from zero i = []
range_from (suc n) i = i ∷ range_from n (i + 1)

unfoldable pub range_slice : ℕ → ℕ → List ℕ
unfolding range_from
range_slice min max = range_from (max + 1 - min) min

-- `i <= max`, where a pattern from 2 ^ 63 on is negative.
abbrev pub at_most : ℕ → ℕ → Bool
at_most i max = leb i max || leb (2 ^ 63) i

-- `for i := min; i <= max; i += step`, on fuel; the sum wraps round.
unfoldable pub steps_from : ℕ → ℕ → ℕ → ℕ → List ℕ
steps_from zero step max i = []
steps_from (suc fuel) step max i =
    let rest = steps_from fuel step max ((i + step) % 2 ^ 64) in
    if at_most i max then i ∷ rest else []

-- A value between the bounds: `err != nil || v < min || v > max` is an error.
unfoldable pub value_in : ℕ → ℕ → Option ℤ → Option ℕ
value_in min max none = none
value_in min max (some (negsuc n)) = none
value_in min max (some (pos v)) = if leb min v && leb v max then some v else none

unfoldable pub parse_step : ℕ → ℕ → Option ℤ → Option (List ℕ)
unfolding steps_from
parse_step min max none = none
parse_step min max (some (negsuc n)) = none
parse_step min max (some (pos step)) =
    if step == 0 then none else some (steps_from (max + 1) step max min)

unfoldable pub parse_list : ℕ → ℕ → List (List ℕ) → Option (List ℕ)
unfolding value_in
parse_list min max [] = some []
parse_list min max (p ∷ ps) = do
  v ← value_in min max (atoi p)
  vs ← parse_list min max ps
  some (v ∷ vs)

-- The two numbers of a range: `start < min`, `end > max || end < start` are errors.
unfoldable pub parse_bounds : ℕ → ℕ → Option ℤ → Option ℤ → Option (List ℕ)
unfolding range_slice
parse_bounds min max (some (pos start)) (some (pos end)) =
    if leb min start && (leb end max && leb start end) then some (range_slice start end) else none
parse_bounds min max (some (pos start)) (some (negsuc end)) = none
parse_bounds min max (some (pos start)) none = none
parse_bounds min max (some (negsuc start)) e = none
parse_bounds min max none e = none

unfoldable pub parse_range : ℕ → ℕ → List (List ℕ) → Option (List ℕ)
unfolding parse_bounds
parse_range min max (a ∷ b ∷ []) = parse_bounds min max (atoi a) (atoi b)
parse_range min max [] = none
parse_range min max (a ∷ []) = none
parse_range min max (a ∷ b ∷ c ∷ rest) = none

abbrev pub single : Option ℕ → Option (List ℕ)
single none = none
single (some v) = some (v ∷ [])

-- What is not `*` and does not begin with `*/`.
unfoldable pub parse_plain : List ℕ → ℕ → ℕ → Option (List ℕ)
unfolding parse_list parse_range value_in
parse_plain field min max =
    if contains_byte b',' field
    then parse_list min max (split b',' field)
    else if contains_byte b'-' field
    then parse_range min max (split b'-' field)
    else single (value_in min max (atoi field))

-- `field == "*"`
abbrev pub is_star : List ℕ → Bool
is_star [] = false
is_star (c ∷ []) = c == b'*'
is_star (c ∷ d ∷ rest) = false

unfoldable pub parse_field : List ℕ → ℕ → ℕ → Option (List ℕ)
unfolding parse_plain parse_step range_slice
parse_field field min max =
    if is_star field then some (range_slice min max) else elim (strip_prefix b'*' b'/' field) [
      | some step ↦ parse_step min max (atoi step)
      | none ↦ parse_plain field min max
    ]

unfoldable pub parse_fields : List ℕ → List (List ℕ) → Option CronExpr
unfolding parse_field
parse_fields raw (s ∷ mi ∷ h ∷ d ∷ mo ∷ w ∷ []) = do
  second ← parse_field s 0 59
  minute ← parse_field mi 0 59
  hour ← parse_field h 0 23
  day ← parse_field d 1 31
  month ← parse_field mo 1 12
  weekday ← parse_field w 0 6
  some (record {
    second = second;
    minute = minute;
    hour = hour;
    day = day;
    month = month;
    weekday = weekday;
    raw = raw;
  })
parse_fields raw other = none

unfoldable pub parse_cron : List ℕ → Option CronExpr
unfolding parse_fields
parse_cron expr = parse_fields expr (fields expr)

unfoldable pub contains : List ℕ → ℕ → Bool
contains [] val = false
contains (v ∷ vs) val = (v == val) || contains vs val

-- The clock's face at an instant, in nanoseconds.
pub record Calendar : Type 0 where
  pub second_of : ℕ → ℕ
  pub minute_of : ℕ → ℕ
  pub hour_of : ℕ → ℕ
  pub day_of : ℕ → ℕ
  pub month_of : ℕ → ℕ
  pub weekday_of : ℕ → ℕ

unfoldable pub matches : Calendar → CronExpr → ℕ → Bool
unfolding contains
matches cal c t =
    contains c.second (cal.second_of t)
    && (contains c.minute (cal.minute_of t)
        && (contains c.hour (cal.hour_of t)
            && (contains c.day (cal.day_of t)
                && (contains c.month (cal.month_of t) && contains c.weekday (cal.weekday_of t)))))

abbrev pub time_second : ℕ
time_second = 1000000000

-- `366*24*60*60`
unfoldable pub max_rounds : ℕ
max_rounds = 366 * 24 * 60 * 60

-- `from.Add(time.Second).Truncate(time.Second)`
abbrev pub next_second : ℕ → ℕ
next_second from = (from + time_second) / time_second * time_second

-- The loop of Next; the zero time is 0.
unfoldable pub next_from : Calendar → CronExpr → ℕ → ℕ → ℕ
unfolding matches
next_from cal c zero t = 0
next_from cal c (suc rounds) t =
    let later = next_from cal c rounds (t + time_second) in if matches cal c t then t else later

unfoldable pub next : Calendar → CronExpr → ℕ → ℕ
unfolding next_from
next cal c from = next_from cal c max_rounds (next_second from)
