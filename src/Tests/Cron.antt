-- ===== src/Tests/Cron.antt =====
-- The examples of cron.go's comment, and a clock whose days have 4 hours of 2 minutes of 3 seconds.
use gocc.Prelude.{
  ℕ, ◌+◌, ◌-◌, ◌*◌, ◌/◌, ◌%◌, ◌^◌, All, ◌≤◌, ◌<◌, ◌≡◌, ◌↔◌, refl, ap, dec_lt, true, false, List, [],
  ◌∷◌, none, some, arith,
}
use gocc.Prelude.Int.{pos}
use gocc.Scheduler.Cron.Text.{
  fields_from, fields, split_from, split, contains_byte, strip_prefix, digits_value, number, atoi,
}
use gocc.Scheduler.Cron.{
  CronExpr, Calendar, range_from, range_slice, value_in, parse_step, parse_list, parse_bounds,
  parse_range, parse_plain, parse_field, parse_fields, parse_cron, contains, matches, time_second,
  max_rounds, next_second, next, steps_from,
}
use gocc.Scheduler.Cron.Parsing.{Bounded, SmallStep, parse_cron-Bounded}
use gocc.Scheduler.Cron.Parsing.Steps.{steps_from-ends}
use gocc.Scheduler.Cron.Rendering.{any, every, listed, span, only}
use gocc.Scheduler.Cron.RoundTrip.Fields.{values_of}
use gocc.Scheduler.Cron.RoundTrip.Values.{select}
use gocc.Scheduler.Cron.RoundTrip.{write, parse_cron-write}
use gocc.Scheduler.Cron.Next.{next-match, next-first, next-zero}

-- "0 30 9 * * 1-5"
abbrev weekdays : List ℕ
weekdays =
    b'0' ∷ b' ' ∷ b'3' ∷ b'0' ∷ b' ' ∷ b'9' ∷ b' ' ∷ b'*' ∷ b' ' ∷ b'*' ∷ b' ' ∷ b'1' ∷ b'-' ∷ b'5'
    ∷ []

abbrev weekdays_cron : CronExpr
unfolding range_slice range_from
weekdays_cron = record {
  second = 0 ∷ [];
  minute = 30 ∷ [];
  hour = 9 ∷ [];
  day = range_slice 1 31;
  month = range_slice 1 12;
  weekday = 1 ∷ 2 ∷ 3 ∷ 4 ∷ 5 ∷ [];
  raw = weekdays;
}

weekdays_parsed : parse_cron weekdays ≡ some weekdays_cron
unfolding parse_cron parse_fields parse_field parse_plain parse_range parse_bounds value_in
    range_slice range_from contains_byte strip_prefix fields fields_from split split_from atoi
    number digits_value
weekdays_parsed = refl

-- A range whose end comes first, a step of zero, a list with a gap, and a value out of bounds.
refused :
    (parse_field (b'5' ∷ b'-' ∷ b'1' ∷ []) 0 6 ≡ none)
    × (parse_field (b'*' ∷ b'/' ∷ b'0' ∷ []) 0 6 ≡ none)
    × (parse_field (b'1' ∷ b',' ∷ b',' ∷ b'2' ∷ []) 0 6 ≡ none)
    × (parse_field (b'7' ∷ []) 0 6 ≡ none)
unfolding parse_field parse_plain parse_step parse_list parse_range parse_bounds value_in
    contains_byte strip_prefix split split_from atoi number digits_value
refused = (refl, refl, refl, refl)

weekdays_small : All SmallStep (fields weekdays)
unfolding fields fields_from strip_prefix
weekdays_small = (tt, (tt, (tt, (tt, (tt, (tt, tt))))))

-- The field `*/9223372036854775807` of days: 1, -9223372036854775808 and -1.
wrapped_step : parse_step 1 31 (some (pos (2 ^ 63 - 1))) ≡ some (1 ∷ (2 ^ 63) ∷ (2 ^ 64 - 1) ∷ [])
unfolding parse_step steps_from
wrapped_step = refl

steps_from-ends_example :
    steps_from (31 + 1 + 100) (2 ^ 63 - 1) 31 1 ≡ steps_from (31 + 1) (2 ^ 63 - 1) 31 1
steps_from-ends_example =
    steps_from-ends 1 31 (2 ^ 63 - 1) 100 (omega arith) (omega arith) (omega arith) (omega arith)
      (omega arith)

parse_cron-Bounded_example : Bounded weekdays weekdays_cron
parse_cron-Bounded_example =
    parse_cron-Bounded weekdays weekdays_cron weekdays_small weekdays_parsed

-- `*/15`, `9-12` and `*`.
specified :
    (values_of 0 59 (every 15) ≡ 0 ∷ 15 ∷ 30 ∷ 45 ∷ [])
    × (values_of 0 23 (span 9 12) ≡ 9 ∷ 10 ∷ 11 ∷ 12 ∷ [])
    × (values_of 1 3 any ≡ 1 ∷ 2 ∷ 3 ∷ [])
unfolding values_of select
specified = (refl, refl, refl)

parse_cron-write_example :
    parse_cron (write (every 5) (listed 0 15 (45 ∷ [])) (span 9 17) any (only 12) (span 1 5))
    ≡ some (record {
      second = values_of 0 59 (every 5);
      minute = values_of 0 59 (listed 0 15 (45 ∷ []));
      hour = values_of 0 23 (span 9 17);
      day = values_of 1 31 any;
      month = values_of 1 12 (only 12);
      weekday = values_of 0 6 (span 1 5);
      raw = write (every 5) (listed 0 15 (45 ∷ [])) (span 9 17) any (only 12) (span 1 5);
    })
parse_cron-write_example =
    parse_cron-write (every 5) (listed 0 15 (45 ∷ [])) (span 9 17) any (only 12) (span 1 5)
      (omega arith, omega arith)
      ((omega arith, omega arith), ((omega arith, omega arith), ((omega arith, omega arith), tt)))
      (omega arith, omega arith, omega arith) tt (omega arith, omega arith)
      (omega arith, omega arith, omega arith)

abbrev small_days : Calendar
small_days = record {
  second_of = λ t. t / time_second % 3;
  minute_of = λ t. t / (3 * time_second) % 2;
  hour_of = λ t. t / (6 * time_second) % 4;
  day_of = λ t. t / (24 * time_second) + 1;
  month_of = λ t. 1;
  weekday_of = λ t. t / (24 * time_second) % 7;
}

-- The first second of every day.
abbrev midnight : CronExpr
unfolding range_slice range_from
midnight = record {
  second = 0 ∷ [];
  minute = 0 ∷ [];
  hour = 0 ∷ [];
  day = range_slice 1 31;
  month = 1 ∷ [];
  weekday = range_slice 0 6;
  raw = [];
}

matches-second_22 : matches small_days midnight (next_second 1500000000 + 22 * time_second) ≡ true
unfolding matches contains range_slice range_from
matches-second_22 = refl

round_bound : 22 < max_rounds
unfolding max_rounds
round_bound = omega arith

next-match_example :
    (1500000000 < next small_days midnight 1500000000)
    × (next small_days midnight 1500000000 ≤ next_second 1500000000 + 22 * time_second)
    × (next small_days midnight 1500000000 % time_second ≡ 0)
    × (matches small_days midnight (next small_days midnight 1500000000) ≡ true)
next-match_example = next-match small_days midnight 1500000000 22 round_bound matches-second_22

no_match-second_2 : matches small_days midnight 2000000000 ≡ false
unfolding matches contains range_slice range_from
no_match-second_2 = refl

next-after_second_2 : 2000000000 < next small_days midnight 1500000000
next-after_second_2 =
    let (low, high, whole, now) =
      next-match small_days midnight 1500000000 22 round_bound matches-second_22 in
    elim (dec_lt 2000000000 (next small_days midnight 1500000000)) [
      | yes h ↦ h
      | no n ↦
          let e : next small_days midnight 1500000000 ≡ 2000000000 = omega (arith, low, whole, n) in
          let same = ap (matches small_days midnight) e in
          absurd (cc (same, now, no_match-second_2))
    ]

next-first_example : matches small_days midnight 2000000000 ≡ false
next-first_example =
    next-first small_days midnight 1500000000 2000000000 (omega arith) next-after_second_2
      (omega arith)

next-zero_example : (next small_days midnight 7 ≡ 0) ↔ (
    (j : ℕ)
    → j < max_rounds
    → matches small_days midnight (next_second 7 + j * time_second) ≡ false)
next-zero_example = next-zero small_days midnight 7
