-- ===== src/Scheduler/Cron/RoundTrip.antt =====
-- ParseCron reads back what is written by the grammar of cron.go's comment.
pub mod Values
pub mod Fields
use gocc.Prelude.{
  ℕ, zero, suc, ◌+◌, ◌-◌, ◌*◌, ◌≤◌, ◌<◌, ◌≡◌, ◌∙◌, refl, sym, ap, subst, Bool, true, false, ◌&&◌,
  ◌||◌, List, [], ◌∷◌, ◌++◌, append_assoc, append-nil, Option, none, some, if◌then◌else◌, ltb, leb,
  ◌==◌, ◌>>=◌, length, All, All-append, arith, dec_lt,
}
use gocc.Prelude.Int.{ℤ, pos}
use gocc.Scheduler.Cron.Text.{close_word, fields, split, contains_byte, strip_prefix, atoi}
use gocc.Scheduler.Cron.{
  CronExpr, range_slice, steps_from, value_in, parse_step, parse_list, parse_bounds, parse_range,
  parse_plain, parse_field, parse_fields, parse_cron, is_star, single,
}
use gocc.Scheduler.Cron.Rendering.{
  FieldSpec, any, every, listed, span, only, decimal, commas, render, Digits, decimal-Digits,
  decimal_first, atoi-decimal, contains_byte-Digits, contains_byte-append, split-word, split-last,
  Visible, fields-word, fields-last,
}
use gocc.Scheduler.Cron.RoundTrip.Fields.{values_of, Proper, parse_field-render}

Digits-Visible : (w : List ℕ) → Digits w → Visible w
Digits-Visible [] d = tt
Digits-Visible (c ∷ w) ((low, high), rest) = (omega arith, Digits-Visible w rest)

decimal-Visible : (n : ℕ) → n < 100 → Visible (decimal n)
decimal-Visible n h = Digits-Visible (decimal n) (decimal-Digits n h)

module _ (min max : ℕ) (small : max < 100) where
  commas-Visible :
      (v : ℕ) (ws : List ℕ) → All (λ u. (min ≤ u) × (u ≤ max)) (v ∷ ws) → Visible (commas v ws)
  unfolding commas
  commas-Visible v [] ((low, high), _) = decimal-Visible v (omega arith)
  commas-Visible v (w ∷ ws) ((low, high), rest) =
      All-append (λ c. b' ' < c) (decimal v) (b',' ∷ commas w ws) (decimal-Visible v (omega arith))
        (omega arith, commas-Visible w ws rest)

  render-Visible : (f : FieldSpec) → Proper min max f → Visible (render f)
  unfolding render
  render-Visible any p = (omega arith, tt)
  render-Visible (every n) (low, high) = (omega arith, (omega arith, decimal-Visible n high))
  render-Visible (listed v w ws) p = commas-Visible v (w ∷ ws) p
  render-Visible (span a b) (low, mid, high) =
      All-append (λ c. b' ' < c) (decimal a) (b'-' ∷ decimal b) (decimal-Visible a (omega arith))
        (omega arith, decimal-Visible b (omega arith))
  render-Visible (only v) (low, high) = decimal-Visible v (omega arith)

close_word-decimal :
    (n : ℕ) (s : List ℕ) (rest : List (List ℕ))
    → n < 100
    → close_word (decimal n ++ s) rest ≡ (decimal n ++ s) ∷ rest
close_word-decimal n s rest h =
    let (d, t, e, low, high) = decimal_first n h in
    subst (λ w. close_word w rest ≡ w ∷ rest) (sym (ap (λ u. u ++ s) e)) refl

close_word-render :
    (min max : ℕ) (f : FieldSpec) (rest : List (List ℕ))
    → max < 100
    → Proper min max f
    → close_word (render f) rest ≡ render f ∷ rest
unfolding render commas
close_word-render min max any rest small p = refl
close_word-render min max (every n) rest small p = refl
close_word-render min max (listed v w ws) rest small ((low, high), more) =
    close_word-decimal v (b',' ∷ commas w ws) rest (omega arith)
close_word-render min max (span a b) rest small (low, mid, high) =
    close_word-decimal a (b'-' ∷ decimal b) rest (omega arith)
close_word-render min max (only v) rest small (low, high) =
    subst (λ w. close_word w rest ≡ w ∷ rest) (append-nil (decimal v))
      (close_word-decimal v [] rest (omega arith))

fields-render :
    (min max : ℕ) (f : FieldSpec) (rest : List ℕ)
    → max < 100
    → Proper min max f
    → fields (render f ++ b' ' ∷ rest) ≡ render f ∷ fields rest
fields-render min max f rest small p =
    fields-word (render f) rest (render-Visible min max small f p)
    ∙ close_word-render min max f (fields rest) small p

-- The six fields of an expression, and their text, separated by spaces.
abbrev pub write : FieldSpec → FieldSpec → FieldSpec → FieldSpec → FieldSpec → FieldSpec → List ℕ
write s mi h d mo w =
    render s
    ++ b' '
      ∷ (render mi
          ++ b' ' ∷ (render h ++ b' ' ∷ (render d ++ b' ' ∷ (render mo ++ b' ' ∷ render w))))

-- Reading an expression that is written with the forms of the grammar (`*`, `*/n` with n from 1 to
-- 99, a list of two or more values, a range in order, a value), each number within the bounds of
-- its field, gives back the text and the values that each field stands for: with `*` all numbers
-- from min to max, with `*/n` those that are min plus a multiple of n, with `a-b` those from a to
-- b, and else the values written.
pub parse_cron-write :
    (s mi h d mo w : FieldSpec)
    → Proper 0 59 s
    → Proper 0 59 mi
    → Proper 0 23 h
    → Proper 1 31 d
    → Proper 1 12 mo
    → Proper 0 6 w
    → parse_cron (write s mi h d mo w)
      ≡ some (record {
        second = values_of 0 59 s;
        minute = values_of 0 59 mi;
        hour = values_of 0 23 h;
        day = values_of 1 31 d;
        month = values_of 1 12 mo;
        weekday = values_of 0 6 w;
        raw = write s mi h d mo w;
      })
unfolding parse_cron parse_fields
parse_cron-write s mi h d mo w ps pmi ph pd pmo pw =
    let parts : fields (write s mi h d mo w)
        ≡ render s ∷ render mi ∷ render h ∷ render d ∷ render mo ∷ render w ∷ [] =
      rw
        (
          fields-render 0 59 s _ (omega arith) ps,
          fields-render 0 59 mi _ (omega arith) pmi,
          fields-render 0 23 h _ (omega arith) ph,
          fields-render 1 31 d _ (omega arith) pd,
          fields-render 1 12 mo _ (omega arith) pmo,
          fields-last (render w) (render-Visible 0 6 (omega arith) w pw),
          close_word-render 0 6 w [] (omega arith) pw,
        )
        refl in
    ap (parse_fields (write s mi h d mo w)) parts
    ∙ rw
        (
          parse_field-render 0 59 (omega arith) s (omega arith) ps,
          parse_field-render 0 59 (omega arith) mi (omega arith) pmi,
          parse_field-render 0 23 (omega arith) h (omega arith) ph,
          parse_field-render 1 31 (omega arith) d (omega arith) pd,
          parse_field-render 1 12 (omega arith) mo (omega arith) pmo,
          parse_field-render 0 6 (omega arith) w (omega arith) pw,
        )
        refl
