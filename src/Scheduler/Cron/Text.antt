-- ===== src/Scheduler/Cron/Text.antt =====
-- What cron.go uses of Go's strings and strconv, on ASCII texts.
use gocc.Prelude.{
  ℕ, zero, suc, ◌+◌, ◌-◌, ◌*◌, ◌^◌, Bool, false, ◌&&◌, ◌||◌, List, [], ◌∷◌, ◌++◌, Option, none,
  some, ltb, leb, ◌==◌, if◌then◌else◌,
}
use gocc.Prelude.Int.{ℤ, pos, negsuc}

abbrev pub is_space : ℕ → Bool
is_space c = (c == b' ') || (leb 9 c && leb c 13)

-- strings.Fields: `word` is the field that is being read.
abbrev pub close_word : List ℕ → List (List ℕ) → List (List ℕ)
close_word [] rest = rest
close_word (c ∷ word) rest = (c ∷ word) ∷ rest

unfoldable pub fields_from : List ℕ → List ℕ → List (List ℕ)
fields_from word [] = close_word word []
fields_from word (c ∷ s) =
    let new = close_word word (fields_from [] s) in
    let same = fields_from (word ++ c ∷ []) s in if is_space c then new else same

unfoldable pub fields : List ℕ → List (List ℕ)
unfolding fields_from
fields s = fields_from [] s

-- strings.Split by a byte.
unfoldable pub split_from : ℕ → List ℕ → List ℕ → List (List ℕ)
split_from sep word [] = word ∷ []
split_from sep word (c ∷ s) =
    let new = word ∷ split_from sep [] s in
    let same = split_from sep (word ++ c ∷ []) s in if c == sep then new else same

unfoldable pub split : ℕ → List ℕ → List (List ℕ)
unfolding split_from
split sep s = split_from sep [] s

-- strings.Contains of a byte.
unfoldable pub contains_byte : ℕ → List ℕ → Bool
contains_byte b [] = false
contains_byte b (c ∷ s) = (c == b) || contains_byte b s

-- strings.HasPrefix of two bytes, and what follows them.
unfoldable pub strip_prefix : ℕ → ℕ → List ℕ → Option (List ℕ)
strip_prefix a b [] = none
strip_prefix a b (c ∷ []) = none
strip_prefix a b (c ∷ d ∷ s) = if (c == a) && (d == b) then some s else none

-- strconv.Atoi: a sign, if any, and at least one digit; 64 bits.
abbrev pub is_digit : ℕ → Bool
is_digit c = leb b'0' c && leb c b'9'

unfoldable pub digits_value : ℕ → List ℕ → Option ℕ
digits_value acc [] = some acc
digits_value acc (c ∷ s) =
    let rest = digits_value (acc * 10 + (c - b'0')) s in if is_digit c then rest else none

unfoldable pub number : List ℕ → Option ℕ
unfolding digits_value
number [] = none
number (c ∷ s) = digits_value 0 (c ∷ s)

abbrev pub positive : Option ℕ → Option ℤ
positive none = none
positive (some n) = if ltb n (2 ^ 63) then some (pos n) else none

abbrev pub minus : ℕ → ℤ
minus zero = pos 0
minus (suc n) = negsuc n

abbrev pub negative : Option ℕ → Option ℤ
negative none = none
negative (some n) = if leb n (2 ^ 63) then some (minus n) else none

unfoldable pub atoi : List ℕ → Option ℤ
unfolding number
atoi [] = none
atoi (c ∷ s) =
    if c == b'-'
    then negative (number s)
    else if c == b'+'
    then positive (number s)
    else positive (number (c ∷ s))
