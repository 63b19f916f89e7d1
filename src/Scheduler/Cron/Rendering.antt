-- ===== src/Scheduler/Cron/Rendering.antt =====
-- Cron expressions as data, how they are written, and what splitting the written text gives back.
use gocc.Prelude.{
  ℕ, ◌+◌, ◌/◌, ◌%◌, ◌≤◌, ◌<◌, ◌≡◌, refl, sym, ap, false, ◌||◌, List, [], ◌∷◌, ◌++◌, append_assoc,
  append-nil, some, if◌then◌else◌, ltb, All, arith, dec_lt,
}
use gocc.Prelude.Int.{pos}
use gocc.Scheduler.Cron.Text.{
  close_word, fields_from, fields, split_from, split, contains_byte, digits_value, number, atoi,
}

-- `*`, `*/n`, a list of at least two values, a range, and a value.
pub data FieldSpec : Type 0 where
  any : FieldSpec
  every : ℕ → FieldSpec
  listed : ℕ → ℕ → List ℕ → FieldSpec
  span : ℕ → ℕ → FieldSpec
  only : ℕ → FieldSpec

-- A number below 100 in decimal.
unfoldable pub decimal : ℕ → List ℕ
decimal n = if ltb n 10 then (b'0' + n) ∷ [] else (b'0' + n / 10) ∷ (b'0' + n % 10) ∷ []

unfoldable pub commas : ℕ → List ℕ → List ℕ
unfolding decimal
commas v [] = decimal v
commas v (w ∷ ws) = decimal v ++ b',' ∷ commas w ws

unfoldable pub render : FieldSpec → List ℕ
unfolding commas
render any = b'*' ∷ []
render (every n) = b'*' ∷ b'/' ∷ decimal n
render (listed v w ws) = commas v (w ∷ ws)
render (span a b) = decimal a ++ b'-' ∷ decimal b
render (only v) = decimal v

abbrev pub Digits : List ℕ → Type 0
Digits = All (λ c. (b'0' ≤ c) × (c ≤ b'9'))

pub decimal-Digits : (n : ℕ) → n < 100 → Digits (decimal n)
unfolding decimal
decimal-Digits n h = ground arith

-- What a decimal number begins with.
pub decimal_first :
    (n : ℕ) → n < 100 → (d : ℕ) × (s : List ℕ) × (decimal n ≡ d ∷ s) × (b'0' ≤ d) × (d ≤ b'9')
unfolding decimal
decimal_first n h = elim (dec_lt n 10) [
  | yes l ↦ (b'0' + n, [], ground arith, omega arith, omega arith)
  | no l ↦ (b'0' + n / 10, (b'0' + n % 10) ∷ [], ground arith, omega arith, omega arith)
]

pub atoi-decimal : (n : ℕ) → n < 100 → atoi (decimal n) ≡ some (pos n)
unfolding decimal atoi number digits_value
atoi-decimal n h = ground arith

pub contains_byte-Digits : (b : ℕ) (w : List ℕ) → b < b'0' → Digits w → contains_byte b w ≡ false
unfolding contains_byte
contains_byte-Digits b [] h d = refl
contains_byte-Digits b (c ∷ w) h d = ground (arith, contains_byte-Digits b w h d.1)

pub contains_byte-append :
    (b : ℕ) (w v : List ℕ) → contains_byte b (w ++ v) ≡ (contains_byte b w || contains_byte b v)
unfolding contains_byte
contains_byte-append b [] v = refl
contains_byte-append b (c ∷ w) v = ground (arith, contains_byte-append b w v)

split_from-word :
    (sep : ℕ) (word w rest : List ℕ)
    → sep < b'0'
    → Digits w
    → split_from sep word (w ++ sep ∷ rest) ≡ (word ++ w) ∷ split_from sep [] rest
unfolding split_from
split_from-word sep word [] rest h d = ground (arith, append-nil word)
split_from-word sep word (c ∷ w) rest h d =
    ground (arith, split_from-word sep (word ++ c ∷ []) w rest h d.1, append_assoc word (c ∷ []) w)

split_from-last :
    (sep : ℕ) (word w : List ℕ) → sep < b'0' → Digits w → split_from sep word w ≡ (word ++ w) ∷ []
unfolding split_from
split_from-last sep word [] h d = ap (λ u. u ∷ []) (sym (append-nil word))
split_from-last sep word (c ∷ w) h d =
    ground (arith, split_from-last sep (word ++ c ∷ []) w h d.1, append_assoc word (c ∷ []) w)

pub split-word :
    (sep : ℕ) (w rest : List ℕ)
    → sep < b'0'
    → Digits w
    → split sep (w ++ sep ∷ rest) ≡ w ∷ split sep rest
unfolding split
split-word sep w rest h d = split_from-word sep [] w rest h d

pub split-last : (sep : ℕ) (w : List ℕ) → sep < b'0' → Digits w → split sep w ≡ w ∷ []
unfolding split
split-last sep w h d = split_from-last sep [] w h d

-- Printing characters, which no field boundary is.
abbrev pub Visible : List ℕ → Type 0
Visible = All (λ c. b' ' < c)

fields_from-word :
    (word w rest : List ℕ)
    → Visible w
    → fields_from word (w ++ b' ' ∷ rest) ≡ close_word (word ++ w) (fields_from [] rest)
unfolding fields_from
fields_from-word word [] rest v =
    ap (λ u. close_word u (fields_from [] rest)) (sym (append-nil word))
fields_from-word word (c ∷ w) rest v =
    ground (arith, fields_from-word (word ++ c ∷ []) w rest v.1, append_assoc word (c ∷ []) w)

fields_from-last : (word w : List ℕ) → Visible w → fields_from word w ≡ close_word (word ++ w) []
unfolding fields_from
fields_from-last word [] v = ap (λ u. close_word u []) (sym (append-nil word))
fields_from-last word (c ∷ w) v =
    ground (arith, fields_from-last (word ++ c ∷ []) w v.1, append_assoc word (c ∷ []) w)

pub fields-word :
    (w rest : List ℕ) → Visible w → fields (w ++ b' ' ∷ rest) ≡ close_word w (fields rest)
unfolding fields
fields-word w rest v = fields_from-word [] w rest v

pub fields-last : (w : List ℕ) → Visible w → fields w ≡ close_word w []
unfolding fields
fields-last w v = fields_from-last [] w v
