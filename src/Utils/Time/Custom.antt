-- ===== src/Utils/Time/Custom.antt =====
-- `CustomTime` of the events' JSON (events-processor/utils/time.go): `time.Parse` and `Format` with
-- the layout "2006-01-02T15:04:05", in UTC, on the bytes of the text. A text in another form is an
-- error; what `time.Parse` says of it is a parameter.
pub mod Reading
pub mod Trimming
pub mod RoundTrip
use lago_paiement_engine.Prelude.{
  ℕ, zero, suc, ◌+◌, ◌-◌, ◌*◌, ◌/◌, ◌%◌, ◌^◌, Option, none, some, String, List, [], ◌∷◌, ◌++◌, Bool,
  true, false, ◌&&◌, ◌||◌, ltb, leb, ◌==◌, if◌then◌else◌, Bytes, codes,
}
use lago_paiement_engine.Prelude.Int.{ℤ, pos, negsuc, sub_ℕ}
use lago_paiement_engine.Utils.Result.{Error, Result, failure}
use lago_paiement_engine.Utils.Float.{Floats}
use lago_paiement_engine.Utils.Value.{string, decimal_text}
use lago_paiement_engine.Utils.Time.{Time, to_time}
use lago_paiement_engine.Utils.Time.Format.{Date, date_of_day, seconds_of}
use lago_paiement_engine.Utils.Time.Calendar.{day_number, is_valid_date}

-- `strings.Trim(s, "\"")`
abbrev pub trim_quotes_left : Bytes → Bytes
trim_quotes_left [] = []
trim_quotes_left (c ∷ cs) = if c == 34 then trim_quotes_left cs else c ∷ cs

abbrev pub trimmed_onto : ℕ → Bytes → Bytes
trimmed_onto c [] = if c == 34 then [] else c ∷ []
trimmed_onto c (d ∷ ds) = c ∷ d ∷ ds

abbrev pub trim_quotes_right : Bytes → Bytes
trim_quotes_right [] = []
trim_quotes_right (c ∷ cs) = trimmed_onto c (trim_quotes_right cs)

-- What is read, and the text after it.
abbrev pub Parser : Type 0 → Type 0
Parser A = Bytes → Option (A × Bytes)

abbrev pub parsed_then : {A B : Type 0} → Option (A × Bytes) → (A → Parser B) → Option (B × Bytes)
parsed_then none f = none
parsed_then (some (a, rest)) f = f a rest

infixl 5 ◌>>=◌ ◌>>◌
abbrev pub ◌>>=◌ : {A B : Type 0} → Parser A → (A → Parser B) → Parser B
m >>= f = λ b. parsed_then (m b) f

abbrev pub ◌>>◌ : {A B : Type 0} → Parser A → Parser B → Parser B
m >> k = m >>= λ _. k

abbrev parsed : {A : Type 0} → A → Parser A
parsed a b = some (a, b)

-- A byte of the layout.
abbrev pub skip : ℕ → Parser Unit
skip c [] = none
skip c (b ∷ rest) = if b == c then some (tt, rest) else none

abbrev pub is_digit : ℕ → Bool
is_digit c = leb 48 c && leb c 57

-- `getnum` of two digits.
abbrev pub two_digits : Parser ℕ
two_digits (a ∷ b ∷ rest) =
    if is_digit a && is_digit b then some ((a - 48) * 10 + (b - 48), rest) else none
two_digits (a ∷ []) = none
two_digits [] = none

-- `getnum` of one digit or two.
abbrev pub one_or_two_digits : Parser ℕ
one_or_two_digits (a ∷ b ∷ rest) =
    if is_digit a
    then if is_digit b then some ((a - 48) * 10 + (b - 48), rest) else some (a - 48, b ∷ rest)
    else none
one_or_two_digits (a ∷ []) = if is_digit a then some (a - 48, []) else none
one_or_two_digits [] = none

abbrev pub year_digits : Parser ℕ
year_digits (a ∷ b ∷ c ∷ d ∷ rest) =
    if is_digit a && is_digit b && is_digit c && is_digit d
    then some ((a - 48) * 1000 + (b - 48) * 100 + (c - 48) * 10 + (d - 48), rest)
    else none
year_digits b = none

abbrev pub within : ℕ → ℕ → ℕ → Parser ℕ
within low high n b = if leb low n && leb n high then some (n, b) else none

-- The digits of a fraction and the text after them.
abbrev span_digits : Bytes → Bytes × Bytes
span_digits [] = ([], [])
span_digits (c ∷ cs) =
    let (digits, rest) = span_digits cs in if is_digit c then (c ∷ digits, rest) else ([], c ∷ cs)

-- The first `places` digits, as so many places after the point.
abbrev scaled : ℕ → Bytes → ℕ
scaled zero ds = 0
scaled (suc places) [] = 0
scaled (suc places) (d ∷ ds) = (d - 48) * 10 ^ places + scaled places ds

abbrev fraction_of : Bytes × Bytes → Option (ℕ × Bytes)
fraction_of (digits, after) = some (scaled 9 digits, after)

-- A fraction of a second, that the layout does not have and that is read all the same: its
-- nanoseconds.
abbrev pub fraction : Parser ℕ
fraction (p ∷ d ∷ rest) =
    if (p == 46 || p == 44) && is_digit d
    then fraction_of (span_digits (d ∷ rest))
    else some (0, p ∷ d ∷ rest)
fraction b = some (0, b)

-- A date with a time of day, in seconds and nanoseconds.
pub record Civil : Type 0 where
  pub date : Date
  pub clock : ℕ
  pub nanosecond : ℕ

abbrev pub civil : Parser Civil
civil = do
  year ← year_digits
  skip 45
  month ← two_digits >>= within 1 12
  skip 45
  day ← two_digits
  skip 84
  hour ← one_or_two_digits >>= within 0 23
  skip 58
  minute ← two_digits >>= within 0 59
  skip 58
  second ← two_digits >>= within 0 59
  nanosecond ← fraction
  parsed (record {
    date = record { year = year; month = month; day = day };
    clock = hour * 3600 + minute * 60 + second;
    nanosecond = nanosecond;
  })

-- `time.Date(..., time.UTC)`
abbrev pub instant_of : Civil → Time
instant_of c = record {
  nanos =
      sub_ℕ ((day_number c.date * 86400 + c.clock) * 1000000000 + c.nanosecond)
        74784816000000000000;
}

abbrev pub completed : Option (Civil × Bytes) → Option Time
completed none = none
completed (some (c, [])) = if is_valid_date c.date then some (instant_of c) else none
completed (some (c, b ∷ rest)) = none

-- `time.Parse("2006-01-02T15:04:05", s)`
unfoldable pub parse : Bytes → Option Time
parse b = completed (civil b)

-- `s == "null" || s == ""`
abbrev pub is_absent : Bytes → Bool
is_absent [] = true
is_absent (a ∷ b ∷ c ∷ d ∷ []) = a == 110 && b == 117 && c == 108 && d == 108
is_absent s = false

module _ (fl : Floats) (text : Bytes → String) (parse_error : Bytes → Error) where
  abbrev pub parsed_or_timestamp : Time → Bytes → Option Time → Time × Option Error
  parsed_or_timestamp ct s (some t) = (t, none)
  parsed_or_timestamp ct s none =
      let time_result = to_time fl (string (text s)) in
      if failure time_result then (ct, some (parse_error s)) else (time_result.value, none)

  -- `UnmarshalJSON`: the value after it, and its error.
  unfoldable pub unmarshal_json : Time → Bytes → Time × Option Error
  unmarshal_json ct b =
      let s = trim_quotes_right (trim_quotes_left b) in
      if is_absent s then (ct, none) else parsed_or_timestamp ct s (parse s)

abbrev pub two_text : ℕ → Bytes
two_text n = (48 + n / 10) ∷ (48 + n % 10) ∷ []

abbrev pub four_text : ℕ → Bytes
four_text n = (48 + n / 1000) ∷ (48 + n / 100 % 10) ∷ (48 + n / 10 % 10) ∷ (48 + n % 10) ∷ []

-- In at least four digits.
abbrev pub year_text : ℕ → Bytes
year_text n = if ltb n 10000 then four_text n else codes (decimal_text (pos n))

abbrev pub civil_text : Bytes → ℕ → ℕ → ℕ → Bytes
civil_text year month day clock =
    year
    ++ 45 ∷ two_text month
    ++ 45 ∷ two_text day
    ++ 84 ∷ two_text (clock / 3600)
    ++ 58 ∷ two_text (clock / 60 % 60)
    ++ 58 ∷ two_text (clock % 60)

-- `String`
unfoldable pub text_of_time : Time → Bytes
text_of_time t =
    let d = date_of_day (seconds_of t / 86400) in
    civil_text (year_text d.year) d.month d.day (seconds_of t % 86400)

-- `t.IsZero()`
abbrev pub is_zero : Time → Bool
is_zero t = elim (t.nanos) [ pos n ↦ false | negsuc n ↦ n == 62135596799999999999 ]

-- `MarshalJSON`
unfoldable pub marshal_json : Time → Bytes
marshal_json t = if is_zero t then 110 ∷ 117 ∷ 108 ∷ 108 ∷ [] else 34 ∷ text_of_time t ++ 34 ∷ []
