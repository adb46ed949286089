-- ===== src/Utils/Time/Custom/RoundTrip.antt =====
-- Reading what `CustomTime` writes (events-processor/utils/time.go).
use lago_paiement_engine.Prelude.{
  ℕ, ◌+◌, ◌*◌, ◌/◌, ◌%◌, ◌<◌, ◌≡◌, sym, ap, ◌∙◌, Option, none, some, String, [], ◌∷◌, ◌++◌, true,
  false, Bytes, arith, Bool-cases, inl, inr, ltb, if◌then◌else◌, if_true, if_false,
}
use lago_paiement_engine.Prelude.Int.{ℤ, pos, negsuc, sub_ℕ, ◌+ℤ◌, pos_part}
use lago_paiement_engine.Utils.Result.{Error}
use lago_paiement_engine.Utils.Float.{Floats}
use lago_paiement_engine.Utils.Time.{Time, zero_time}
use lago_paiement_engine.Utils.Time.Format.{date_of_day, seconds_of}
use lago_paiement_engine.Utils.Time.Calendar.{
  is_valid_date-date_of_day, day_number, day_number-date_of_day, date_of_day-year,
  date_of_day-month, date_of_day-day,
}
use lago_paiement_engine.Utils.Time.Custom.{
  four_text, year_text, civil_text, text_of_time, marshal_json, unmarshal_json, parse,
  trim_quotes_left, trim_quotes_right, is_zero, completed, instant_of, parsed_or_timestamp,
  is_absent,
}
use lago_paiement_engine.Utils.Time.Custom.Reading.{civil-civil_text}
use lago_paiement_engine.Utils.Time.Custom.Trimming.{trim-quoted}

-- `s` whole seconds after the first of March of the year 0.
abbrev pub whole_second : ℕ → Time
whole_second s = record { nanos = sub_ℕ (s * 1000000000) 62162035200000000000 }

sub_ℕ-cancel : (a b : ℕ) → sub_ℕ a b +ℤ pos b ≡ pos a
unfolding ◌+ℤ◌
sub_ℕ-cancel a b = ground arith

sub_ℕ-shift : (a b k : ℕ) → sub_ℕ (a + k) (b + k) ≡ sub_ℕ a b
sub_ℕ-shift a b k = ground arith

year_text-four : (n : ℕ) → n < 10000 → year_text n ≡ four_text n
year_text-four n h = if_true (ltb n 10000) (four_text n) _ (ground arith)

-- In nanoseconds from the first of March of the year -400.
day_nanos :
    (s : ℕ)
    → (day_number (date_of_day (s / 86400)) * 86400 + s % 86400) * 1000000000 + 0
      ≡ s * 1000000000 + 12622780800000000000
day_nanos s = let e = day_number-date_of_day (s / 86400) in omega arith

seconds_of-whole_second : (s : ℕ) → seconds_of (whole_second s) ≡ s
unfolding seconds_of
seconds_of-whole_second s =
    ap (λ z. pos_part z / 1000000000) (sub_ℕ-cancel (s * 1000000000) 62162035200000000000)
    ∙ omega arith

-- The first year that `Format` writes with five digits begins 3652365 days after that March.
text_of_time-whole_second :
    (s : ℕ)
    → s < 315564336000
    → text_of_time (whole_second s)
      ≡ civil_text
          (four_text (date_of_day (s / 86400)).year)
          (date_of_day (s / 86400)).month
          (date_of_day (s / 86400)).day
          (s % 86400)
unfolding text_of_time
text_of_time-whole_second s h =
    ap
      (λ n.
        civil_text (year_text (date_of_day (n / 86400)).year) (date_of_day (n / 86400)).month
          (date_of_day (n / 86400)).day (n % 86400))
      (seconds_of-whole_second s)
    ∙ ap
        (λ year.
          civil_text year (date_of_day (s / 86400)).month (date_of_day (s / 86400)).day (s % 86400))
        (year_text-four (date_of_day (s / 86400)).year (date_of_day-year (s / 86400) (omega arith)))

instant_of-whole_second :
    (s : ℕ)
    → instant_of (record { date = date_of_day (s / 86400); clock = s % 86400; nanosecond = 0 })
      ≡ whole_second s
instant_of-whole_second s =
    ap (λ n. record { nanos = sub_ℕ n 74784816000000000000 }) (day_nanos s)
    ∙ ap (λ z. record { nanos = z })
        (sub_ℕ-shift (s * 1000000000) 62162035200000000000 12622780800000000000)

parse-civil_text :
    (s : ℕ)
    → s < 315564336000
    → parse (
        civil_text
          (four_text (date_of_day (s / 86400)).year)
          (date_of_day (s / 86400)).month
          (date_of_day (s / 86400)).day
          (s % 86400))
      ≡ some (whole_second s)
unfolding parse
parse-civil_text s h =
    let (low, high) = date_of_day-month (s / 86400) in
    ap completed (
      civil-civil_text (date_of_day (s / 86400)).year (date_of_day (s / 86400)).month
        (date_of_day (s / 86400)).day (s % 86400) (date_of_day-year (s / 86400) (omega arith)) low
        high (date_of_day-day (s / 86400)) (omega arith))
    ∙ if_true _ _ none (is_valid_date-date_of_day (s / 86400))
    ∙ ap some (instant_of-whole_second s)

is_zero_at : (n : ℤ) → is_zero (record { nanos = n }) ≡ true → record { nanos = n } ≡ zero_time
is_zero_at (pos n) h = grind arith
is_zero_at (negsuc n) h = ap (λ m. record { nanos = negsuc m }) (ground arith)

is_zero-eq : (t : Time) → is_zero t ≡ true → t ≡ zero_time
is_zero-eq t h = is_zero_at t.nanos h

module _ (fl : Floats) (text : Bytes → String) (parse_error : Bytes → Error) where
  abbrev decode_trimmed : Time → Bytes → Time × Option Error
  decode_trimmed ct s =
      if is_absent s then (ct, none) else parsed_or_timestamp fl text parse_error ct s (parse s)

  unmarshal_json-text :
      (s : ℕ) (ct : Time)
      → s < 315564336000
      → is_zero (whole_second s) ≡ false
      → unmarshal_json fl text parse_error ct (marshal_json (whole_second s))
        ≡ (whole_second s, none)
  unfolding unmarshal_json marshal_json
  unmarshal_json-text s ct h other =
      let d = date_of_day (s / 86400) in
      let written = civil_text (four_text d.year) d.month d.day (s % 86400) in
      ap (λ b. decode_trimmed ct (trim_quotes_right (trim_quotes_left b)))
        (if_false (is_zero (whole_second s)) (110 ∷ 117 ∷ 108 ∷ 108 ∷ [])
            (34 ∷ text_of_time (whole_second s) ++ 34 ∷ []) other
          ∙ ap (λ b. 34 ∷ b ++ 34 ∷ []) (text_of_time-whole_second s h))
      ∙ ap (decode_trimmed ct) (trim-quoted d.year d.month d.day (s % 86400))
      ∙ ap (parsed_or_timestamp fl text parse_error ct written) (parse-civil_text s h)

  unmarshal_json-null :
      (t : Time)
      → is_zero t ≡ true
      → unmarshal_json fl text parse_error zero_time (marshal_json t) ≡ (t, none)
  unfolding unmarshal_json marshal_json
  unmarshal_json-null t zero =
      ap (λ b. decode_trimmed zero_time (trim_quotes_right (trim_quotes_left b)))
        (if_true (is_zero t) (110 ∷ 117 ∷ 108 ∷ 108 ∷ []) (34 ∷ text_of_time t ++ 34 ∷ []) zero)
      ∙ ap (λ ct. (ct, none)) (sym (is_zero-eq t zero))

  -- Whatever `CustomTime` writes of an instant in whole seconds, from the first of March of the
  -- year 0 to the end of the year 9999, it reads back into a new value as the same instant and
  -- without an error, the zero time, which is written as null, included.
  pub unmarshal_json-marshal_json :
      (s : ℕ)
      → s < 315564336000
      → unmarshal_json fl text parse_error zero_time (marshal_json (whole_second s))
        ≡ (whole_second s, none)
  unmarshal_json-marshal_json s h = elim (Bool-cases (is_zero (whole_second s))) [
    | inl zero ↦ unmarshal_json-null (whole_second s) zero
    | inr other ↦ unmarshal_json-text s zero_time h other
  ]
