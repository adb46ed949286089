-- ===== src/Utils/Time/Format.antt =====
-- `t.UTC().Format(time.RFC3339)`: the calendar date and the time of day of an instant, from the
-- first of March of the year 0 on (719468 days before the Unix epoch).
use lago_paiement_engine.Prelude.{
  ℕ, ◌+◌, ◌-◌, ◌*◌, ◌/◌, ◌%◌, ◌≡◌, refl, String, [], ◌∷◌, concat, ltb, leb, if◌then◌else◌,
}
use lago_paiement_engine.Prelude.Int.{pos, pos_part, ◌+ℤ◌}
use lago_paiement_engine.Utils.Value.{decimal_text}
use lago_paiement_engine.Utils.Time.{Time, zero_time}

-- Whole seconds since that March.
unfoldable pub seconds_of : Time → ℕ
seconds_of t = pos_part (t.nanos +ℤ pos 62162035200000000000) / 1000000000

pub record Date : Type 0 where
  pub year : ℕ
  pub month : ℕ
  pub day : ℕ

-- The date of a day that is counted from that March: 400 years have 146097 days, and a year
-- begins in March, so that the leap day is its last.
unfoldable pub date_of_day : ℕ → Date
date_of_day n =
    let doe = n % 146097 in
    let yoe = (doe - doe / 1460 + doe / 36524 - doe / 146096) / 365 in
    let doy = doe - (365 * yoe + yoe / 4 - yoe / 100) in
    let mp = (5 * doy + 2) / 153 in
    let month = if ltb mp 10 then mp + 3 else mp - 9 in
    record {
      year = yoe + n / 146097 * 400 + (if leb month 2 then 1 else 0);
      month = month;
      day = doy - (153 * mp + 2) / 5 + 1;
    }

-- `n` in at least two, or four, digits.
pad_two : ℕ → String
pad_two n = concat ((if ltb n 10 then "0" else "") ∷ decimal_text (pos n) ∷ [])

pad_four : ℕ → String
pad_four n = concat (
    (if ltb n 10 then "000" else if ltb n 100 then "00" else if ltb n 1000 then "0" else "")
    ∷ decimal_text (pos n)
    ∷ [])

abbrev clock_text : ℕ → String
clock_text s =
    concat (pad_two (s / 3600) ∷ ":" ∷ pad_two (s / 60 % 60) ∷ ":" ∷ pad_two (s % 60) ∷ [])

abbrev date_text : Date → String
date_text d = concat (pad_four d.year ∷ "-" ∷ pad_two d.month ∷ "-" ∷ pad_two d.day ∷ [])

pub format_rfc3339 : Time → String
unfolding seconds_of date_of_day pad_two pad_four decimal_text
format_rfc3339 t =
    let s = seconds_of t in
    concat (date_text (date_of_day (s / 86400)) ∷ "T" ∷ clock_text (s % 86400) ∷ "Z" ∷ [])

format_leap_day :
    format_rfc3339 (record { nanos = pos 1709210096000000000 }) ≡ "2024-02-29T12:34:56Z"
unfolding format_rfc3339 ◌+ℤ◌
format_leap_day = refl

format_zero_time : format_rfc3339 zero_time ≡ "0001-01-01T00:00:00Z"
unfolding format_rfc3339 ◌+ℤ◌
format_zero_time = refl
