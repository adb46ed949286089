-- ===== src/Tests/Values.antt =====
-- Timestamps, at sample values.
use lago_paiement_engine.Prelude.{◌≡◌, refl, none, some, arith, Bytes, codes}
use lago_paiement_engine.Prelude.Int.{pos, negsuc, ◌+ℤ◌}
use lago_paiement_engine.Utils.Result.{Error}
use lago_paiement_engine.Utils.Time.{zero_time}
use lago_paiement_engine.Utils.Time.Format.{seconds_of, date_of_day}
use lago_paiement_engine.Utils.Time.Calendar.{day_number}
use lago_paiement_engine.Utils.Time.Custom.{text_of_time, parse, marshal_json, unmarshal_json}
use lago_paiement_engine.Utils.Time.Custom.RoundTrip.{whole_second, unmarshal_json-marshal_json}
use lago_paiement_engine.Tests.Data.{whole_floats}

abbrev unread : Bytes → Error
unread b = record { message = "parsing time" }

leap_day_text :
    text_of_time (record { nanos = pos 1709210096000000000 }) ≡ codes "2024-02-29T12:34:56"
unfolding text_of_time seconds_of date_of_day ◌+ℤ◌
leap_day_text = refl

parse_fraction :
    parse (codes "2024-02-29T12:34:56.789") ≡ some (record { nanos = pos 1709210096789000000 })
unfolding parse day_number
parse_fraction = refl

parse_short_hour :
    parse (codes "0001-01-01T0:00:00,1") ≡ some (record { nanos = negsuc 62135596799899999999 })
unfolding parse day_number
parse_short_hour = refl

parse_no_leap_day : parse (codes "2023-02-29T12:34:56") ≡ none
unfolding parse day_number
parse_no_leap_day = refl

-- The same instant, 29 February 2024.
unmarshal_json-marshal_json_example :
    unmarshal_json whole_floats (λ b. "") unread zero_time (marshal_json (whole_second 63871245296))
    ≡ (whole_second 63871245296, none)
unmarshal_json-marshal_json_example =
    unmarshal_json-marshal_json whole_floats (λ b. "") unread 63871245296 (omega arith)
