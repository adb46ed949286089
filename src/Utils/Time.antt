-- ===== src/Utils/Time.antt =====
-- Timestamps of events (events-processor/utils/time.go). A `time.Time` is an instant, in
-- nanoseconds from the Unix epoch.
pub mod Conversion
pub mod Format
pub mod Calendar
pub mod Custom
use lago_paiement_engine.Prelude.{
  ℕ, ◌+◌, ◌-◌, ◌*◌, ◌/◌, inl, inr, Option, none, some, ◌⊎◌, String, List, [], ◌∷◌, concat, Bool,
  ltb, if◌then◌else◌,
}
use lago_paiement_engine.Prelude.Int.{ℤ, pos, negsuc, ◌+ℤ◌, ◌-ℤ◌, ◌*ℤ◌, ltb_ℤ}
use lago_paiement_engine.Utils.Result.{Error, Zero, Result, success_result, failed_result_of}
use lago_paiement_engine.Utils.Float.{Float64, Floats}
use lago_paiement_engine.Utils.Value.{
  Value, nil, bool, int, int64, float64, string, list, object, type_name,
}

pub record Time : Type 0 where
  pub nanos : ℤ

-- The first of January of the year 1, 62135596800 seconds before the epoch.
abbrev pub zero_time : Time
zero_time = record { nanos = negsuc 62135596799999999999 }

instance abbrev pub time_zero : Zero Time
time_zero = record { zero_value = zero_time }

instance abbrev pub float_zero : Zero Float64
float_zero = record { zero_value = record { bits = 0 } }

-- `time.Unix(seconds, nanoseconds)`
unfoldable pub unix : ℤ → ℤ → Time
unix seconds nanoseconds = record { nanos = seconds *ℤ pos 1000000000 +ℤ nanoseconds }

-- Down to a whole number of milliseconds.
floor_millisecond : ℤ → ℤ
floor_millisecond (pos n) = pos (n / 1000000 * 1000000)
floor_millisecond (negsuc n) = negsuc ((n / 1000000 + 1) * 1000000 - 1)

-- `t.Truncate(time.Millisecond)`, which rounds down.
unfoldable pub truncate_millisecond : Time → Time
unfolding floor_millisecond
truncate_millisecond t = record { nanos = floor_millisecond t.nanos }

-- `return FailedResult[T](fmt.Errorf("Unsupported timestamp type: %T", timestamp))`
abbrev unsupported : Value → Option Error
unsupported v =
    some (record { message = concat ("Unsupported timestamp type: " ∷ type_name v ∷ []) })

module _ (fl : Floats) where
  -- `math.Trunc(f*1000) / 1000`
  millis_of : Float64 → Float64
  millis_of f = fl.div (fl.trunc (fl.mul f (fl.of_int64 (pos 1000)))) (fl.of_int64 (pos 1000))

  -- `int64((f - float64(seconds)) * 1e9)`
  nanoseconds_of : Float64 → ℤ → ℤ
  nanoseconds_of f seconds =
      fl.to_int64 (fl.mul (fl.sub f (fl.of_int64 seconds)) (fl.of_int64 (pos 1000000000)))

  instant : ℤ → ℤ → Result Time
  instant seconds nanoseconds = success_result (truncate_millisecond (unix seconds nanoseconds))

  instant_of_float : Float64 → Result Time
  instant_of_float f = let seconds = fl.to_int64 f in instant seconds (nanoseconds_of f seconds)

  instant_of_parsed : Error ⊎ Float64 → Result Time
  instant_of_parsed (inl e) = failed_result_of (some e)
  instant_of_parsed (inr f) = instant_of_float f

  timestamp_of_parsed : Error ⊎ Float64 → Result Float64
  timestamp_of_parsed (inl e) = failed_result_of (some e)
  timestamp_of_parsed (inr f) = success_result (millis_of f)

  unfoldable pub to_time : Value → Result Time
  unfolding nanoseconds_of instant instant_of_float instant_of_parsed
  to_time (string s) = instant_of_parsed (fl.parse_float s)
  to_time (int n) = instant n (pos 0)
  to_time (int64 n) = instant n (pos 0)
  to_time (float64 f) = instant_of_float f
  to_time v = failed_result_of (unsupported v)

  unfoldable pub to_float64_timestamp : Value → Result Float64
  unfolding millis_of timestamp_of_parsed
  to_float64_timestamp (string s) = timestamp_of_parsed (fl.parse_float s)
  to_float64_timestamp (int n) = success_result (fl.of_int64 n)
  to_float64_timestamp (int64 n) = success_result (fl.of_int64 n)
  to_float64_timestamp (float64 f) = success_result f
  to_float64_timestamp v = failed_result_of (unsupported v)

-- `time.Since(t)` at the instant `now`: a `Duration` is an `int64` of nanoseconds, and saturates.
unfoldable pub since : Time → Time → ℤ
since now t =
    let d = now.nanos -ℤ t.nanos in
    if ltb_ℤ (pos 9223372036854775807) d
    then pos 9223372036854775807
    else if ltb_ℤ d (negsuc 9223372036854775807)
    then negsuc 9223372036854775807
    else d
