-- ===== src/Utils/Time/Conversion.antt =====
-- How the two conversions of an event's timestamp relate, and what instant they give.
use lago_paiement_engine.Prelude.{◌/◌, ◌≡◌, ◌↔◌, refl, arith, none, inl, inr, ◌⊎◌}
use lago_paiement_engine.Prelude.Int.{ℤ, pos, negsuc, ◌+ℤ◌, ◌-ℤ◌, ◌*ℤ◌, ◌<ℤ◌, ◌≤ℤ◌}
use lago_paiement_engine.Utils.Result.{Error}
use lago_paiement_engine.Utils.Float.{Floats, Float64}
use lago_paiement_engine.Utils.Value.{Value, int, int64, float64, string}
use lago_paiement_engine.Utils.Time.{
  Time, unix, floor_millisecond, instant_of_parsed, truncate_millisecond, to_time,
  to_float64_timestamp, since,
}

module _ (fl : Floats) where
  -- On every value, `ToTime` and `ToFloat64Timestamp` fail with the same error, or both succeed.
  pub to_time-to_float64_timestamp :
      (v : Value) → (to_time fl v).err ≡ (to_float64_timestamp fl v).err
  unfolding to_time to_float64_timestamp
  to_time-to_float64_timestamp (string s) = ground arith
  to_time-to_float64_timestamp _ = refl

-- `r` is `z` rounded down to a whole number of milliseconds.
abbrev pub IsFloor : ℤ → ℤ → Type 0
IsFloor z r = (k : ℤ) × (r ≡ k *ℤ pos 1000000) × (r ≤ℤ z) × (z <ℤ (r +ℤ pos 1000000))

floor_millisecond-IsFloor : (z : ℤ) → IsFloor z (floor_millisecond z)
unfolding floor_millisecond ◌*ℤ◌ ◌+ℤ◌
floor_millisecond-IsFloor (pos n) = (pos (n / 1000000), ground arith, ground arith, ground arith)
floor_millisecond-IsFloor (negsuc n) =
    (negsuc (n / 1000000), ground arith, ground arith, ground arith)

abbrev pub IsWholeMillisecond : Time → Type 0
IsWholeMillisecond t = (k : ℤ) × (t.nanos ≡ k *ℤ pos 1000000)

truncate-IsWholeMillisecond : (t : Time) → IsWholeMillisecond (truncate_millisecond t)
unfolding truncate_millisecond
truncate-IsWholeMillisecond t = let f = floor_millisecond-IsFloor t.nanos in (f.0, f.1)

-- Whenever `ToTime` succeeds, its instant is a whole number of milliseconds.
pub to_time-IsWholeMillisecond :
    (fl : Floats) (v : Value) → (to_time fl v).err ≡ none → IsWholeMillisecond (to_time fl v).value
unfolding to_time
to_time-IsWholeMillisecond fl (string s) h = parsed (fl.parse_float s) h
  where
    parsed :
        (p : Error ⊎ Float64)
        → (instant_of_parsed fl p).err ≡ none
        → IsWholeMillisecond (instant_of_parsed fl p).value
    parsed (inl e) h = cc
    parsed (inr f) h = truncate-IsWholeMillisecond _
to_time-IsWholeMillisecond fl (int n) h = truncate-IsWholeMillisecond _
to_time-IsWholeMillisecond fl (int64 n) h = truncate-IsWholeMillisecond _
to_time-IsWholeMillisecond fl (float64 f) h = truncate-IsWholeMillisecond _
to_time-IsWholeMillisecond fl _ h = cc

-- An integer timestamp becomes the instant that many seconds after the epoch, exactly.
pub to_time-int :
    (fl : Floats) (n : ℤ)
    → ((to_time fl (int n)).value.nanos ≡ n *ℤ pos 1000000000)
      × ((to_time fl (int64 n)).value.nanos ≡ n *ℤ pos 1000000000)
unfolding to_time unix truncate_millisecond ◌*ℤ◌ ◌+ℤ◌
to_time-int fl (pos n) = ground arith
to_time-int fl (negsuc n) = ground arith

-- The saturation of a duration does not change the comparison with twelve hours.
pub since-lt :
    (now t : Time)
    → (since now t <ℤ pos 43200000000000) ↔ ((now.nanos -ℤ t.nanos) <ℤ pos 43200000000000)
unfolding since
since-lt now t = ground arith
