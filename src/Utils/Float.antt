-- ===== src/Utils/Float.antt =====
-- Go's `float64` with the operations that the program uses. There are no floats here: a value is
-- its bit pattern, and the operations are a parameter of the definitions that use them.
use lago_paiement_engine.Prelude.{ℕ, ◌⊎◌, String}
use lago_paiement_engine.Prelude.Int.{ℤ}
use lago_paiement_engine.Utils.Result.{Error}

pub record Float64 : Type 0 where
  pub bits : ℕ

pub record Floats : Type 0 where
  -- `strconv.ParseFloat(s, 64)`: an error, or the value.
  pub parse_float : String → Error ⊎ Float64
  -- The conversions `float64(n)` and `int64(f)`.
  pub of_int64 : ℤ → Float64
  pub to_int64 : Float64 → ℤ
  pub sub : Float64 → Float64 → Float64
  pub mul : Float64 → Float64 → Float64
  pub div : Float64 → Float64 → Float64
  -- `math.Trunc`
  pub trunc : Float64 → Float64
  -- `fmt.Sprintf` with `%f` and `%v`.
  pub format_f : Float64 → String
  pub format_v : Float64 → String
