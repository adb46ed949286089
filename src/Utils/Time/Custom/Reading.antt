-- ===== src/Utils/Time/Custom/Reading.antt =====
-- The fields of a time, read by `time.Parse` from the text that `Format` writes
-- (events-processor/utils/time.go).
use lago_paiement_engine.Prelude.{
  ℕ, ◌+◌, ◌/◌, ◌%◌, ◌<◌, ◌≤◌, ◌≡◌, ap, ap₂, ◌∙◌, Option, none, some, [], ◌++◌, Bool, true, Bytes,
  arith, if_true, ◌&&◌,
}
use lago_paiement_engine.Utils.Time.Custom.{
  Parser, parsed_then, two_digits, year_digits, one_or_two_digits, within, civil, is_digit,
  two_text, four_text, civil_text,
}

digit_code : (x : ℕ) → x < 10 → is_digit (48 + x) ≡ true
digit_code x h = ground arith

both : (a b : Bool) → a ≡ true → b ≡ true → (a && b) ≡ true
both a b h k = ap₂ (λ x y. x && y) h k

two_digits-two_text :
    (n : ℕ) (rest : Bytes) → n < 100 → two_digits (two_text n ++ rest) ≡ some (n, rest)
two_digits-two_text n rest h =
    if_true _ _ none
      (both _ _ (digit_code (n / 10) (omega arith)) (digit_code (n % 10) (omega arith)))
    ∙ ap (λ m. some (m, rest)) (omega arith)

one_or_two_digits-two_text :
    (n : ℕ) (rest : Bytes) → n < 100 → one_or_two_digits (two_text n ++ rest) ≡ some (n, rest)
one_or_two_digits-two_text n rest h =
    if_true _ _ none (digit_code (n / 10) (omega arith))
    ∙ if_true _ _ _ (digit_code (n % 10) (omega arith))
    ∙ ap (λ m. some (m, rest)) (omega arith)

year_digits-four_text :
    (n : ℕ) (rest : Bytes) → n < 10000 → year_digits (four_text n ++ rest) ≡ some (n, rest)
year_digits-four_text n rest h =
    if_true _ _ none (
      both _ _
        (both _ _
          (both _ _ (digit_code (n / 1000) (omega arith)) (digit_code (n / 100 % 10) (omega arith)))
          (digit_code (n / 10 % 10) (omega arith)))
        (digit_code (n % 10) (omega arith)))
    ∙ ap (λ m. some (m, rest)) (omega arith)

within-in :
    (low high n : ℕ) (rest : Bytes) → low ≤ n → n ≤ high → within low high n rest ≡ some (n, rest)
within-in low high n rest h k = if_true _ _ none (ground arith)

then_of :
    {A B : Type 0} (f : A → Parser B) {o : Option (A × Bytes)} {rest : Bytes} {a : A}
    → o ≡ some (a, rest)
    → parsed_then o f ≡ f a rest
then_of f h = ap (λ o. parsed_then o f) h

two_within :
    (low high n : ℕ) (rest : Bytes)
    → low ≤ n
    → n ≤ high
    → high < 100
    → parsed_then (two_digits (two_text n ++ rest)) (within low high) ≡ some (n, rest)
two_within low high n rest h k l =
    then_of (within low high) (two_digits-two_text n rest (omega arith))
    ∙ within-in low high n rest h k

hour_within :
    (n : ℕ) (rest : Bytes)
    → n ≤ 23
    → parsed_then (one_or_two_digits (two_text n ++ rest)) (within 0 23) ≡ some (n, rest)
hour_within n rest k =
    then_of (within 0 23) (one_or_two_digits-two_text n rest (omega arith))
    ∙ within-in 0 23 n rest (omega arith) k

pub civil-civil_text :
    (year month day clock : ℕ)
    → year < 10000
    → 1 ≤ month
    → month ≤ 12
    → day < 100
    → clock < 86400
    → civil (civil_text (four_text year) month day clock)
      ≡ some (
        record {
          date = record { year = year; month = month; day = day };
          clock = clock;
          nanosecond = 0;
        },
        [],
      )
civil-civil_text year month day clock hy hm hm' hd hc =
    then_of _ (year_digits-four_text year _ hy)
    ∙ then_of _ (two_within 1 12 month _ hm hm' (omega arith))
    ∙ then_of _ (two_digits-two_text day _ hd)
    ∙ then_of _ (hour_within (clock / 3600) _ (omega arith))
    ∙ then_of _ (two_within 0 59 (clock / 60 % 60) _ (omega arith) (omega arith) (omega arith))
    ∙ then_of _ (two_within 0 59 (clock % 60) [] (omega arith) (omega arith) (omega arith))
    ∙ ap
        (λ c. some (
          record {
            date = record { year = year; month = month; day = day };
            clock = c;
            nanosecond = 0;
          },
          [],
        ))
        (omega arith)
