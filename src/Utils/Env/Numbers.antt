-- ===== src/Utils/Env/Numbers.antt =====
-- Which numbers are read from the environment.
use lago_paiement_engine.Prelude.{
  ℕ, ◌+◌, ◌*◌, ◌-◌, ◌<◌, ◌≡◌, ◌≢◌, refl, ap₂, ◌∙◌, true, false, ◌&&◌, Option, none, some, List, [],
  ◌∷◌, ◌++◌, ◌⊎◌, inl, inr, arith, Bool-cases, ltb, leb, ◌==◌, All,
}
use lago_paiement_engine.Prelude.Int.{ℤ, pos, negsuc, ◌≤ℤ◌}
use lago_paiement_engine.Utils.Env.{
  Runes, NumError, invalid_syntax, out_of_range, digits, positive, negative, minus, unsigned,
}

-- The values of an `int64`.
abbrev pub IsInt64 : ℤ → Type 0
IsInt64 n = (negsuc 9223372036854775807 ≤ℤ n) × (n ≤ℤ pos 9223372036854775807)

-- How a number is written: a sign, or none, and decimal digits.
pub data Sign : Type 0 where
  no_sign plus_sign minus_sign : Sign

abbrev pub spell_sign : Sign → Runes
spell_sign no_sign = []
spell_sign plus_sign = b'+' ∷ []
spell_sign minus_sign = b'-' ∷ []

abbrev pub spell : List ℕ → Runes
spell [] = []
spell (d ∷ ds) = (b'0' + d) ∷ spell ds

-- The value of the digits behind `acc`.
abbrev pub value : ℕ → List ℕ → ℕ
value acc [] = acc
value acc (d ∷ ds) = value (acc * 10 + d) ds

abbrev pub signed : Sign → ℕ → ℤ
signed no_sign n = pos n
signed plus_sign n = pos n
signed minus_sign n = minus n

-- The text is a decimal number.
abbrev pub IsDecimal : Runes → Sign → List ℕ → Type 0
IsDecimal s sign ds = (ds ≢ []) × All (λ d. d < 10) ds × (s ≡ spell_sign sign ++ spell ds)

-- What should be read from a text, with a default.
pub data IsReading (s : Runes) (default_value : ℤ) : ℤ × Option NumError → Type 0 where
  unset : s ≡ [] → IsReading s default_value (default_value, none)
  number :
      (sign : Sign) (ds : List ℕ)
      → IsDecimal s sign ds
      → IsInt64 (signed sign (value 0 ds))
      → IsReading s default_value (signed sign (value 0 ds), none)
  too_large :
      (sign : Sign) (ds : List ℕ)
      → IsDecimal s sign ds
      → (IsInt64 (signed sign (value 0 ds)) → ⊥)
      → IsReading s default_value (default_value, some out_of_range)
  malformed :
      s ≢ []
      → ((sign : Sign) (ds : List ℕ) → IsDecimal s sign ds → ⊥)
      → IsReading s default_value (default_value, some invalid_syntax)

-- The digits that the text spells, or that it spells none.
abbrev Spelled : ℕ → Runes → Type 0
Spelled acc s =
    ((ds : List ℕ) × All (λ d. d < 10) ds × (s ≡ spell ds) × (digits acc s ≡ some (value acc ds)))
    ⊎ ((digits acc s ≡ none) × ((ds : List ℕ) → All (λ d. d < 10) ds → s ≡ spell ds → ⊥))

pub cons_parts : (x y : ℕ) (xs ys : Runes) → x ∷ xs ≡ y ∷ ys → (x ≡ y) × (xs ≡ ys)
cons_parts x y xs ys e = (cc e, cc e)

digits_other :
    (acc c : ℕ) (s : Runes) → (leb b'0' c && leb c b'9') ≡ false → digits acc (c ∷ s) ≡ none
unfolding digits
digits_other acc c s h = rw h refl

digits_digit :
    (acc c : ℕ) (s : Runes)
    → (leb b'0' c && leb c b'9') ≡ true
    → digits acc (c ∷ s) ≡ digits (acc * 10 + (c - b'0')) s
unfolding digits
digits_digit acc c s h = rw h refl

no_digit :
    (c : ℕ) (s : Runes)
    → (leb b'0' c && leb c b'9') ≡ false
    → (ds : List ℕ) → All (λ d. d < 10) ds
    → c ∷ s ≡ spell ds
    → ⊥
no_digit c s other [] small e = cc e
no_digit c s other (d ∷ ds) small e =
    ground (arith, small.0, (cons_parts c (b'0' + d) s (spell ds) e).0, other)

no_digits :
    (c : ℕ) (s : Runes)
    → ((ds : List ℕ) → All (λ d. d < 10) ds → s ≡ spell ds → ⊥)
    → (ds : List ℕ) → All (λ d. d < 10) ds
    → c ∷ s ≡ spell ds
    → ⊥
no_digits c s none' [] small e = cc e
no_digits c s none' (d ∷ ds) small e = none' ds small.1 (cons_parts c (b'0' + d) s (spell ds) e).1

digit-Spelled :
    (acc c : ℕ) (s : Runes)
    → (leb b'0' c && leb c b'9') ≡ true
    → Spelled (acc * 10 + (c - b'0')) s
    → Spelled acc (c ∷ s)
digit-Spelled acc c s digit (inl (ds, small, e, v)) = inl (
  (c - b'0') ∷ ds,
  (ground (arith, digit), small),
  ap₂ (λ x xs. x ∷ xs) (ground (arith, digit)) e,
  digits_digit acc c s digit ∙ v,
)
digit-Spelled acc c s digit (inr (none', unspelled)) =
    inr (digits_digit acc c s digit ∙ none', no_digits c s unspelled)

digits-Spelled : (acc : ℕ) (s : Runes) → Spelled acc s
unfolding digits
digits-Spelled acc [] = inl ([], tt, refl, refl)
digits-Spelled acc (c ∷ s) = elim (Bool-cases (leb b'0' c && leb c b'9')) [
  | inr other ↦ inr (digits_other acc c s other, no_digit c s other)
  | inl digit ↦ digit-Spelled acc c s digit (digits-Spelled (acc * 10 + (c - b'0')) s)
]

-- The same for a text that must not be empty.
abbrev pub SpelledNumber : Runes → Type 0
SpelledNumber s =
    ((ds : List ℕ) × (ds ≢ [])
      × All (λ d. d < 10) ds
      × (s ≡ spell ds)
      × (unsigned s ≡ some (value 0 ds)))
    ⊎ ((unsigned s ≡ none) × ((ds : List ℕ) → ds ≢ [] → All (λ d. d < 10) ds → s ≡ spell ds → ⊥))

nothing_spelled : (ds : List ℕ) → ds ≢ [] → [] ≡ spell ds → ⊥
nothing_spelled [] ne e = ne refl
nothing_spelled (d ∷ ds) ne e = cc e

digits_spelled : (c : ℕ) (s : Runes) (ds : List ℕ) → c ∷ s ≡ spell ds → ds ≢ []
digits_spelled c s [] e h = cc e
digits_spelled c s (d ∷ ds) e h = cc h

pub unsigned-SpelledNumber : (s : Runes) → SpelledNumber s
unfolding unsigned
unsigned-SpelledNumber [] = inr (refl, λ ds ne small e. nothing_spelled ds ne e)
unsigned-SpelledNumber (c ∷ s) = elim (digits-Spelled 0 (c ∷ s)) [
  | inl f ↦ inl (f.0, digits_spelled c s f.0 f.2, f.1, f.2, f.3)
  | inr f ↦ inr (f.0, λ ds ne small e. f.1 ds small e)
]

abbrev pub by_sign : Sign → Option ℕ → NumError ⊎ ℤ
by_sign no_sign o = positive o
by_sign plus_sign o = positive o
by_sign minus_sign o = negative o

minus-IsInt64 : (n : ℕ) → leb n 9223372036854775808 ≡ true → IsInt64 (minus n)
minus-IsInt64 n small = elim (Bool-cases (n == 0)) [
  | inl zero' ↦ rw zero' (omega arith, omega arith)
  | inr other ↦ rw other (ground arith, ground arith)
]

minus_large : (n : ℕ) → leb n 9223372036854775808 ≡ false → IsInt64 (minus n) → ⊥
minus_large n large h = elim (Bool-cases (n == 0)) [
  | inl zero' ↦ ground (arith, zero', large)
  | inr other ↦ ground (arith, large, (rw other at h))
]

-- The value is read if it is in range, and refused if not.
abbrev pub Range : Sign → ℕ → Type 0
Range sign n =
    ((by_sign sign (some n) ≡ inr (signed sign n)) × IsInt64 (signed sign n))
    ⊎ ((by_sign sign (some n) ≡ inl out_of_range) × (IsInt64 (signed sign n) → ⊥))

positive-Range : (n : ℕ) → Range no_sign n
positive-Range n = elim (Bool-cases (ltb n 9223372036854775808)) [
  | inl small ↦ inl (rw small refl, (omega arith, ground arith))
  | inr large ↦ inr (rw large refl, λ h. ground (arith, h.1, large))
]

pub fits_or_large : (sign : Sign) (n : ℕ) → Range sign n
fits_or_large no_sign n = positive-Range n
fits_or_large plus_sign n = positive-Range n
fits_or_large minus_sign n = elim (Bool-cases (leb n 9223372036854775808)) [
  | inl small ↦ inl (rw small refl, minus-IsInt64 n small)
  | inr large ↦ inr (rw large refl, minus_large n large)
]
