-- ===== src/Utils/Time/Custom/Trimming.antt =====
-- `strings.Trim` of the quotes around a time (events-processor/utils/time.go).
use lago_paiement_engine.Prelude.{
  ℕ, ◌+◌, ◌/◌, ◌%◌, ◌≡◌, refl, ap, ◌∙◌, [], ◌∷◌, ◌++◌, false, Bytes, arith, All, ◌==◌, if_false,
}
use lago_paiement_engine.Utils.Time.Custom.{
  two_text, four_text, civil_text, trim_quotes_left, trim_quotes_right, trimmed_onto,
}

NoQuote : ℕ → Type 0
NoQuote c = (c == 34) ≡ false

trimmed_onto-NoQuote : (c : ℕ) (cs : Bytes) → NoQuote c → trimmed_onto c cs ≡ c ∷ cs
unfolding NoQuote
trimmed_onto-NoQuote c [] h = if_false (c == 34) [] (c ∷ []) h
trimmed_onto-NoQuote c (d ∷ ds) h = refl

trim_quotes_right-NoQuote : (cs : Bytes) → All NoQuote cs → trim_quotes_right (cs ++ 34 ∷ []) ≡ cs
trim_quotes_right-NoQuote [] h = refl
trim_quotes_right-NoQuote (c ∷ cs) h =
    ap (trimmed_onto c) (trim_quotes_right-NoQuote cs h.1) ∙ trimmed_onto-NoQuote c cs h.0

plain_digit : (x : ℕ) → NoQuote (48 + x)
unfolding NoQuote
plain_digit x = ground arith

record Plain (cs : Bytes) : Type 0 where
  bytes : All NoQuote cs

two_text-Plain : (n : ℕ) {rest : Bytes} → Plain rest → Plain (two_text n ++ rest)
two_text-Plain n h = record { bytes = (plain_digit (n / 10), (plain_digit (n % 10), h.bytes)) }

four_text-Plain : (n : ℕ) {rest : Bytes} → Plain rest → Plain (four_text n ++ rest)
four_text-Plain n h = record {
  bytes = (
    plain_digit (n / 1000),
    (plain_digit (n / 100 % 10), (plain_digit (n / 10 % 10), (plain_digit (n % 10), h.bytes))),
  );
}

separated : {rest : Bytes} (c : ℕ) → NoQuote c → Plain rest → Plain (c ∷ rest)
separated c h k = record { bytes = (h, k.bytes) }

civil_text-Plain : (year month day clock : ℕ) → Plain (civil_text (four_text year) month day clock)
unfolding NoQuote
civil_text-Plain year month day clock =
    let seconds = separated 58 refl (two_text-Plain (clock % 60) (record { bytes = tt })) in
    let time =
      two_text-Plain (clock / 3600)
        (separated 58 refl (two_text-Plain (clock / 60 % 60) seconds)) in
    let from_month =
      two_text-Plain month (separated 45 refl (two_text-Plain day (separated 84 refl time))) in
    four_text-Plain year (separated 45 refl from_month)

-- Trimmed of the quotes, and then of those after it.
pub trim-quoted :
    (year month day clock : ℕ)
    → trim_quotes_right
        (trim_quotes_left (34 ∷ civil_text (four_text year) month day clock ++ 34 ∷ []))
      ≡ civil_text (four_text year) month day clock
unfolding NoQuote
trim-quoted year month day clock =
    ap trim_quotes_right (if_false ((48 + year / 1000) == 34) _ _ (plain_digit (year / 1000)))
    ∙ trim_quotes_right-NoQuote (civil_text (four_text year) month day clock)
        (civil_text-Plain year month day clock).bytes
