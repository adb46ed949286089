-- ===== src/Kafka/Commit/Key.antt =====
-- The text key under which a processed record is remembered stands for its key and offset.
use lago_paiement_engine.Prelude.{
  ℕ, zero, suc, ◌+◌, ◌-◌, ◌*◌, ◌/◌, ◌<◌, ◌≡◌, ◌≢◌, ◌↔◌, refl, ap, ap₂, ◌∙◌, sym, true, inl, inr, [],
  ◌∷◌, ◌++◌, arith, ltb, Bool-cases, All, Bytes,
}
use lago_paiement_engine.Kafka.Commit.{Record, decimal, decimal_onto, record_key, bytes_eq}

-- The number that digits stand for, read from the left onto `acc`.
abbrev undecimal : ℕ → Bytes → ℕ
undecimal acc [] = acc
undecimal acc (c ∷ cs) = undecimal (acc * 10 + (c - b'0')) cs

undecimal-decimal_onto :
    (fuel n : ℕ) (acc : Bytes) → n < fuel → undecimal 0 (decimal_onto fuel n acc) ≡ undecimal n acc
unfolding decimal_onto
undecimal-decimal_onto zero n acc h = elim h [ ]
undecimal-decimal_onto (suc fuel) n acc h = elim (Bool-cases (ltb n 10)) [
  | inl small ↦ rw small (ap (λ k. undecimal k acc) (ground arith))
  | inr large ↦ rw large (
      undecimal-decimal_onto fuel (n / 10) _ (ground arith)
      ∙ ap (λ k. undecimal k acc) (omega arith))
]

undecimal-decimal : (n : ℕ) → undecimal 0 (decimal n) ≡ n
unfolding decimal
undecimal-decimal n = undecimal-decimal_onto (suc n) n [] (omega arith)

decimal-injective : (m n : ℕ) → decimal m ≡ decimal n → m ≡ n
decimal-injective m n e = sym (undecimal-decimal m) ∙ ap (undecimal 0) e ∙ undecimal-decimal n

abbrev NoDash : Bytes → Type 0
NoDash = All (λ c. c ≢ b'-')

decimal_onto-NoDash : (fuel n : ℕ) (acc : Bytes) → NoDash acc → NoDash (decimal_onto fuel n acc)
unfolding decimal_onto
decimal_onto-NoDash zero n acc h = h
decimal_onto-NoDash (suc fuel) n acc h = elim (Bool-cases (ltb n 10)) [
  | inl small ↦ rw small (omega arith, h)
  | inr large ↦ rw large (decimal_onto-NoDash fuel (n / 10) _ (omega arith, h))
]

decimal-NoDash : (n : ℕ) → NoDash (decimal n)
unfolding decimal
decimal-NoDash n = decimal_onto-NoDash (suc n) n [] tt

NoDash-tail : (k d : Bytes) → NoDash (k ++ (b'-' ∷ d)) → ⊥
NoDash-tail [] d h = h.0 refl
NoDash-tail (c ∷ k) d h = NoDash-tail k d h.1

-- The last dash splits a key in one way.
split_at_dash :
    (k l d e : Bytes) → NoDash d → NoDash e → k ++ (b'-' ∷ d) ≡ l ++ (b'-' ∷ e) → (k ≡ l) × (d ≡ e)
split_at_dash [] [] d e hd he p = (refl, cc)
split_at_dash [] (c ∷ l) d e hd he p = absurd (NoDash-tail l e (rw (q p) at hd))
  where
    q : (b'-' ∷ d) ≡ (c ∷ (l ++ (b'-' ∷ e))) → d ≡ l ++ (b'-' ∷ e)
    q p = cc
split_at_dash (c ∷ k) [] d e hd he p = absurd (NoDash-tail k d (rw (q p) at he))
  where
    q : (c ∷ (k ++ (b'-' ∷ d))) ≡ (b'-' ∷ e) → e ≡ k ++ (b'-' ∷ d)
    q p = cc
split_at_dash (b ∷ k) (c ∷ l) d e hd he p =
    let (f, g) = split_at_dash k l d e hd he (cc) in (cc (f), g)

-- Two records have the same text key exactly when they have the same key and the same offset.
pub record_key-injective :
    (r s : Record) → (record_key r ≡ record_key s) ↔ ((r.key ≡ s.key) × (r.offset ≡ s.offset))
unfolding record_key
record_key-injective r s = (
  λ p.
      let (k, d) =
        split_at_dash r.key s.key _ _ (decimal-NoDash r.offset) (decimal-NoDash s.offset) p in
      (k, decimal-injective r.offset s.offset d),
  λ h. ap₂ (λ k o. k ++ (b'-' ∷ decimal o)) h.0 h.1,
)

pub bytes_eq_iff : (a b : Bytes) → (bytes_eq a b ≡ true) ↔ (a ≡ b)
unfolding bytes_eq
bytes_eq_iff (x ∷ a) (y ∷ b) = ground (arith, bytes_eq_iff a b)
bytes_eq_iff _ _ = ground arith
