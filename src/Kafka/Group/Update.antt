-- ===== src/Kafka/Group/Update.antt =====
-- Maps and functions that are changed at one argument.
use lago_paiement_engine.Prelude.{
  ℕ, ◌≡◌, ◌≢◌, ◌↔◌, inl, inr, refl, sym, subst, true, false, Option, some, eq_iff, ◌==◌, ==_iff,
  Bool-cases, arith,
}
use lago_paiement_engine.Kafka.Group.{TopicPartition, partition_eq, put, at}

partition_eq_iff : (a b : TopicPartition) → (partition_eq a b ≡ true) ↔ (a ≡ b)
partition_eq_iff a b = ground (arith, eq_iff a.topic b.topic)

-- A function that is changed at one argument.
module _ {ℓ} {A : Type ℓ} where
  pub at-elim :
      (P : ℕ → A → Type 0) (i : ℕ) (v : A) (f : ℕ → A)
      → P i v
      → ((j : ℕ) → (j == i) ≡ false → P j (f j))
      → (j : ℕ) → P j (at i v f j)
  at-elim P i v f here elsewhere j = elim (Bool-cases (j == i)) [
    | inl same ↦ rw same (subst (λ k. P k v) (sym ((==_iff j i).0 same)) here)
    | inr differ ↦ rw differ (elsewhere j differ)
  ]

  pub at_other : (i : ℕ) (v : A) (f : ℕ → A) (j : ℕ) → j ≢ i → at i v f j ≡ f j
  at_other i v f j ne = elim (Bool-cases (j == i)) [
    | inl same ↦ absurd (ne ((==_iff j i).0 same))
    | inr differ ↦ rw differ refl
  ]

pub put-elim :
    (P : TopicPartition → Option ℕ → Type 0) (tp : TopicPartition) (v : Option ℕ)
    (m : TopicPartition → Option ℕ)
    → P tp v
    → ((k : TopicPartition) → k ≢ tp → P k (m k))
    → (k : TopicPartition) → P k (put tp v m k)
put-elim P tp v m here elsewhere k = elim (Bool-cases (partition_eq k tp)) [
  | inl same ↦ rw same (subst (λ j. P j v) (sym ((partition_eq_iff k tp).0 same)) here)
  | inr differ ↦ rw differ (elsewhere k (λ e. cc (differ, (partition_eq_iff k tp).1 e)))
]

pub put_other :
    (tp : TopicPartition) (v : Option ℕ) (m : TopicPartition → Option ℕ) (k : TopicPartition)
    → k ≢ tp
    → put tp v m k ≡ m k
put_other tp v m k ne =
    put-elim (λ j o. j ≢ tp → o ≡ m j) tp v m (λ n. absurd (n refl)) (λ j n o. refl) k ne

pub put_here :
    (tp : TopicPartition) (v : Option ℕ) (m : TopicPartition → Option ℕ) → put tp v m tp ≡ v
put_here tp v m = rw ((partition_eq_iff tp tp).1 refl) refl

pub some_eq : {a b : ℕ} → some a ≡ some b → a ≡ b
some_eq h = cc

pub at_here {ℓ} : {A : Type ℓ} (i : ℕ) (v : A) (f : ℕ → A) → at i v f i ≡ v
at_here i v f = rw ((==_iff i i).1 refl) refl
