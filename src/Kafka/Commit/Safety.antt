-- ===== src/Kafka/Commit/Safety.antt =====
-- What `processRecordsAndCommit` hands to the client is safe to commit, or is a nil record.
use lago_paiement_engine.Prelude.{
  ℕ, ◌<◌, ◌≤◌, ◌≡◌, ◌⊎◌, All-Some, refl, ap, ◌∙◌, sym, Bool, true, false, inl, inr, List, [], ◌∷◌,
  Option, none, some, map, arith, ◌==◌, ==_iff, length, Bool-cases, All, All-map, All_at, Some,
  keep, keep-All, Shuffle, Some-Shuffle, Shuffle-symm, length-Shuffle, All-length-keep,
}
use lago_paiement_engine.Kafka.Commit.{Record, max_int64, commitable_records}
use lago_paiement_engine.Kafka.Commit.Bounds.{
  IsProcessed, IsSafe, IsMaxCommitable, find_max-IsMaxCommitable,
}

-- A committed record acknowledges all records up to its offset. A nil record acknowledges none.
abbrev pub IsSafeCommit : List Record → List Record → Option Record → Type 0
IsSafeCommit processed records none = Unit
IsSafeCommit processed records (some m) = IsSafe processed records m.offset

IsProcessed-self :
    (xs ys : List Record)
    → ((r : Record) → IsProcessed ys r → IsProcessed xs r)
    → All (IsProcessed xs) ys
IsProcessed-self xs [] f = tt
IsProcessed-self xs (y ∷ ys) f =
    (f y (inl (refl, refl)), IsProcessed-self xs ys (λ r p. f r (inr p)))

IsSafeCommit-of_max :
    (processed records : List Record) (o : Option Record)
    → IsMaxCommitable processed records o
    → IsSafeCommit processed records o
IsSafeCommit-of_max processed records none h = tt
IsSafeCommit-of_max processed records (some m) h = h.1

All-IsSafeCommit :
    (processed records xs : List Record)
    → ((offset : ℕ) → IsSafe processed records offset)
    → All (IsSafeCommit processed records) (map some xs)
All-IsSafeCommit processed records [] f = tt
All-IsSafeCommit processed records (x ∷ xs) f =
    (f x.offset, All-IsSafeCommit processed records xs f)

module _ (done : Record → Bool) (processed records : List Record)
    (order : Shuffle processed (keep done records)) where
  All-IsProcessed : length processed ≡ length records → All (IsProcessed processed) records
  All-IsProcessed e = IsProcessed-self processed records λ r p.
      Some-Shuffle _ (Shuffle-symm order) (
        rw (keep-All done records (All-length-keep done records (sym (length-Shuffle order) ∙ e)))
          p)

  pub all-IsSafe :
      length processed ≡ length records → (offset : ℕ) → IsSafe processed records offset
  all-IsSafe e offset =
      All-map records
        (λ r (p : IsProcessed processed r) (out : IsProcessed processed r → ⊥). absurd (out p))
        (All-IsProcessed e)

  -- Where the processed records are those that the test keeps, in any order, and their offsets are
  -- below the largest `int64`, each record that is handed to the client for a commit is nil, or
  -- lies below every record of the batch whose key and offset are not among the processed ones.
  pub commitable_records-IsSafeCommit :
      All (λ p. p.offset < max_int64) processed
      → All (IsSafeCommit processed records) (commitable_records processed records)
  unfolding commitable_records
  commitable_records-IsSafeCommit small = elim (Bool-cases (length processed == length records)) [
    | inl same ↦
        rw same (All-IsSafeCommit processed records records (all-IsSafe ((==_iff _ _).0 same)))
    | inr differ ↦ rw differ (
      IsSafeCommit-of_max processed records _ (find_max-IsMaxCommitable processed records small),
      tt,
    )
  ]

  missing_from :
      (r : Record)
      → Some (λ x. x ≡ r) records
      → (IsProcessed processed r → ⊥)
      → (length processed == length records) ≡ false
  missing_from r there out = elim (Bool-cases (length processed == length records)) [
    | inl same ↦
        absurd (
          out
            (All_at (IsProcessed processed) records (All-IsProcessed ((==_iff _ _).0 same)) there))
    | inr differ ↦ differ
  ]

  none_of :
      (r : Record)
      → Some (λ x. x ≡ r) records
      → (IsProcessed processed r → ⊥)
      → All (λ p. r.offset ≤ p.offset) processed
      → (o : Option Record) → IsMaxCommitable processed records o
      → o ≡ none
  none_of r there out high none h = refl
  none_of r there out high (some m) h =
      let low : r.offset ≤ m.offset = All_at (λ p. r.offset ≤ p.offset) processed high h.0 in
      let safe : m.offset < r.offset =
        All_at (λ x. (IsProcessed processed x → ⊥) → m.offset < x.offset) records h.1 there out in
      absurd (omega arith)

  -- Where the processed records are those that the test keeps, in any order, and their offsets are
  -- below the largest `int64`: if some record of the batch has a key and offset that no processed
  -- record has, and no processed record lies below it, a single nil record is handed to the
  -- client.
  pub commitable_records_nil :
      (r : Record)
      → Some (λ x. x ≡ r) records
      → (IsProcessed processed r → ⊥)
      → All (λ p. r.offset ≤ p.offset) processed
      → All (λ p. p.offset < max_int64) processed
      → commitable_records processed records ≡ none ∷ []
  unfolding commitable_records
  commitable_records_nil r there out high small = rw (missing_from r there out) (
      ap (λ (o : Option Record). o ∷ [])
        (none_of r there out high _ (find_max-IsMaxCommitable processed records small)))

-- The record that is handed over, if it is not nil, has a lower offset than `r`.
abbrev pub IsBelow : Record → Option Record → Type 0
IsBelow r none = Unit
IsBelow r (some m) = m.offset < r.offset

-- The offset identifies a record of the batch.
abbrev pub IsDistinct : List Record → Type 0
IsDistinct records = All (λ x. All (λ y. x.offset ≡ y.offset → x ≡ y) records) records

IsDistinct-at :
    (r : Record) (xs ys : List Record)
    → All (λ x. All (λ y. x.offset ≡ y.offset → x ≡ y) ys) xs
    → Some (λ y. y ≡ r) ys
    → All (λ x. x.offset ≡ r.offset → x ≡ r) xs
IsDistinct-at r [] ys h s = tt
IsDistinct-at r (x ∷ xs) ys h s =
    (All_at (λ y. x.offset ≡ y.offset → x ≡ y) ys h.0 s, IsDistinct-at r xs ys h.1 s)

IsBelow-of :
    (processed records : List Record) (r : Record)
    → Some (λ x. x ≡ r) records
    → (IsProcessed processed r → ⊥)
    → (o : Option Record) → IsSafeCommit processed records o
    → IsBelow r o
IsBelow-of processed records r there out none h = tt
IsBelow-of processed records r there out (some m) h =
    All_at (λ x. (IsProcessed processed x → ⊥) → m.offset < x.offset) records h there out

keep-Some_here :
    (done : Record → Bool) (P : Record → Type 0) (x : Record) (xs : List Record)
    → done x ≡ true
    → (Some P (keep done xs) → Some (λ y. (done y ≡ true) × P y) xs)
    → P x ⊎ Some P (keep done xs)
    → Some (λ y. (done y ≡ true) × P y) (x ∷ xs)
keep-Some_here done P x xs kept rest (inl p) = inl (kept, p)
keep-Some_here done P x xs kept rest (inr later) = inr (rest later)

keep-Some :
    (done : Record → Bool) (P : Record → Type 0) (records : List Record)
    → Some P (keep done records)
    → Some (λ x. (done x ≡ true) × P x) records
keep-Some done P [] s = s
keep-Some done P (x ∷ xs) s = elim (Bool-cases (done x)) [
  | inl kept ↦ keep-Some_here done P x xs kept (keep-Some done P xs) (rw kept at s)
  | inr dropped ↦ inr (keep-Some done P xs (rw dropped at s))
]

module _ (done : Record → Bool) (processed records : List Record)
    (order : Shuffle processed (keep done records)) where
  not_done→out :
      (r : Record)
      → IsDistinct records
      → Some (λ x. x ≡ r) records
      → done r ≡ false
      → IsProcessed processed r
      → ⊥
  not_done→out r distinct there undone p =
      All-Some records
        (λ x (same : x.offset ≡ r.offset → x ≡ r)
            (h : (done x ≡ true) × ((x.key ≡ r.key) × (x.offset ≡ r.offset))).
          clash x (same h.1.1) h.0)
        (IsDistinct-at r records records distinct there)
        (keep-Some done (λ x. (x.key ≡ r.key) × (x.offset ≡ r.offset)) records
          (Some-Shuffle _ order p))
    where
      clash : (x : Record) → x ≡ r → done x ≡ true → ⊥
      clash x e h = cc

  -- Where the processed records are those that the test keeps, in any order, the offset identifies
  -- a record of the batch, and the processed offsets are below the largest `int64`: a record that
  -- is handed to the client for a commit, if it is not nil, lies below every record of the batch
  -- for which the test fails.
  pub commitable_records-lt_undone :
      (r : Record)
      → IsDistinct records
      → All (λ p. p.offset < max_int64) processed
      → Some (λ x. x ≡ r) records
      → done r ≡ false
      → All (IsBelow r) (commitable_records processed records)
  commitable_records-lt_undone r distinct small there undone =
      All-map _ (IsBelow-of processed records r there (not_done→out r distinct there undone))
        (commitable_records-IsSafeCommit done processed records order small)
