-- ===== src/Kafka/Commit/Later.antt =====
-- What the commit of a batch does to a record below it.
use lago_paiement_engine.Prelude.{
  ℕ, ◌<◌, ◌≡◌, ◌↔◌, sym, subst, Some-map, Bool, inl, inr, List, [], ◌∷◌, Option, none, some, map,
  ◌==◌, ==_iff, length, Bool-cases, All, All_at, All-Some, Some, keep, All-keep, Shuffle,
  All-Shuffle, Shuffle-symm,
}
use lago_paiement_engine.Kafka.Commit.{Record, max_int64, commitable_records}
use lago_paiement_engine.Kafka.Commit.Safety.{all-IsSafe}
use lago_paiement_engine.Kafka.Commit.Bounds.{IsSafe, IsMaxCommitable, find_max-IsMaxCommitable}

-- The record that is handed over is not nil, and has a higher offset than `r`: its commit
-- acknowledges `r` too.
abbrev pub IsPast : Record → Option Record → Type 0
IsPast r none = ⊥
IsPast r (some m) = r.offset < m.offset

module _ (r : Record) (done : Record → Bool) (processed records : List Record)
    (order : Shuffle processed (keep done records)) where
  processed_past : All (λ x. r.offset < x.offset) records → All (λ x. r.offset < x.offset) processed
  processed_past h =
      All-Shuffle (λ x. r.offset < x.offset) (Shuffle-symm order)
        (All-keep (λ x. r.offset < x.offset) done records h)

  map-IsPast :
      (Q : Record → Type 0) (ps xs : List Record)
      → All (λ x. r.offset < x.offset) xs
      → length ps ≡ length xs
      → Some Q ps
      → Some (IsPast r) (map some xs)
  map-IsPast Q [] xs h e s = absurd s
  map-IsPast Q (p ∷ ps) [] h e s = cc e
  map-IsPast Q (p ∷ ps) (x ∷ xs) h e s = inl h.0

  max-IsPast :
      (o : Option Record)
      → All (λ x. r.offset < x.offset) processed
      → Some (λ p. IsSafe processed records p.offset) processed
      → IsMaxCommitable processed records o
      → Some (IsPast r) (o ∷ [])
  max-IsPast none h s m = All-Some processed (λ p unsafe safe. absurd (unsafe safe)) m s
  max-IsPast (some m) h s best = inl (All_at (λ x. r.offset < x.offset) processed h best.0)

  first-IsSafe :
      (ps xs : List Record)
      → ((offset : ℕ) → IsSafe processed records offset)
      → length ps ≡ length xs
      → Some (IsPast r) (map some xs)
      → Some (λ p. IsSafe processed records p.offset) ps
  first-IsSafe ps [] safe e s = absurd s
  first-IsSafe [] (x ∷ xs) safe e s = cc e
  first-IsSafe (p ∷ ps) (x ∷ xs) safe e s = inl (safe p.offset)

  best-IsSafe :
      (o : Option Record)
      → IsMaxCommitable processed records o
      → Some (IsPast r) (o ∷ [])
      → Some (λ p. IsSafe processed records p.offset) processed
  best-IsSafe none best (inl s) = absurd s
  best-IsSafe none best (inr s) = absurd s
  best-IsSafe (some m) best s =
      Some-map processed
        (λ p (e : p ≡ m). subst (λ x. IsSafe processed records x.offset) (sym e) best.1) best.0

  -- The processed records are those of a batch that the test keeps, in any order, with offsets
  -- below the largest `int64`, and all offsets of the batch are above that of the record `r`. The
  -- commit of the batch hands over a record above `r` if one of the processed records lies below
  -- all records of the batch that are not processed, and only then.
  pub commitable_records-IsPast :
      All (λ x. r.offset < x.offset) records
      → All (λ p. p.offset < max_int64) processed
      → Some (IsPast r) (commitable_records processed records)
        ↔ Some (λ p. IsSafe processed records p.offset) processed
  unfolding commitable_records
  commitable_records-IsPast later small = elim (Bool-cases (length processed == length records)) [
    | inl same ↦
        let e = (==_iff (length processed) (length records)).0 same in
        rw same (
          first-IsSafe processed records (all-IsSafe done processed records order e) e,
          map-IsPast _ processed records later e,
        )
    | inr differ ↦
        let best = find_max-IsMaxCommitable processed records small in
        rw differ (best-IsSafe _ best, λ safe. max-IsPast _ (processed_past later) safe best)
  ]
