-- ===== src/Kafka/Commit/Handed.antt =====
-- What the records that are handed to the client have in common with those of the batch.
use lago_paiement_engine.Prelude.{
  ◌<◌, ◌≡◌, Option, none, some, List, [], ◌∷◌, map, ◌==◌, ==_iff, refl, length, All, All_at,
  Bool-cases, inl, inr,
}
use lago_paiement_engine.Kafka.Commit.{Record, max_int64, commitable_records}
use lago_paiement_engine.Kafka.Commit.Bounds.{IsMaxCommitable, find_max-IsMaxCommitable}

-- The record that is handed over satisfies `P`, if it is not nil.
abbrev pub IfAny : (Record → Type 0) → Option Record → Type 0
IfAny P none = Unit
IfAny P (some m) = P m

module _ (P : Record → Type 0) where
  All-IfAny : (xs : List Record) → All P xs → All (IfAny P) (map some xs)
  All-IfAny [] h = tt
  All-IfAny (x ∷ xs) h = (h.0, All-IfAny xs h.1)

  max-IfAny :
      (processed records : List Record) (o : Option Record)
      → All P processed
      → IsMaxCommitable processed records o
      → All (IfAny P) (o ∷ [])
  max-IfAny processed records none h m = (tt, tt)
  max-IfAny processed records (some m) h best = (All_at P processed h best.0, tt)

  pub commitable_records-All :
      (processed records : List Record)
      → All (λ p. p.offset < max_int64) processed
      → All P processed
      → All P records
      → All (IfAny P) (commitable_records processed records)
  unfolding commitable_records
  commitable_records-All processed records small h k =
      elim (Bool-cases (length processed == length records)) [
        | inl same ↦ rw same (All-IfAny records k)
        | inr differ ↦
            rw differ
              (max-IfAny processed records _ h (find_max-IsMaxCommitable processed records small))
      ]

-- A batch that is processed as a whole is handed over as a whole.
pub commitable_records_self :
    (records : List Record) → commitable_records records records ≡ map some records
unfolding commitable_records
commitable_records_self records = rw ((==_iff (length records) (length records)).1 refl)
