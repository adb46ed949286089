-- ===== src/Partition/Batches.antt =====
-- What the commit of one batch acknowledges.
use lago_paiement_engine.Prelude.{
  ℕ, ◌<◌, ◌≤◌, ◌≡◌, true, Option, none, some, List, All, All-Some, Some, All-keep, Bool-cases, inl,
  inr, arith, All-Shuffle, Shuffle-symm, ◌∙◌, ap, Some-map, All-self,
}
use lago_paiement_engine.Kafka.Commit.{Record, max_int64, commitable_records}
use lago_paiement_engine.Kafka.Commit.Safety.{IsBelow, IsDistinct, commitable_records-lt_undone}
use lago_paiement_engine.Kafka.Commit.Handed.{IfAny, commitable_records-All}
use lago_paiement_engine.Processors.Enricher.{Enricher}
use lago_paiement_engine.Processors.Effect.{Outside}
use lago_paiement_engine.Processors.Processor.{is_processed}
use lago_paiement_engine.Processors.Processor.Batch.{IsProcessEvents}
use lago_paiement_engine.Partition.{HasOffset, IsAcknowledged}

acknowledged-lt :
    (end offset : ℕ) (o : Option Record)
    → IfAny (λ r. r.offset < end) o
    → HasOffset offset o
    → offset < end
acknowledged-lt end offset none h e = absurd e
acknowledged-lt end offset (some m) h e = omega arith

IsBelow-offset :
    (r : Record) (offset : ℕ) (o : Option Record)
    → IsBelow r o
    → HasOffset offset o
    → offset < r.offset
IsBelow-offset r offset none h e = absurd e
IsBelow-offset r offset (some m) h e = omega arith

module _ (out : Outside) (env : Enricher) (processed records : List Record)
    (order : IsProcessEvents out env records processed) where
  processed-All : (P : Record → Type 0) → All P records → All P processed
  processed-All P h =
      All-Shuffle P (Shuffle-symm order) (All-keep P (is_processed out env) records h)

  -- Nothing behind the batch is acknowledged.
  pub IsAcknowledged-lt :
      (end offset : ℕ)
      → All (λ r. r.offset < max_int64) records
      → All (λ r. r.offset < end) records
      → IsAcknowledged (commitable_records processed records) offset
      → offset < end
  IsAcknowledged-lt end offset small below h =
      All-Some (commitable_records processed records) (acknowledged-lt end offset)
        (commitable_records-All (λ r. r.offset < end) processed records
          (processed-All (λ r. r.offset < max_int64) small)
          (processed-All (λ r. r.offset < end) below) below)
        h.0

  -- What is acknowledged of the batch was processed.
  pub IsAcknowledged-is_processed :
      (r : Record) (offset : ℕ)
      → IsDistinct records
      → All (λ x. x.offset < max_int64) records
      → IsAcknowledged (commitable_records processed records) offset
      → Some (λ x. x ≡ r) records
      → r.offset ≤ offset
      → is_processed out env r ≡ true
  IsAcknowledged-is_processed r offset distinct small h there le =
      elim (Bool-cases (is_processed out env r)) [
        | inl done ↦ done
        | inr undone ↦
            let lt : offset < r.offset =
              All-Some (commitable_records processed records) (IsBelow-offset r offset)
                (commitable_records-lt_undone (is_processed out env) processed records order r
                  distinct (processed-All (λ x. x.offset < max_int64) small) there undone)
                h.0 in
            absurd (omega arith)
      ]

  -- The record whose offset is acknowledged was processed.
  pub IsAcknowledged-Some :
      (offset : ℕ)
      → IsDistinct records
      → All (λ x. x.offset < max_int64) records
      → IsAcknowledged (commitable_records processed records) offset
      → Some (λ x. is_processed out env x ≡ true) records
  IsAcknowledged-Some offset distinct small h =
      All-Some (commitable_records processed records) of_member
        (commitable_records-All Member processed records
          (processed-All (λ x. x.offset < max_int64) small)
          (processed-All Member (All-self records)) (All-self records))
        h.0
    where
      Member : Record → Type 0
      Member x = Some (λ y. y ≡ x) records

      of_member :
          (o : Option Record)
          → IfAny Member o
          → HasOffset offset o
          → Some (λ x. is_processed out env x ≡ true) records
      of_member none k e = absurd e
      of_member (some m) k e =
          let done = IsAcknowledged-is_processed m offset distinct small h k (omega (arith, e)) in
          Some-map records (λ x (same : x ≡ m). ap (is_processed out env) same ∙ done) k
