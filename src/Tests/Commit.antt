-- ===== src/Tests/Commit.antt =====
-- The commits of a batch, at sample records.
use mathlib.Core.List.{Permᴰ}
use lago_paiement_engine.Prelude.{
  ◌≡◌, ◌↔◌, ◌<◌, refl, none, List, [], ◌∷◌, inl, inr, All, Some, arith,
}
use lago_paiement_engine.Kafka.Commit.{
  Record, max_int64, find_max_commitable_record, commitable_records,
}
use lago_paiement_engine.Kafka.Commit.Bounds.{
  IsProcessed, IsSafe, IsMaxCommitable, find_max-IsMaxCommitable,
}
use lago_paiement_engine.Kafka.Commit.Safety.{
  IsSafeCommit, IsDistinct, commitable_records-IsSafeCommit, commitable_records_nil,
}
use lago_paiement_engine.Kafka.Commit.Later.{IsPast, commitable_records-IsPast}
use lago_paiement_engine.Tests.Data.{record_at, batch, done_records, done, done_order}

small : All (λ r. r.offset < max_int64) done_records
small = (omega arith, (omega arith, tt))

distinct : IsDistinct batch
distinct = (
  (λ e. refl, (λ e. absurd (omega (arith, e)), (λ e. absurd (omega (arith, e)), tt))),
  (
    (λ e. absurd (omega (arith, e)), (λ e. refl, (λ e. absurd (omega (arith, e)), tt))),
    ((λ e. absurd (omega (arith, e)), (λ e. absurd (omega (arith, e)), (λ e. refl, tt))), tt),
  ),
)

find_max-IsMaxCommitable_example :
    IsMaxCommitable done_records batch (find_max_commitable_record done_records batch)
find_max-IsMaxCommitable_example = find_max-IsMaxCommitable done_records batch small

commitable_records-IsSafeCommit_example :
    All (IsSafeCommit done_records batch) (commitable_records done_records batch)
commitable_records-IsSafeCommit_example =
    commitable_records-IsSafeCommit done done_records batch done_order small

-- Without the record at 10 nothing that is done lies below the one at 11.
abbrev late_batch : List Record
late_batch = record_at 11 ∷ record_at 12 ∷ []

abbrev late_done : List Record
late_done = record_at 12 ∷ []

out_of_late : IsProcessed late_done (record_at 11) → ⊥
out_of_late (inl h) = absurd (omega (arith, h.1))
out_of_late (inr h) = absurd h

commitable_records_nil_example : commitable_records late_done late_batch ≡ none ∷ []
commitable_records_nil_example =
    commitable_records_nil done late_done late_batch (Permᴰ.cons refl Permᴰ.nil) (record_at 11)
      (inl refl) out_of_late (omega arith, tt) (omega arith, tt)

commitable_records-IsPast_example :
    Some (IsPast (record_at 9)) (commitable_records done_records batch)
    ↔ Some (λ p. IsSafe done_records batch p.offset) done_records
commitable_records-IsPast_example =
    commitable_records-IsPast (record_at 9) done done_records batch done_order
      (omega arith, (omega arith, (omega arith, tt))) small
