-- ===== src/Tests/Partition.antt =====
-- A partition of two records: one that waits for a retry, and one that cannot be read, whose commit
-- leaves the first one behind.
use mathlib.Core.List.{Permᴰ}
use lago_paiement_engine.Prelude.{refl, sym, subst, arith, List, [], ◌∷◌, inl, All}
use lago_paiement_engine.Prelude.Int.{◌-ℤ◌}
use lago_paiement_engine.Utils.Time.{since, to_time, to_float64_timestamp}
use lago_paiement_engine.Models.Event.{to_enriched_event}
use lago_paiement_engine.Models.ApiStore.{fetch_billable_metric}
use lago_paiement_engine.Kafka.Commit.{Record}
use lago_paiement_engine.Kafka.Commit.Handed.{commitable_records_self}
use lago_paiement_engine.Processors.Enrichment.{enrich_event}
use lago_paiement_engine.Processors.Processor.{process_event, handle_record, is_processed}
use lago_paiement_engine.Processors.Processor.Batch.{IsProcessEvents}
use lago_paiement_engine.Partition.{
  Partition, IsFetch, IsHandled, IsAcknowledged, fails, succeeds, finish, fetch, process_and_commit,
  Steps, stay, next_step, unread,
}
use lago_paiement_engine.Partition.Settled.{IsLeft}
use lago_paiement_engine.Partition.Ends.{EndsIn, committed-Ends}
use lago_paiement_engine.Tests.Data.{unreadable_at, enricher, outside, record_at}

abbrev log : List Record
log = record_at 10 ∷ unreadable_at 11 ∷ []

first_fetch : IsFetch log 0 11 (record_at 10 ∷ [])
first_fetch = record {
  after_start = omega arith;
  below = omega arith;
  complete = (λ le lt. inl refl, (λ le lt. absurd (omega (arith, lt)), tt));
  distinct = ((λ e. refl, tt), tt);
  small = omega arith;
}

second_fetch : IsFetch log 11 12 (unreadable_at 11 ∷ [])
second_fetch = record {
  after_start = omega arith;
  below = omega arith;
  complete = (λ le lt. absurd (omega (arith, le)), (λ le lt. inl refl, tt));
  distinct = ((λ e. refl, tt), tt);
  small = omega arith;
}

unreadable-IsHandled : All (IsHandled outside enricher) (unreadable_at 11 ∷ [])
unfolding handle_record
unreadable-IsHandled = ((_, refl), tt)

waiting-IsHandled : All (IsHandled outside enricher) (record_at 10 ∷ [])
unfolding handle_record process_event enrich_event to_enriched_event to_time to_float64_timestamp
    fetch_billable_metric since ◌-ℤ◌
waiting-IsHandled = ((_, refl), tt)

unreadable_processed :
    IsProcessEvents outside enricher (unreadable_at 11 ∷ []) (unreadable_at 11 ∷ [])
unfolding is_processed handle_record
unreadable_processed = Permᴰ.cons refl Permᴰ.nil

waiting_processed : IsProcessEvents outside enricher (record_at 10 ∷ []) []
unfolding is_processed handle_record process_event enrich_event to_enriched_event to_time
    to_float64_timestamp fetch_billable_metric since ◌-ℤ◌
waiting_processed = Permᴰ.nil

abbrev after_first : Partition
after_first =
    finish (record { start = 0; records = record_at 10 ∷ [] }) outside enricher [] 0
      (record unread { position = 11 })

abbrev after_second : Partition
after_second =
    finish (record { start = 11; records = unreadable_at 11 ∷ [] }) outside enricher
      (unreadable_at 11 ∷ []) 12 (record after_first { position = 12 })

run : Steps log unread after_second
run =
    next_step
      (next_step
        (next_step (next_step stay (fetch 11 (record_at 10 ∷ []) refl (omega arith) first_fetch)) (
          process_and_commit (record { start = 0; records = record_at 10 ∷ [] }) outside enricher []
            0 refl waiting-IsHandled waiting_processed (fails refl)))
        (fetch 12 (unreadable_at 11 ∷ []) refl (omega arith) second_fetch))
      (process_and_commit (record { start = 11; records = unreadable_at 11 ∷ [] }) outside enricher
        (unreadable_at 11 ∷ []) 12 refl unreadable-IsHandled unreadable_processed
        (succeeds 11 refl (
          subst (λ l. IsAcknowledged l 11) (sym (commitable_records_self (unreadable_at 11 ∷ [])))
            (inl refl, (omega arith, tt)))))

-- The first record waits, and is behind the committed offset all the same.
committed-Ends_example : IsLeft (EndsIn (record_at 10)) (record_at 10) after_second.finished
committed-Ends_example = committed-Ends log (record_at 10) (inl refl) run (omega arith)
