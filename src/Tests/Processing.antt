-- ===== src/Tests/Processing.antt =====
-- The processing of a record and of a batch, where the database times out.
use mathlib.Core.List.{Permᴰ}
use lago_paiement_engine.Prelude.{◌≡◌, refl, arith, true, none, some, List, [], ◌∷◌, inl, inr, All}
use lago_paiement_engine.Prelude.Int.{◌-ℤ◌}
use lago_paiement_engine.Utils.Result.{Result}
use lago_paiement_engine.Utils.Time.{since, to_time, to_float64_timestamp}
use lago_paiement_engine.Models.Event.{Event, EnrichedEvent, to_enriched_event}
use lago_paiement_engine.Models.ApiStore.{fetch_billable_metric}
use lago_paiement_engine.Kafka.Commit.{Record, commitable_records}
use lago_paiement_engine.Kafka.Commit.Safety.{IsBelow, IsDistinct}
use lago_paiement_engine.Processors.Charges.Nonempty.{HasEvents}
use lago_paiement_engine.Processors.Enrichment.{enrich_event}
use lago_paiement_engine.Processors.Enrichment.Returns.{IsKept, enrich_event-returns}
use lago_paiement_engine.Processors.Effect.{in_advance}
use lago_paiement_engine.Processors.Producer.{produce_event}
use lago_paiement_engine.Processors.Producer.Delivery.{
  IsDelivery, produce_event-IsDelivery, dead_letters,
}
use lago_paiement_engine.Processors.Processor.{
  Processed, Handled, process_event, handle_record, is_processed,
}
use lago_paiement_engine.Processors.Processor.Outcome.{Waits, Fate, handle_record-Fate}
use lago_paiement_engine.Processors.Processor.Returns.{handle_record-returns}
use lago_paiement_engine.Processors.Processor.Batch.{IsProcessEvents, commit_keeps_waiting}
use lago_paiement_engine.Tests.Data.{
  event_us, enriched_us, properties_us, unreadable_at, enricher, outside, record_at,
}

-- The result that says so.
abbrev timed_out : Processed
timed_out = record {
  result = record {
    value = none;
    err = some (record { message = "timeout" });
    details =
        some
          (record { code = "fetch_billable_metric"; message = "Error fetching billable metric" });
    retryable = true;
    capture = true;
  };
  goroutines = [];
  effects = [];
}

times_out : process_event outside enricher event_us ≡ some (timed_out, event_us)
unfolding process_event enrich_event to_enriched_event to_time to_float64_timestamp
    fetch_billable_metric
times_out = refl

timed_out-Waits : Waits outside enricher event_us timed_out.result
unfolding ◌-ℤ◌
timed_out-Waits = (refl, refl, omega arith)

produce_event-IsDelivery_example :
    IsDelivery outside enriched_us "key" in_advance
      (inr "tx")
      (produce_event outside enriched_us "key" in_advance).0
      (produce_event outside enriched_us "key" in_advance).1
produce_event-IsDelivery_example =
    produce_event-IsDelivery outside enriched_us "key" in_advance (λ e. cc)

enrich_event-returns_example :
    (r : Result (List EnrichedEvent)) × (after : Event) × (enrich_event enricher event_us
      ≡ some (r, after))
    × HasEvents r
    × IsKept event_us after
enrich_event-returns_example = enrich_event-returns enricher event_us properties_us refl

handle_record-returns_example :
    (p : Processed) × (after : Event) × (h : Handled) × (process_event outside enricher event_us
      ≡ some (p, after))
    × (handle_record outside enricher (record_at 10) ≡ some h)
    × IsKept event_us after
handle_record-returns_example =
    handle_record-returns outside enricher (record_at 10) event_us properties_us refl refl

handle_record-Fate_example :
    (h : Handled) × (handle_record outside enricher (record_at 10) ≡ some h)
    × Fate outside enricher event_us timed_out.result h.processed (dead_letters h.afterwards)
handle_record-Fate_example =
    handle_record-Fate outside enricher (record_at 10) event_us event_us timed_out refl times_out

-- Of a record that waits and one that cannot be read, the second counts as processed.
abbrev mixed_batch : List Record
mixed_batch = record_at 11 ∷ unreadable_at 12 ∷ record_at 13 ∷ []

mixed_processed : IsProcessEvents outside enricher mixed_batch (unreadable_at 12 ∷ [])
unfolding is_processed handle_record process_event enrich_event to_enriched_event to_time
    to_float64_timestamp fetch_billable_metric since ◌-ℤ◌
mixed_processed = Permᴰ.cons refl Permᴰ.nil

mixed_batch-IsDistinct : IsDistinct mixed_batch
mixed_batch-IsDistinct = (
  (λ e. refl, (λ e. absurd (omega (arith, e)), (λ e. absurd (omega (arith, e)), tt))),
  (
    (λ e. absurd (omega (arith, e)), (λ e. refl, (λ e. absurd (omega (arith, e)), tt))),
    ((λ e. absurd (omega (arith, e)), (λ e. absurd (omega (arith, e)), (λ e. refl, tt))), tt),
  ),
)

commit_keeps_waiting_example :
    All (IsBelow (record_at 13)) (commitable_records (unreadable_at 12 ∷ []) mixed_batch)
commit_keeps_waiting_example =
    commit_keeps_waiting outside enricher mixed_batch (unreadable_at 12 ∷ []) (record_at 13)
      event_us event_us timed_out mixed_processed mixed_batch-IsDistinct (omega arith, tt)
      (inr (inr (inl refl))) refl times_out timed_out-Waits
