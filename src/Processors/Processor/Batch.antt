-- ===== src/Processors/Processor/Batch.antt =====
-- A batch of records from the consumer to the commit.
use lago_paiement_engine.Prelude.{
  ◌≡◌, ◌<◌, ap, ◌∙◌, false, none, some, List, inr, All, Some, keep, Shuffle,
}
use lago_paiement_engine.Models.Event.{Event}
use lago_paiement_engine.Kafka.Commit.{Record, max_int64, commitable_records}
use lago_paiement_engine.Kafka.Commit.Safety.{IsBelow, IsDistinct, commitable_records-lt_undone}
use lago_paiement_engine.Processors.Enricher.{Enricher}
use lago_paiement_engine.Processors.Effect.{Outside}
use lago_paiement_engine.Processors.Processor.{
  Processed, Handled, process_event, handle_event, handle_done, handle_record, is_processed,
}
use lago_paiement_engine.Processors.Processor.Outcome.{Waits, waiting_unprocessed}

-- What `ProcessEvents` returns for a batch: the records that count as processed, in the order in
-- which their goroutines end.
abbrev pub IsProcessEvents : Outside → Enricher → List Record → List Record → Type 0
IsProcessEvents out env records processed = Shuffle processed (keep (is_processed out env) records)

module _ (out : Outside) (env : Enricher) where
  unprocessed :
      (r : Record) (event event' : Event) (p : Processed)
      → out.unmarshal r.value ≡ inr event
      → process_event out env event ≡ some (p, event')
      → Waits out env event' p.result
      → is_processed out env r ≡ false
  unfolding is_processed handle_record handle_event handle_done
  unprocessed r event event' p read done waits =
      ap (λ h. elim h [ none ↦ false | some h' ↦ Handled.processed h' ])
        (ap (handle_event out env) read ∙ ap (handle_done out env) done)
      ∙ waiting_unprocessed out env p event' waits

  -- In whatever order the goroutines of a batch end: where the offset identifies a record of the
  -- batch and the processed offsets are below the largest `int64`, each record that is handed to
  -- the client for a commit, if it is not nil, lies below every record of the batch whose event
  -- was read and failed with a retryable error less than twelve hours after it was ingested.
  pub commit_keeps_waiting :
      (records processed : List Record) (r : Record) (event event' : Event) (p : Processed)
      → IsProcessEvents out env records processed
      → IsDistinct records
      → All (λ x. x.offset < max_int64) processed
      → Some (λ x. x ≡ r) records
      → out.unmarshal r.value ≡ inr event
      → process_event out env event ≡ some (p, event')
      → Waits out env event' p.result
      → All (IsBelow r) (commitable_records processed records)
  commit_keeps_waiting records processed r event event' p order distinct small there read done
        waits =
      commitable_records-lt_undone (is_processed out env) processed records order r distinct small
        there (unprocessed r event event' p read done waits)
