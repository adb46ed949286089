-- ===== src/Processors/Processor/Returns.antt =====
-- The processing of a record whose event has a map of properties returns.
use lago_paiement_engine.Prelude.{◌≡◌, refl, ap, ◌∙◌, some, List, String, inl, inr, Bool-cases}
use lago_paiement_engine.Utils.Result.{Result, failure}
use lago_paiement_engine.Utils.Value.{Value}
use lago_paiement_engine.Models.Event.{Event, EnrichedEvent}
use lago_paiement_engine.Kafka.Commit.{Record}
use lago_paiement_engine.Processors.Enricher.{Enricher}
use lago_paiement_engine.Processors.Charges.Nonempty.{HasEvents}
use lago_paiement_engine.Processors.Enrichment.Returns.{IsKept, enrich_event-returns}
use lago_paiement_engine.Processors.Effect.{Outside}
use lago_paiement_engine.Processors.Processor.{
  Processed, Handled, process_first, process_result, with_event, process_enrichment, process_event,
  handle_record,
}
use lago_paiement_engine.Processors.Processor.Outcome.{handled_lem}

module _ (out : Outside) (env : Enricher) where
  result_lem :
      (event : Event) (r : Result (List EnrichedEvent))
      → HasEvents r
      → (p : Processed) × (process_result out event r ≡ some p)
  unfolding process_result process_first
  result_lem event r (inl bad) = rw (process_result, bad) (_, refl)
  result_lem event r (inr (e, es, some')) = elim (Bool-cases (failure r)) [
    | inl bad ↦ rw (process_result, bad) (_, refl)
    | inr good ↦ rw (process_result, good) (_, ap (process_first out event) some')
  ]

  -- For a record whose value can be read as an event with a map of properties, the goroutine of
  -- `ProcessEvents` does not panic, and `processEvent` leaves every field of the event but its
  -- properties as it was.
  pub handle_record-returns :
      (r : Record) (event : Event) (m : List (String × Value))
      → out.unmarshal r.value ≡ inr event
      → event.properties ≡ some m
      → (p : Processed) × (after : Event) × (h : Handled) × (process_event out env event
          ≡ some (p, after))
        × (handle_record out env r ≡ some h)
        × IsKept event after
  unfolding process_event process_enrichment with_event
  handle_record-returns r event m read has =
      let (result, after, e, events, kept) = enrich_event-returns env event m has in
      let (p, q) = result_lem after result events in
      let done = ap (process_enrichment out env) e ∙ ap (with_event out env after) q in
      (p, after, _, done, handled_lem out env r event after p read done, kept)
