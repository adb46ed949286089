-- ===== src/Processors/Processor/Enriched.antt =====
-- `processEvent` where the enrichment succeeds.
use lago_paiement_engine.Prelude.{◌≡◌, ap, ◌∙◌, false, some, List, ◌∷◌}
use lago_paiement_engine.Utils.Result.{Result, failure}
use lago_paiement_engine.Models.Event.{Event, EnrichedEvent}
use lago_paiement_engine.Processors.Enricher.{Enricher}
use lago_paiement_engine.Processors.Enrichment.{enrich_event}
use lago_paiement_engine.Processors.Effect.{Outside}
use lago_paiement_engine.Processors.Processor.{
  process_enriched, process_first, process_result, with_event, process_enrichment, process_event,
}

module _ (out : Outside) (env : Enricher) where
  process_result-enriched :
      (event : Event) (r : Result (List EnrichedEvent)) (ev : EnrichedEvent)
      (evs : List EnrichedEvent)
      → failure r ≡ false
      → r.value ≡ ev ∷ evs
      → process_result out event r ≡ some (process_enriched out event ev (ev ∷ evs))
  unfolding process_result process_first
  process_result-enriched event r ev evs good e =
      rw (process_result, good) (ap (process_first out event) e)

  pub process_event-enriched :
      (event after : Event) (r : Result (List EnrichedEvent)) (ev : EnrichedEvent)
      (evs : List EnrichedEvent)
      → enrich_event env event ≡ some (r, after)
      → failure r ≡ false
      → r.value ≡ ev ∷ evs
      → process_event out env event ≡ some (process_enriched out after ev (ev ∷ evs), after)
  unfolding process_event process_enrichment with_event
  process_event-enriched event after r ev evs e good some' =
      ap (process_enrichment out env) e
      ∙ ap (with_event out env after) (process_result-enriched after r ev evs good some')
