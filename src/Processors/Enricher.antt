-- ===== src/Processors/Enricher.antt =====
-- What the enrichment of events calls, and its results
-- (events-processor/processors/events_processor/enrichment_service.go and the helpers on results
-- at the end of processor.go).
use lago_paiement_engine.Prelude.{◌⊎◌, Option, List, String, Shuffle}
use lago_paiement_engine.Utils.Result.{
  Error, bool_zero, pointer_zero, slice_zero, Zero, Result, failed_result_of, add_error_details,
  error_code, error_message,
}
use lago_paiement_engine.Utils.Float.{Floats}
use lago_paiement_engine.Models.FlatFilter.{FlatFilter}
use lago_paiement_engine.Models.Event.{EnrichedEvent, Properties}
use lago_paiement_engine.Models.ApiStore.{ApiStore}

-- The filters of each charge, as the map `charges` that the enrichment builds.
abbrev pub Charges : Type 0
Charges = List (String × List FlatFilter)

-- What the enrichment calls: the floats, the JSON encoding of an enriched event, the expression
-- library, the database, and the order in which Go iterates over the map of charges.
pub record Enricher : Type 0 where
  pub floats : Floats
  pub marshal : EnrichedEvent → Error ⊎ String
  pub evaluate : String → String → Option String
  pub api_store : ApiStore
  pub range : Charges → Charges
  -- An iteration visits each entry once.
  pub range-Shuffle : (m : Charges) → Shuffle (range m) m

-- `failedResult` and `failedMultiEventsResult`: a new failure with the error and the flags of `r`.
module _ {A B : Type 0} where
  abbrev pub failed_result : ⦃z : Zero B⦄ → Result A → String → String → Result B
  failed_result r code message = record (add_error_details code message (failed_result_of r.err)) {
    retryable = r.retryable;
    capture = r.capture;
  }

  -- `toMultiEventsResult`
  abbrev pub to_multi_events_result : ⦃z : Zero B⦄ → Result A → Result B
  to_multi_events_result r = failed_result r (error_code r) (error_message r)

-- A write to the map of properties, which the event and its enriched copy share.
abbrev pub set_properties : EnrichedEvent → Properties → EnrichedEvent
set_properties ev p = record ev {
  properties = p;
  initial_event = record ev.initial_event { properties = p };
}
