-- ===== src/Processors/Enrichment.antt =====
-- The enrichment of an event (events-processor/processors/events_processor/enrichment_service.go,
-- and the helpers on results at the end of processor.go). Where the code can panic the model
-- returns an `Option`, and `none` is the panic.
pub mod Returns
pub mod Panics
use lago_paiement_engine.Prelude.{
  ◌≡◌, Bool, true, false, not, ◌&&◌, ◌⊎◌, inl, inr, Option, none, some, List, [], ◌∷◌, ◌++◌, String,
  concat, str_eq, ◌==◌, if◌then◌else◌, Shuffle,
}
use lago_paiement_engine.Utils.Result.{
  Error, bool_zero, pointer_zero, slice_zero, Zero, Result, failure, success_result,
  failed_result_of, add_error_details, non_retryable, error_code, error_message,
}
use lago_paiement_engine.Utils.Float.{Floats}
use lago_paiement_engine.Utils.Value.{Value, string, sprint_v}
use lago_paiement_engine.Models.BillableMetric.{
  BillableMetric, aggregation_type_count, aggregation_type_string,
}
use lago_paiement_engine.Models.Subscription.{Subscription}
use lago_paiement_engine.Models.FlatFilter.{FlatFilter}
use lago_paiement_engine.Models.Event.{
  Event, EnrichedEvent, Properties, get_property, insert, http_ruby, to_enriched_event,
}
use lago_paiement_engine.Models.Matching.{matching_filter}
use lago_paiement_engine.Models.ApiStore.{
  ApiStore, fetch_billable_metric, fetch_subscription, fetch_flat_filters,
}
use lago_paiement_engine.Processors.Enricher.{
  Charges, Enricher, failed_result, to_multi_events_result, set_properties,
}
use lago_paiement_engine.Processors.Charges.{enrich_with_charge_info}

abbrev describe : EnrichedEvent → BillableMetric → EnrichedEvent
describe ev bm = record ev {
  billable_metric = some bm;
  aggregation_type = aggregation_type_string bm.aggregation_type;
}

unfoldable pub enrich_with_subscription : EnrichedEvent → Subscription → EnrichedEvent
enrich_with_subscription ev sub = record ev {
  subscription = some sub;
  subscription_id = sub.id;
  plan_id = sub.plan_id;
}

module _ (env : Enricher) where
  -- `ev.Properties[bm.FieldName] = *result`: a write to a nil map panics.
  stored : EnrichedEvent → String → String → Properties → Option EnrichedEvent
  stored ev field_name result none = none
  stored ev field_name result (some m) =
      some (set_properties ev (some (insert field_name (string result) m)))

  store_result : EnrichedEvent → String → String → Option EnrichedEvent
  store_result ev field_name result = stored ev field_name result ev.properties

  evaluation : Option EnrichedEvent → Option (Result Bool × EnrichedEvent)
  evaluation none = none
  evaluation (some ev) = some (success_result true, ev)

  evaluated :
      EnrichedEvent → BillableMetric → String → Option String → Option (Result Bool × EnrichedEvent)
  evaluated ev bm json none = some (
    non_retryable (
        failed_result_of (
          some (record {
            message =
                concat ("Failed to evaluate expr: " ∷ bm.expression ∷ " with json: " ∷ json ∷ []);
          }))),
    ev,
  )
  evaluated ev bm json (some result) = evaluation (store_result ev bm.field_name result)

  marshalled :
      EnrichedEvent → BillableMetric → Error ⊎ String → Option (Result Bool × EnrichedEvent)
  marshalled ev bm (inl e) = some (non_retryable (failed_result_of (some e)), ev)
  marshalled ev bm (inr json) = evaluated ev bm json (env.evaluate bm.expression json)

  -- The result, and the event after the call.
  unfoldable pub evaluate_expression :
      EnrichedEvent → BillableMetric → Option (Result Bool × EnrichedEvent)
  unfolding stored store_result evaluation evaluated marshalled
  evaluate_expression ev bm =
      if str_eq bm.expression ""
      then some (success_result false, ev)
      else marshalled ev bm (env.marshal ev)

  -- The end of `enrichWithBillableMetric`, which fills `Value`.
  with_value : EnrichedEvent → BillableMetric → EnrichedEvent
  with_value ev bm =
      if bm.aggregation_type == aggregation_type_count
      then record ev { value = some "1" }
      else record ev {
        value = some (sprint_v env.floats (get_property ev.properties bm.field_name));
      }

  finish_billable_metric :
      BillableMetric → Result Bool × EnrichedEvent → Result (Option EnrichedEvent) × EnrichedEvent
  finish_billable_metric bm (r, ev) =
      if failure r
      then (failed_result r "evaluate_expression" "Error evaluating custom expression", ev)
      else (success_result (some (with_value ev bm)), with_value ev bm)

  after_evaluation :
      BillableMetric
      → Option (Result Bool × EnrichedEvent)
      → Option (Result (Option EnrichedEvent) × EnrichedEvent)
  after_evaluation bm none = none
  after_evaluation bm (some evaluated') = some (finish_billable_metric bm evaluated')

  unfoldable pub enrich_with_billable_metric :
      EnrichedEvent → BillableMetric → Option (Result (Option EnrichedEvent) × EnrichedEvent)
  unfolding with_value finish_billable_metric after_evaluation
  enrich_with_billable_metric event bm =
      let ev = describe event bm in
      if not (str_eq ev.source http_ruby)
      then after_evaluation bm (evaluate_expression ev bm)
      else some (success_result (some (with_value ev bm)), with_value ev bm)

  with_charges :
      Event → Option (Result (List EnrichedEvent)) → Option (Result (List EnrichedEvent) × Event)
  with_charges event none = none
  with_charges event (some r) = some (r, event)

  -- `EnrichEvent` from `enrichWithChargeInfo` on: the result, and the initial event.
  finish_charges : EnrichedEvent → Option (Result (List EnrichedEvent) × Event)
  finish_charges ev = with_charges ev.initial_event (enrich_with_charge_info env ev)

  with_found_subscription :
      EnrichedEvent → Option Subscription → Option (Result (List EnrichedEvent) × Event)
  with_found_subscription ev none = finish_charges ev
  with_found_subscription ev (some sub) = finish_charges (enrich_with_subscription ev sub)

  -- From the result of `FetchSubscription` on. An event without a subscription is kept.
  with_subscription :
      EnrichedEvent → Result (Option Subscription) → Option (Result (List EnrichedEvent) × Event)
  with_subscription ev r =
      if failure r && r.capture
      then some
          (failed_result r "fetch_subscription" "Error fetching subscription", ev.initial_event)
      else with_found_subscription ev r.value

  fetch_and_finish : EnrichedEvent → Option (Result (List EnrichedEvent) × Event)
  fetch_and_finish ev = with_subscription ev (
      fetch_subscription env.api_store ev.initial_event.organization_id
        ev.initial_event.external_subscription_id ev.time)

  after_billable_metric :
      Result (Option EnrichedEvent) × EnrichedEvent → Option (Result (List EnrichedEvent) × Event)
  after_billable_metric (r, ev) =
      if failure r then some (to_multi_events_result r, ev.initial_event) else fetch_and_finish ev

  with_metric :
      Option (Result (Option EnrichedEvent) × EnrichedEvent)
      → Option (Result (List EnrichedEvent) × Event)
  with_metric none = none
  with_metric (some enriched') = after_billable_metric enriched'

  with_found_billable_metric :
      EnrichedEvent → Option BillableMetric → Option (Result (List EnrichedEvent) × Event)
  with_found_billable_metric ev none = fetch_and_finish ev
  with_found_billable_metric ev (some bm) = with_metric (enrich_with_billable_metric ev bm)

  with_billable_metric :
      EnrichedEvent → Result (Option BillableMetric) → Option (Result (List EnrichedEvent) × Event)
  with_billable_metric ev r =
      if failure r
      then some (
        failed_result r "fetch_billable_metric" "Error fetching billable metric",
        ev.initial_event,
      )
      else with_found_billable_metric ev r.value

  -- A nil event behind a successful result would be dereferenced.
  with_enriched : Event → Option EnrichedEvent → Option (Result (List EnrichedEvent) × Event)
  with_enriched event none = none
  with_enriched event (some ev) =
      with_billable_metric ev (fetch_billable_metric env.api_store event.organization_id event.code)

  -- `EnrichEvent` from the result of `ToEnrichedEvent` on.
  after_build : Event → Result (Option EnrichedEvent) → Option (Result (List EnrichedEvent) × Event)
  after_build event r =
      if failure r
      then some (
        failed_result r "build_enriched_event" "Error while converting event to enriched event",
        event,
      )
      else with_enriched event r.value

  -- `EnrichEvent`: the result, and the event, whose map of properties may have been written to.
  unfoldable pub enrich_event : Event → Option (Result (List EnrichedEvent) × Event)
  unfolding with_charges finish_charges with_found_subscription with_subscription fetch_and_finish
      after_billable_metric with_metric with_found_billable_metric with_billable_metric
      with_enriched after_build
  enrich_event event = after_build event (to_enriched_event env.floats event)
