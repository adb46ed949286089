-- ===== src/Processors/Charges.antt =====
-- The expansion of an event into one for each charge (`enrichWithChargeInfo` and
-- `enrichWithPricingGroupKeys` of events-processor/processors/events_processor/enrichment_service.go).
-- `none` is a panic.
pub mod Grouping
pub mod Pricing
pub mod Expansion
pub mod Nonempty
pub mod Order
pub mod First
use lago_paiement_engine.Prelude.{
  ◌≡◌, Bool, true, false, not, ◌&&◌, ◌⊎◌, inl, inr, Option, none, some, List, [], ◌∷◌, ◌++◌, String,
  concat, str_eq, ◌==◌, if◌then◌else◌, Shuffle,
}
use lago_paiement_engine.Utils.Result.{
  Error, bool_zero, pointer_zero, slice_zero, Zero, Result, failure, success_result,
  failed_result_of, add_error_details, non_retryable, error_code, error_message,
}
use lago_paiement_engine.Utils.Float.{Floats}
use lago_paiement_engine.Utils.Value.{Value, string, sprint_v}
use lago_paiement_engine.Models.BillableMetric.{
  BillableMetric, aggregation_type_count, aggregation_type_string,
}
use lago_paiement_engine.Models.Subscription.{Subscription}
use lago_paiement_engine.Models.FlatFilter.{FlatFilter}
use lago_paiement_engine.Models.Event.{
  Event, EnrichedEvent, Properties, get_property, insert, http_ruby, to_enriched_event,
}
use lago_paiement_engine.Models.Matching.{matching_filter}
use lago_paiement_engine.Models.ApiStore.{
  ApiStore, fetch_billable_metric, fetch_subscription, fetch_flat_filters,
}
use lago_paiement_engine.Processors.Enricher.{
  Charges, Enricher, failed_result, to_multi_events_result, set_properties,
}

-- The loop that indexes the filters by their charge.
add_to_charge : FlatFilter → Charges → Charges
add_to_charge filter [] = (filter.charge_id, filter ∷ []) ∷ []
add_to_charge filter ((c, fs) ∷ charges) =
    if str_eq c filter.charge_id
    then (c, fs ++ filter ∷ []) ∷ charges
    else (c, fs) ∷ add_to_charge filter charges

unfoldable pub index_by_charge : Charges → List FlatFilter → Charges
unfolding add_to_charge
index_by_charge charges [] = charges
index_by_charge charges (filter ∷ filters) = index_by_charge (add_to_charge filter charges) filters

module _ (env : Enricher) where
  group_by : Properties → List (String × String) → List String → List (String × String)
  group_by properties grouped [] = grouped
  group_by properties grouped (key ∷ keys) =
      group_by properties (insert key (sprint_v env.floats (get_property properties key)) grouped)
        keys

  grouped_by_keys : EnrichedEvent → Option (List String) → EnrichedEvent
  grouped_by_keys ev none = ev
  grouped_by_keys ev (some keys) = record ev {
    grouped_by = group_by ev.properties ev.grouped_by keys;
  }

  unfoldable pub enrich_with_pricing_group_keys : EnrichedEvent → EnrichedEvent
  unfolding group_by grouped_by_keys
  enrich_with_pricing_group_keys ev = elim (ev.flat_filter) [
    | none ↦ ev
    | some filter ↦ grouped_by_keys ev filter.pricing_group_keys
  ]

  -- The copy of the event for one charge.
  unfoldable pub charge_event : EnrichedEvent → FlatFilter → EnrichedEvent
  charge_event ev filter = enrich_with_pricing_group_keys (record ev {
    grouped_by = [];
    flat_filter = some filter;
    charge_id = some filter.charge_id;
    charge_updated_at = some filter.charge_updated_at;
    charge_filter_id = filter.charge_filter_id;
    charge_filter_updated_at = filter.charge_filter_updated_at;
  })

  -- `none` as the filter is a dereference of nil.
  add_charge_event :
      EnrichedEvent → Option FlatFilter → Option (List EnrichedEvent) → Option (List EnrichedEvent)
  add_charge_event ev none rest = none
  add_charge_event ev (some filter) none = none
  add_charge_event ev (some filter) (some evs) = some (charge_event ev filter ∷ evs)

  pub charge_events : EnrichedEvent → Charges → Option (List EnrichedEvent)
  charge_events ev [] = some []
  charge_events ev ((c, filters) ∷ charges) =
      add_charge_event ev (matching_filter env.floats filters ev) (charge_events ev charges)

  unfoldable pub expand : EnrichedEvent → List FlatFilter → Option (Result (List EnrichedEvent))
  unfolding add_charge_event charge_events
  expand ev [] = some (success_result (ev ∷ []))
  expand ev (filter ∷ filters) =
      elim (charge_events ev (env.range (index_by_charge [] (filter ∷ filters)))) [
        | none ↦ none
        | some evs ↦ some (success_result evs)
      ]

  charge_info : EnrichedEvent → Result (List FlatFilter) → Option (Result (List EnrichedEvent))
  charge_info ev filters_result =
      if failure filters_result
      then some (failed_result_of filters_result.err)
      else expand ev filters_result.value

  charges_of : EnrichedEvent → Option Subscription → Option (Result (List EnrichedEvent))
  charges_of ev none = some (success_result (ev ∷ []))
  charges_of ev (some sub) = charge_info ev (fetch_flat_filters env.api_store ev.plan_id ev.code)

  unfoldable pub enrich_with_charge_info : EnrichedEvent → Option (Result (List EnrichedEvent))
  unfolding add_to_charge index_by_charge charge_events expand charge_info charges_of
  enrich_with_charge_info ev = charges_of ev ev.subscription
