-- ===== src/Tests/Sending.antt =====
-- An event that is expanded for two charges.
use lago_paiement_engine.Prelude.{
  ◌≡◌, inl, inr, refl, Option, none, some, Shuffle, List, [], ◌∷◌, All,
}
use lago_paiement_engine.Utils.Result.{Error, Result, success_result, failure}
use lago_paiement_engine.Utils.Value.{decimal_text, sprint_v}
use lago_paiement_engine.Prelude.Int.{◌+ℤ◌, ◌*ℤ◌}
use lago_paiement_engine.Utils.Time.{to_time, to_float64_timestamp, unix, truncate_millisecond}
use lago_paiement_engine.Models.BillableMetric.{aggregation_type_string}
use lago_paiement_engine.Models.FlatFilter.{FlatFilter, has_filters, to_default_filter}
use lago_paiement_engine.Models.Event.{EnrichedEvent, to_enriched_event, lookup}
use lago_paiement_engine.Models.ApiStore.{
  fetch_billable_metric, fetch_subscription, fetch_flat_filters,
}
use lago_paiement_engine.Models.Matching.{
  contains, entry_matches, all_match, is_matching_event, matching_filter,
}
use lago_paiement_engine.Processors.Charges.{
  index_by_charge, charge_event, enrich_with_charge_info, enrich_with_pricing_group_keys, expand,
}
use lago_paiement_engine.Processors.Enrichment.{
  evaluate_expression, enrich_with_billable_metric, enrich_with_subscription, enrich_event,
}
use lago_paiement_engine.Processors.Processor.{Processed, process_event}
use lago_paiement_engine.Processors.Effect.{Effect}
use lago_paiement_engine.Processors.Interleaving.{flatten, in_turn}
use lago_paiement_engine.Processors.Producer.Delivery.{deliveries}
use lago_paiement_engine.Processors.Processor.Sent.{
  goroutines_of, messages, is_due_in_advance, process_event-sent,
}
use lago_paiement_engine.Processors.Charges.Order.{
  ranging, SameEvents, enrich_with_charge_info-SameEvents,
}
use lago_paiement_engine.Processors.Charges.First.{
  beginning_with, beginning_with-Shuffle, enrich_with_charge_info-first,
}
use lago_paiement_engine.Models.Stores.{RedisCommand, FlagStore}
use lago_paiement_engine.Processors.Calls.{commands_of, IsAnswered}
use lago_paiement_engine.Processors.Producer.Commands.{AsksNothing}
use lago_paiement_engine.Processors.Processor.Refreshed.{Refreshed, process_event-IsRefreshed}
use lago_paiement_engine.Tests.Data.{
  subscription_1, event_us, enriched_us, filter_us, filter_other, count_metric, full_enricher,
  outside,
}

abbrev charged : FlatFilter → EnrichedEvent
charged filter = record enriched_us {
  billable_metric = some count_metric;
  flat_filter = some filter;
  charge_id = some filter.charge_id;
  charge_updated_at = some filter.charge_updated_at;
  charge_filter_id = filter.charge_filter_id;
  charge_filter_updated_at = filter.charge_filter_updated_at;
}

-- The filter on the region matches; that on the kind does not, and its charge's default does.
abbrev default_other : FlatFilter
default_other = record filter_other {
  charge_filter_id = none;
  charge_filter_updated_at = none;
  filters = none;
}

abbrev others : List EnrichedEvent
others = charged default_other ∷ []

enriches :
    enrich_event full_enricher event_us
    ≡ some (success_result (charged filter_us ∷ others), event_us)
unfolding enrich_event to_enriched_event to_time to_float64_timestamp unix truncate_millisecond
    fetch_billable_metric fetch_subscription fetch_flat_filters aggregation_type_string
    evaluate_expression enrich_with_billable_metric enrich_with_subscription enrich_with_charge_info
    expand index_by_charge charge_event enrich_with_pricing_group_keys matching_filter
    is_matching_event has_filters to_default_filter entry_matches all_match contains lookup sprint_v
    decimal_text ◌+ℤ◌ ◌*ℤ◌
enriches = refl

-- The effects of the goroutines, one after the other.
abbrev one_by_one : List Effect
one_by_one = flatten (goroutines_of (process_event outside full_enricher event_us))

process_event-sent_example :
    (p : Processed) × (process_event outside full_enricher event_us ≡ some (p, event_us))
    × Shuffle (deliveries one_by_one) (
        messages outside
          (λ ev. ev.transaction_id)
          (λ e. refl)
          (is_due_in_advance outside
            (λ ev. ev.transaction_id)
            (λ e. refl)
            event_us
            (charged filter_us)
            (charged filter_us ∷ others))
          (charged filter_us)
          (charged filter_us ∷ others))
process_event-sent_example =
    process_event-sent outside (λ ev. ev.transaction_id) (λ e. refl) full_enricher event_us event_us
      (success_result (charged filter_us ∷ others)) (charged filter_us) others one_by_one enriches
      refl refl (in_turn (goroutines_of (process_event outside full_enricher event_us)))

-- A store of flags in a Redis that refuses nothing.
abbrev flags : FlagStore
flags = record { name = "subscription_refreshed" }

abbrev accepts : RedisCommand → Option Error
accepts c = none

accepts-IsAnswered : IsAnswered accepts flags outside
accepts-IsAnswered = record { flagged = λ value. refl; expired = λ key. refl }

process_event-IsRefreshed_example :
    (p : Processed) × (process_event outside full_enricher event_us ≡ some (p, event_us))
    × Refreshed accepts flags outside accepts-IsAnswered event_us
        (charged filter_us)
        (charged filter_us ∷ others)
        (failure p.result)
        (commands_of accepts flags p.effects)
    × All (AsksNothing accepts flags outside) p.goroutines
process_event-IsRefreshed_example =
    process_event-IsRefreshed accepts flags outside accepts-IsAnswered full_enricher event_us
      event_us (success_result (charged filter_us ∷ others)) (charged filter_us) others enriches
      refl refl

abbrev metered : EnrichedEvent
metered = record enriched_us { billable_metric = some count_metric }

expands :
    enrich_with_charge_info full_enricher metered
    ≡ some (success_result (charged filter_us ∷ others))
unfolding fetch_flat_filters enrich_with_charge_info expand index_by_charge charge_event
    enrich_with_pricing_group_keys matching_filter is_matching_event has_filters to_default_filter
    entry_matches all_match contains lookup sprint_v decimal_text
expands = refl

enrich_with_charge_info-SameEvents_example :
    (r' : Result (List EnrichedEvent)) × (enrich_with_charge_info
        (ranging (beginning_with "charge_2") (beginning_with-Shuffle "charge_2") full_enricher)
        metered
      ≡ some r')
    × SameEvents (success_result (charged filter_us ∷ others)) r'
enrich_with_charge_info-SameEvents_example =
    enrich_with_charge_info-SameEvents full_enricher (beginning_with "charge_2")
      (beginning_with-Shuffle "charge_2") metered (success_result (charged filter_us ∷ others))
      expands

stored_filters :
    fetch_flat_filters full_enricher.api_store "plan" "calls"
    ≡ success_result (filter_us ∷ filter_other ∷ [])
unfolding fetch_flat_filters
stored_filters = refl

enrich_with_charge_info-first_example :
    (e : EnrichedEvent) × (es : List EnrichedEvent) × (enrich_with_charge_info
        (ranging
          (beginning_with filter_other.charge_id)
          (beginning_with-Shuffle filter_other.charge_id)
          full_enricher)
        metered
      ≡ some (success_result (e ∷ es)))
    × (e.charge_id ≡ some filter_other.charge_id)
enrich_with_charge_info-first_example =
    enrich_with_charge_info-first full_enricher metered filter_other.charge_id subscription_1
      filter_us (filter_other ∷ []) refl stored_filters (inr (inl refl))
