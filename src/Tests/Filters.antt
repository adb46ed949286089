-- ===== src/Tests/Filters.antt =====
-- The matching of filters and the expansion of events, at a sample event.
use lago_paiement_engine.Prelude.{◌≡◌, ◌↔◌, refl, none, some, true, List, [], ◌∷◌, All}
use lago_paiement_engine.Utils.Result.{success_result}
use lago_paiement_engine.Models.FlatFilter.{FlatFilter, entries}
use lago_paiement_engine.Models.Event.{EnrichedEvent}
use lago_paiement_engine.Models.ApiStore.{fetch_flat_filters}
use lago_paiement_engine.Models.Matching.{is_matching_event, matching_filter}
use lago_paiement_engine.Models.Matching.Decides.{EntryMatches, is_matching_event_iff}
use lago_paiement_engine.Models.Matching.Best.{IsBestMatch, matching_filter-IsBestMatch}
use lago_paiement_engine.Processors.Charges.{enrich_with_charge_info}
use lago_paiement_engine.Processors.Charges.Expansion.{
  IsExpansion, enrich_with_charge_info-IsExpansion,
}
use lago_paiement_engine.Tests.Data.{
  whole_floats, enriched_us, filter_eu, filter_us, filter_other, subscription_1, slow_store,
  enricher,
}

is_matching_event_iff_example :
    ((is_matching_event whole_floats filter_us enriched_us).err ≡ none)
    × (((is_matching_event whole_floats filter_us enriched_us).value ≡ true)
        ↔ All (EntryMatches whole_floats enriched_us.properties) (entries filter_us.filters))
is_matching_event_iff_example = is_matching_event_iff whole_floats enriched_us filter_us

matching_filter-IsBestMatch_example :
    (r : FlatFilter) × (matching_filter whole_floats (filter_eu ∷ filter_us ∷ []) enriched_us
      ≡ some r)
    × IsBestMatch whole_floats enriched_us filter_eu (filter_eu ∷ filter_us ∷ []) r
matching_filter-IsBestMatch_example =
    matching_filter-IsBestMatch whole_floats enriched_us filter_eu (filter_us ∷ [])

found_filters :
    fetch_flat_filters slow_store "plan" "calls"
    ≡ success_result (filter_eu ∷ filter_other ∷ filter_us ∷ [])
unfolding fetch_flat_filters
found_filters = refl

enrich_with_charge_info-IsExpansion_example :
    (es : List EnrichedEvent) × (enrich_with_charge_info enricher enriched_us
      ≡ some (success_result es))
    × IsExpansion enricher enriched_us (filter_eu ∷ filter_other ∷ filter_us ∷ []) es
enrich_with_charge_info-IsExpansion_example =
    enrich_with_charge_info-IsExpansion enricher enriched_us subscription_1 filter_eu
      (filter_other ∷ filter_us ∷ []) refl found_filters
