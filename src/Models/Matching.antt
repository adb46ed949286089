-- ===== src/Models/Matching.antt =====
-- Which filter of a charge an event falls under (events-processor/models/flat_filters.go).
pub mod Decides
pub mod Best
use lago_paiement_engine.Prelude.{
  ◌≡◌, ℕ, Bool, true, false, not, ◌&&◌, ◌||◌, Option, none, some, List, [], ◌∷◌, String, str_eq,
  length, ltb, keep, if◌then◌else◌,
}
use lago_paiement_engine.Utils.Result.{Result, success_result}
use lago_paiement_engine.Utils.Float.{Floats}
use lago_paiement_engine.Utils.Value.{Value, nil, sprint_v}
use lago_paiement_engine.Models.FlatFilter.{
  FlatFilter, entries, keys, has_filters, to_default_filter,
}
use lago_paiement_engine.Models.Event.{Properties, get_property, EnrichedEvent}

-- `slices.Contains`
unfoldable pub contains : List String → String → Bool
contains [] s = false
contains (x ∷ xs) s = str_eq x s || contains xs s

abbrev pub is_nil_value : Value → Bool
is_nil_value nil = true
is_nil_value v = false

module _ (fl : Floats) where
  -- One round of the loop of `IsMatchingEvent`: whether it goes on.
  unfoldable pub entry_matches : Properties → String × List String → Bool
  entry_matches properties (key, values) =
      not (is_nil_value (get_property properties key))
      && contains values (sprint_v fl (get_property properties key))

  unfoldable pub all_match : Properties → List (String × List String) → Bool
  all_match properties [] = true
  all_match properties (e ∷ es) = entry_matches properties e && all_match properties es

  unfoldable pub is_matching_event : FlatFilter → EnrichedEvent → Result Bool
  is_matching_event ff event =
      if not (has_filters ff)
      then success_result true
      else success_result (all_match event.properties (entries ff.filters))

  -- `filter.HasFilters() && filter.IsMatchingEvent(event).Value()`
  abbrev pub selects : EnrichedEvent → FlatFilter → Bool
  selects event filter = has_filters filter && (is_matching_event filter event).value

  -- One round of the second loop of `MatchingFilter`.
  better : Option FlatFilter → FlatFilter → FlatFilter
  better none filter = filter
  better (some best) filter =
      if ltb (length (keys best.filters)) (length (keys filter.filters)) then filter else best

  best_filter : Option FlatFilter → List FlatFilter → Option FlatFilter
  best_filter best [] = best
  best_filter best (filter ∷ rest) = best_filter (some (better best filter)) rest

  -- The choice among the filters that match; without any it is the first filter's default bucket.
  best_match : FlatFilter → List FlatFilter → Option FlatFilter
  best_match first [] = some (to_default_filter first)
  best_match first (filter ∷ rest) = best_filter none (filter ∷ rest)

  -- `MatchingFilter`; `none` is the panic of `filters[0]` without filters.
  unfoldable pub matching_filter : List FlatFilter → EnrichedEvent → Option FlatFilter
  unfolding better best_filter best_match
  matching_filter [] event = none
  matching_filter (filter ∷ []) event =
      some (if selects event filter then filter else to_default_filter filter)
  matching_filter (first ∷ second ∷ rest) event =
      best_match first (keep (selects event) (first ∷ second ∷ rest))
