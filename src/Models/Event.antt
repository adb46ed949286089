-- ===== src/Models/Event.antt =====
-- Events (events-processor/models/event.go).
pub mod Build
pub mod Json
use lago_paiement_engine.Prelude.{
  ◌≡◌, Bool, true, false, not, ◌||◌, Option, none, some, List, [], ◌∷◌, String, str_eq,
  if◌then◌else◌,
}
use lago_paiement_engine.Utils.Result.{
  pointer_zero, Result, failure, success_result, failed_result_of, non_retryable,
}
use lago_paiement_engine.Utils.Float.{Float64, Floats}
use lago_paiement_engine.Utils.Value.{Value, nil}
use lago_paiement_engine.Utils.Time.{Time, to_time, to_float64_timestamp}
use lago_paiement_engine.Models.BillableMetric.{BillableMetric}
use lago_paiement_engine.Models.Subscription.{Subscription}
use lago_paiement_engine.Models.FlatFilter.{FlatFilter}

abbrev pub http_ruby : String
http_ruby = "http_ruby"

-- A `map[string]any`, by its entries; `none` is a nil map.
abbrev pub Properties : Type 0
Properties = Option (List (String × Value))

-- `m[key]`, nil where the key is missing.
unfoldable pub lookup : String → List (String × Value) → Value
lookup key [] = nil
lookup key ((k, v) ∷ m) = if str_eq k key then v else lookup key m

abbrev pub get_property : Properties → String → Value
get_property none key = nil
get_property (some m) key = lookup key m

-- `m[key]` for a `map[string]string`, empty where the key is missing.
unfoldable pub lookup_text : String → List (String × String) → String
lookup_text key [] = ""
lookup_text key ((k, v) ∷ m) = if str_eq k key then v else lookup_text key m

-- `m[key] = v`
module _ {V : Type 0} where
  unfoldable pub insert : String → V → List (String × V) → List (String × V)
  insert key v [] = (key, v) ∷ []
  insert key v ((k, w) ∷ m) = if str_eq k key then (k, v) ∷ m else (k, w) ∷ insert key v m

pub record SourceMetadata : Type 0 where
  pub api_post_process : Bool

pub record Event : Type 0 where
  pub organization_id : String
  pub external_subscription_id : String
  pub transaction_id : String
  pub code : String
  pub properties : Properties
  pub precise_total_amount_cents : String
  pub source : String
  pub timestamp : Value
  pub source_metadata : Option SourceMetadata
  pub ingested_at : Time

-- The map of properties is shared with the event behind `initial_event`: what writes to it writes
-- to both fields.
pub record EnrichedEvent : Type 0 where
  pub initial_event : Event
  pub billable_metric : Option BillableMetric
  pub subscription : Option Subscription
  pub flat_filter : Option FlatFilter
  pub organization_id : String
  pub external_subscription_id : String
  pub subscription_id : String
  pub plan_id : String
  pub transaction_id : String
  pub code : String
  pub aggregation_type : String
  pub properties : Properties
  pub precise_total_amount_cents : String
  pub source : String
  pub value : Option String
  pub timestamp : Float64
  pub timestamp_str : String
  pub time : Time
  pub charge_id : Option String
  pub charge_updated_at : Option Time
  pub charge_filter_id : Option String
  pub charge_filter_updated_at : Option Time
  pub grouped_by : List (String × String)

pub record FailedEvent : Type 0 where
  pub event : Event
  pub initial_error_message : String
  pub error_message : String
  pub error_code : String
  pub failed_at : Time

module _ (fl : Floats) where
  -- What `ToEnrichedEvent` copies from the event, with its two readings of the timestamp.
  enriched : Event → Float64 → Time → EnrichedEvent
  enriched ev timestamp time = record {
    initial_event = ev;
    billable_metric = none;
    subscription = none;
    flat_filter = none;
    organization_id = ev.organization_id;
    external_subscription_id = ev.external_subscription_id;
    subscription_id = "";
    plan_id = "";
    transaction_id = ev.transaction_id;
    code = ev.code;
    aggregation_type = "";
    properties = ev.properties;
    precise_total_amount_cents = ev.precise_total_amount_cents;
    source = ev.source;
    value = none;
    timestamp = timestamp;
    timestamp_str = fl.format_f timestamp;
    time = time;
    charge_id = none;
    charge_updated_at = none;
    charge_filter_id = none;
    charge_filter_updated_at = none;
    grouped_by = [];
  }

  unfoldable pub to_enriched_event : Event → Result (Option EnrichedEvent)
  unfolding enriched
  to_enriched_event ev =
      let timestamp_result = to_float64_timestamp fl ev.timestamp in
      let time_result = to_time fl ev.timestamp in
      if failure timestamp_result
      then non_retryable (failed_result_of timestamp_result.err)
      else if failure time_result
      then non_retryable (failed_result_of time_result.err)
      else success_result (some (enriched ev timestamp_result.value time_result.value))

abbrev not_api_post_process : Option SourceMetadata → Bool
not_api_post_process none = true
not_api_post_process (some m) = not m.api_post_process

pub not_api_post_processed : Event → Bool
not_api_post_processed ev =
    if not (str_eq ev.source http_ruby) then true else not_api_post_process ev.source_metadata
