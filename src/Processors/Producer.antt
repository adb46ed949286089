-- ===== src/Processors/Producer.antt =====
-- The producers of messages (events-processor/processors/events_processor/event_producer_service.go).
pub mod Delivery
pub mod Commands
use lago_paiement_engine.Prelude.{
  Bool, true, false, Option, none, some, List, [], ◌∷◌, ◌++◌, String, concat, str_eq, if◌then◌else◌,
  ◌⊎◌, inl, inr, map,
}
use lago_paiement_engine.Utils.Result.{
  Error, bool_zero, Result, failed_result_of, error_msg, error_code, error_message,
}
use lago_paiement_engine.Utils.Value.{sort}
use lago_paiement_engine.Models.Event.{Event, EnrichedEvent, FailedEvent, lookup_text}
use lago_paiement_engine.Processors.Effect.{
  Channel, enriched, enriched_expanded, in_advance, dead_letter, ProducerMessage, Effect, produce,
  capture_error, capture_error_result, Outside,
}

-- The key of the messages about an event.
abbrev pub event_key : EnrichedEvent → String
event_key event =
    concat (event.organization_id ∷ "-" ∷ event.external_subscription_id ∷ "-" ∷ event.code ∷ [])

abbrev pub text_of : Option String → String
text_of none = ""
text_of (some s) = s

-- The loop over the sorted group keys.
group_text : List (String × String) → String → List String → String
group_text grouped acc [] = acc
group_text grouped acc (key ∷ keys) =
    group_text grouped
      (concat
        (acc ∷ (if str_eq acc "" then "" else "|") ∷ key ∷ "/" ∷ lookup_text key grouped ∷ []))
      keys

pub expanded_key : EnrichedEvent → String
unfolding group_text
expanded_key event = concat (
    event.organization_id
    ∷ "-"
    ∷ event.external_subscription_id
    ∷ "-"
    ∷ event.code
    ∷ "-"
    ∷ text_of event.charge_id
    ∷ "-"
    ∷ text_of event.charge_filter_id
    ∷ "-"
    ∷ group_text event.grouped_by "" (sort (map (λ e. e.0) event.grouped_by))
    ∷ [])

module _ (out : Outside) where
  -- The message, and what is captured where its JSON cannot be made.
  dead_letter_value : Error ⊎ String → Option String × List Effect
  dead_letter_value (inl e) = (none, capture_error (some e) ∷ [])
  dead_letter_value (inr json) = (some json, [])

  abbrev failed_event {ℓ} : {A : Type ℓ} → Event → Result A → FailedEvent
  failed_event event r = record {
    event = event;
    initial_error_message = error_msg r;
    error_message = error_message r;
    error_code = error_code r;
    failed_at = out.now;
  }

  abbrev dead_letter_message : Option String → ProducerMessage
  dead_letter_message value = record { key = none; value = value }

  pub produce_to_dead_letter_queue {ℓ} : {A : Type ℓ} → Event → Result A → List Effect
  unfolding dead_letter_value
  produce_to_dead_letter_queue event r =
      let (value, captured) = dead_letter_value (out.marshal_failed (failed_event event r)) in
      captured
      ++ (produce dead_letter (dead_letter_message value)
          ∷ (if out.pushes dead_letter (dead_letter_message value)
              then []
              else capture_error_result r.err (error_code r) (error_message r) event ∷ []))

  -- `utils.FailedBoolResult(fmt.Errorf("Failed to push to %s topic", producer.GetTopic()))`
  abbrev push_failure : Channel → Result Bool
  push_failure channel = failed_result_of (
      some (record { message = concat ("Failed to push to " ∷ out.topic channel ∷ " topic" ∷ []) }))

  abbrev pub keyed_message : String → String → ProducerMessage
  keyed_message key json = record { key = some key; value = some json }

  produce_json : EnrichedEvent → String → Channel → Error ⊎ String → List Effect × Option Error
  produce_json event key channel (inl e) = ([], some e)
  produce_json event key channel (inr json) = (
    produce channel (keyed_message key json)
        ∷ (if out.pushes channel (keyed_message key json)
            then []
            else produce_to_dead_letter_queue event.initial_event (push_failure channel)),
    none,
  )

  -- `produceEvent`: what it does, and the error that it returns.
  pub produce_event : EnrichedEvent → String → Channel → List Effect × Option Error
  produce_event event key channel = produce_json event key channel (out.marshal_enriched event)

  captured : List Effect × Option Error → List Effect
  captured (effects, none) = effects
  captured (effects, some e) = effects ++ (capture_error (some e) ∷ [])

  pub produce_enriched_event : EnrichedEvent → List Effect
  unfolding captured
  produce_enriched_event event = captured (produce_event event (event_key event) enriched)

  pub produce_enriched_expanded_event : EnrichedEvent → List Effect
  unfolding captured
  produce_enriched_expanded_event event =
      captured (produce_event event (expanded_key event) enriched_expanded)

  pub produce_charged_in_advance_event : EnrichedEvent → List Effect
  unfolding captured
  produce_charged_in_advance_event event =
      captured (produce_event event (event_key event) in_advance)
