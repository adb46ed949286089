-- ===== src/Models/Event/Json/Encoding.antt =====
-- What `json.Marshal` writes of events (the tags in events-processor/models/event.go).
use lago_paiement_engine.Prelude.{
  ◌⊎◌, inr, Option, none, some, List, [], ◌∷◌, ◌++◌, String, str_eq, if◌then◌else◌,
}
use lago_paiement_engine.Utils.Result.{Error}
use lago_paiement_engine.Utils.Time.{Time}
use lago_paiement_engine.Utils.Time.Custom.{is_zero, text_of_time}
use lago_paiement_engine.Utils.Json.{
  Json, null, boolean, text, members, no_members, member, Codec, fields_of, members_of, sequence,
  encode_any, encode_fields,
}
use lago_paiement_engine.Models.Event.{Properties, SourceMetadata, Event, FailedEvent}

module _ (c : Codec) where
  abbrev pub encode_properties : Properties → Error ⊎ Json
  encode_properties none = inr null
  encode_properties (some m) = members_of (sequence (encode_fields c (fields_of m)))

  abbrev pub encode_metadata : Option SourceMetadata → Json
  encode_metadata none = null
  encode_metadata (some m) =
      members (member "api_post_processed" (boolean m.api_post_process) no_members)

  -- `omitempty`
  abbrev pub encode_source : String → List (String × (Error ⊎ Json))
  encode_source s = if str_eq s "" then [] else ("source", inr (text (c.quote s))) ∷ []

  -- `json.Marshal` of an event.
  unfoldable pub encode_event : Event → Error ⊎ Json
  encode_event ev = members_of (
      sequence (
        ("organization_id", inr (text (c.quote ev.organization_id)))
          ∷ ("external_subscription_id", inr (text (c.quote ev.external_subscription_id)))
          ∷ ("transaction_id", inr (text (c.quote ev.transaction_id)))
          ∷ ("code", inr (text (c.quote ev.code)))
          ∷ ("properties", encode_properties ev.properties)
          ∷ ("precise_total_amount_cents", inr (text (c.quote ev.precise_total_amount_cents)))
          ∷ encode_source ev.source
        ++ ("timestamp", encode_any c ev.timestamp)
          ∷ ("source_metadata", inr (encode_metadata ev.source_metadata))
          ∷ (
            "ingested_at",
            inr (if is_zero ev.ingested_at then null else text (text_of_time ev.ingested_at)),
          )
          ∷ []))

  -- `json.Marshal` of a dead letter; the JSON of a `time.Time` is a parameter.
  unfoldable pub encode_failed_event : (Time → Error ⊎ Json) → FailedEvent → Error ⊎ Json
  encode_failed_event time_json failed = members_of (
      sequence (
        ("event", encode_event failed.event)
        ∷ ("initial_error_message", inr (text (c.quote failed.initial_error_message)))
        ∷ ("error_message", inr (text (c.quote failed.error_message)))
        ∷ ("error_code", inr (text (c.quote failed.error_code)))
        ∷ ("failed_at", time_json failed.failed_at)
        ∷ []))
