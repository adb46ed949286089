-- ===== src/Models/Event/Json.antt =====
-- The JSON of events (the tags of the structs in events-processor/models/event.go): what
-- `json.Unmarshal` of a record's value does with the fields.
pub mod Encoding
pub mod Typed
pub mod Reading
pub mod RoundTrip
use lago_paiement_engine.Prelude.{
  ◌⊎◌, inl, inr, Bool, true, false, Option, none, some, List, [], ◌∷◌, ◌++◌, String, Bytes, codes,
  str_eq, if◌then◌else◌,
}
use lago_paiement_engine.Utils.Result.{Error}
use lago_paiement_engine.Utils.Float.{Floats}
use lago_paiement_engine.Utils.Value.{Value, nil}
use lago_paiement_engine.Utils.Time.{Time, zero_time}
use lago_paiement_engine.Utils.Time.Custom.{is_zero, text_of_time, unmarshal_json}
use lago_paiement_engine.Utils.Json.{
  Json, null, boolean, number, text, array, members, Members, no_members, member, Codec, put_absent,
  fields_of, save, decode_any, decode_members, members_of, sequence, encode_any, encode_fields,
}
use lago_paiement_engine.Models.Event.{Properties, SourceMetadata, Event, FailedEvent}

pub data EventField : Type 0 where
  organization_id external_subscription_id transaction_id code properties : EventField
  precise_total_amount_cents source timestamp source_metadata ingested_at : EventField

-- The tags.
abbrev pub name_of : EventField → String
name_of organization_id = "organization_id"
name_of external_subscription_id = "external_subscription_id"
name_of transaction_id = "transaction_id"
name_of code = "code"
name_of properties = "properties"
name_of precise_total_amount_cents = "precise_total_amount_cents"
name_of source = "source"
name_of timestamp = "timestamp"
name_of source_metadata = "source_metadata"
name_of ingested_at = "ingested_at"

abbrev event_fields : List EventField
event_fields =
    organization_id ∷ external_subscription_id ∷ transaction_id ∷ code ∷ properties
    ∷ precise_total_amount_cents ∷ source ∷ timestamp ∷ source_metadata ∷ ingested_at ∷ []

abbrev find_by : (String → Bool) → List EventField → Option EventField
find_by test [] = none
find_by test (f ∷ fs) = if test (name_of f) then some f else find_by test fs

abbrev or_folded : Option EventField → Option EventField → Option EventField
or_folded none folded = folded
or_folded (some f) folded = some f

abbrev zero_event : Event
zero_event = record {
  organization_id = "";
  external_subscription_id = "";
  transaction_id = "";
  code = "";
  properties = none;
  precise_total_amount_cents = "";
  source = "";
  timestamp = nil;
  source_metadata = none;
  ingested_at = zero_time;
}

-- What is decoded is an error that ends the decoding, or a value with the error that is saved.
abbrev Decoded : Type 0
Decoded = Error ⊎ (Event × Option Error)

abbrev and_then : Decoded → (Event → Option Error → Decoded) → Decoded
and_then (inl e) f = inl e
and_then (inr (ev, saved)) f = f ev saved

-- At the end of `Unmarshal` the saved error is returned.
abbrev finished : Decoded → Error ⊎ Event
finished (inl e) = inl e
finished (inr (ev, none)) = inr ev
finished (inr (ev, some e)) = inl e

-- A map that stands in the field keeps the entries that are not read again.
abbrev pub merge : List (String × Value) → List (String × Value) → List (String × Value)
merge [] new = new
merge ((k, v) ∷ old) new = put_absent k v (merge old new)

abbrev pub entries_or_none : Properties → List (String × Value)
entries_or_none none = []
entries_or_none (some m) = m

abbrev metadata_or_zero : Option SourceMetadata → SourceMetadata
metadata_or_zero none = record { api_post_process = false }
metadata_or_zero (some m) = m

module _ (fl : Floats) (c : Codec) where
  -- A name that is not a tag is compared without regard to case.
  abbrev find_field : String → Option EventField
  find_field k =
      or_folded (find_by (λ n. str_eq n k) event_fields)
        (find_by (λ n. str_eq (c.fold n) (c.fold k)) event_fields)

  abbrev decode_string : Json → String → Option Error → String × Option Error
  decode_string null old saved = (old, saved)
  decode_string (text raw) old saved = (c.unquote raw, saved)
  decode_string j old saved = (old, save saved (c.type_error "string" j))

  abbrev decode_bool : Json → Bool → Option Error → Bool × Option Error
  decode_bool null old saved = (old, saved)
  decode_bool (boolean b) old saved = (b, saved)
  decode_bool j old saved = (old, save saved (c.type_error "bool" j))

  abbrev decode_properties : Json → Properties → Option Error → Properties × Option Error
  decode_properties null old saved = (none, saved)
  decode_properties (members ms) old saved =
      let (new, saved') = decode_members c ms saved in
      (some (merge (entries_or_none old) new), saved')
  decode_properties j old saved = (old, save saved (c.type_error "map[string]interface {}" j))

  abbrev is_api_post_processed : String → Bool
  is_api_post_processed k =
      if str_eq "api_post_processed" k
      then true
      else str_eq (c.fold "api_post_processed") (c.fold k)

  abbrev decode_metadata_members : Members → Bool → Option Error → Bool × Option Error
  decode_metadata_members no_members b saved = (b, saved)
  decode_metadata_members (member k j ms) b saved =
      let (b', saved') = if is_api_post_processed k then decode_bool j b saved else (b, saved) in
      decode_metadata_members ms b' saved'

  abbrev decode_metadata :
      Json → Option SourceMetadata → Option Error → Option SourceMetadata × Option Error
  decode_metadata null old saved = (none, saved)
  decode_metadata (members ms) old saved =
      let (b, saved') = decode_metadata_members ms (metadata_or_zero old).api_post_process saved in
      (some (record { api_post_process = b }), saved')
  decode_metadata j old saved =
      (some (metadata_or_zero old), save saved (c.type_error "models.SourceMetadata" j))

  -- `UnmarshalJSON` of a `CustomTime` is called with the text of the value.
  abbrev decode_time : Json → Time → Time × Option Error
  decode_time null old = unmarshal_json fl c.string_of c.parse_error old (codes "null")
  decode_time (boolean true) old = unmarshal_json fl c.string_of c.parse_error old (codes "true")
  decode_time (boolean false) old = unmarshal_json fl c.string_of c.parse_error old (codes "false")
  decode_time (number digits) old = unmarshal_json fl c.string_of c.parse_error old digits
  decode_time (text raw) old = unmarshal_json fl c.string_of c.parse_error old (34 ∷ raw ++ 34 ∷ [])
  decode_time j old = (old, some (c.not_a_time j))

  -- An error of `UnmarshalJSON` ends the decoding.
  abbrev with_time : Event → Option Error → Time × Option Error → Decoded
  with_time ev saved (t, none) = inr (record ev { ingested_at = t }, saved)
  with_time ev saved (t, some e) = inl e

  abbrev assign : EventField → Json → Event → Option Error → Decoded
  assign organization_id j ev saved =
      let (s, saved') = decode_string j ev.organization_id saved in
      inr (record ev { organization_id = s }, saved')
  assign external_subscription_id j ev saved =
      let (s, saved') = decode_string j ev.external_subscription_id saved in
      inr (record ev { external_subscription_id = s }, saved')
  assign transaction_id j ev saved =
      let (s, saved') = decode_string j ev.transaction_id saved in
      inr (record ev { transaction_id = s }, saved')
  assign code j ev saved =
      let (s, saved') = decode_string j ev.code saved in inr (record ev { code = s }, saved')
  assign properties j ev saved =
      let (m, saved') = decode_properties j ev.properties saved in
      inr (record ev { properties = m }, saved')
  assign precise_total_amount_cents j ev saved =
      let (s, saved') = decode_string j ev.precise_total_amount_cents saved in
      inr (record ev { precise_total_amount_cents = s }, saved')
  assign source j ev saved =
      let (s, saved') = decode_string j ev.source saved in inr (record ev { source = s }, saved')
  assign timestamp j ev saved =
      let (v, saved') = decode_any c j saved in inr (record ev { timestamp = v }, saved')
  assign source_metadata j ev saved =
      let (m, saved') = decode_metadata j ev.source_metadata saved in
      inr (record ev { source_metadata = m }, saved')
  assign ingested_at j ev saved = with_time ev saved (decode_time j ev.ingested_at)

  -- A member that is not a field is skipped.
  abbrev assign_found : Option EventField → Json → Event → Option Error → Decoded
  assign_found none j ev saved = inr (ev, saved)
  assign_found (some f) j ev saved = assign f j ev saved

  unfoldable pub decode_event_members : Members → Event → Option Error → Decoded
  decode_event_members no_members ev saved = inr (ev, saved)
  decode_event_members (member k j ms) ev saved =
      and_then (assign_found (find_field k) j ev saved)
        (λ ev' saved'. decode_event_members ms ev' saved')

  -- `json.Unmarshal(record.Value, &event)` of a new event.
  unfoldable pub decode_event : Json → Error ⊎ Event
  unfolding decode_event_members
  decode_event null = inr zero_event
  decode_event (members ms) = finished (decode_event_members ms zero_event none)
  decode_event j = inl (c.type_error "models.Event" j)
