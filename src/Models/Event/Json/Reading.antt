-- ===== src/Models/Event/Json/Reading.antt =====
-- Reading one member of an event that `json.Marshal` has written.
use lago_paiement_engine.Prelude.{
  ◌≡◌, refl, sym, ap, ◌∙◌, subst, inl, inr, Option, none, some, List, [], ◌∷◌, ◌++◌, String,
  Bool-cases, if◌then◌else◌, if_true, if_false,
}
use lago_paiement_engine.Utils.Result.{Error}
use lago_paiement_engine.Utils.Float.{Floats}
use lago_paiement_engine.Utils.Value.{Value}
use lago_paiement_engine.Utils.Time.{Time, zero_time}
use lago_paiement_engine.Utils.Time.Custom.{is_zero, text_of_time, marshal_json, unmarshal_json}
use lago_paiement_engine.Utils.Json.{
  Json, null, text, members, Members, no_members, member, Codec, fields_of, decode_any, members_of,
}
use lago_paiement_engine.Utils.Json.Keys.{IsSorted}
use lago_paiement_engine.Utils.Json.RoundTrip.{
  IsCodec, HaveCanonical-HaveRead, HaveCanonical-fields_of, entries-fields_of,
}
use lago_paiement_engine.Models.Event.{Properties, SourceMetadata, Event}
use lago_paiement_engine.Models.Event.Json.{
  Decoded, and_then, decode_time, decode_properties, decode_metadata, with_time,
  decode_event_members,
}
use lago_paiement_engine.Models.Event.Json.Encoding.{encode_properties, encode_metadata}
use lago_paiement_engine.Models.Event.Json.Typed.{AreCanonicalProperties}

module _ (fl : Floats) (c : Codec) (laws : IsCodec c) where
  -- The text of a time as JSON, which is the one that `MarshalJSON` gives.
  abbrev pub time_of : Time → Json
  time_of t = if is_zero t then null else text (text_of_time t)

  pub decode_time-time_of :
      (t : Time)
      → decode_time fl c (time_of t) zero_time
        ≡ unmarshal_json fl c.string_of c.parse_error zero_time (marshal_json t)
  unfolding marshal_json
  decode_time-time_of t = elim (Bool-cases (is_zero t)) [
    | inl zero ↦
        ap (λ j. decode_time fl c j zero_time)
          (if_true (is_zero t) null (text (text_of_time t)) zero)
        ∙ sym (
            ap (unmarshal_json fl c.string_of c.parse_error zero_time) (
              if_true (is_zero t) (110 ∷ 117 ∷ 108 ∷ 108 ∷ []) (34 ∷ text_of_time t ++ 34 ∷ [])
                zero))
    | inr other ↦
        ap (λ j. decode_time fl c j zero_time)
          (if_false (is_zero t) null (text (text_of_time t)) other)
        ∙ sym (
            ap (unmarshal_json fl c.string_of c.parse_error zero_time) (
              if_false (is_zero t) (110 ∷ 117 ∷ 108 ∷ 108 ∷ []) (34 ∷ text_of_time t ++ 34 ∷ [])
                other))
  ]

  pub properties-IsRead :
      (p : Properties)
      → AreCanonicalProperties c p
      → (j : Json) × (encode_properties c p ≡ inr j)
        × (decode_properties fl c j none none ≡ (p, none))
  properties-IsRead none h = (null, refl, refl)
  properties-IsRead (some m) h =
      let (ms, e, r) =
        HaveCanonical-HaveRead c laws (fields_of m) (HaveCanonical-fields_of c m h.0)
          (subst IsSorted (sym (entries-fields_of c m)) h.1) in
      (
        members ms,
        ap members_of e,
        ap (λ (x : List (String × Value) × Option Error). (some x.0, x.1)) (r none)
            ∙ ap (λ l. (some l, none)) (entries-fields_of c m),
      )

  pub metadata_read :
      (m : Option SourceMetadata) → decode_metadata fl c (encode_metadata c m) none none ≡ (m, none)
  metadata_read none = refl
  metadata_read (some m) = refl

  -- The members that are left, into the event as it is read so far.
  abbrev pub Rest : Members → Event → Decoded
  Rest ms e = decode_event_members fl c ms e none

  pub read_organization_id :
      (s : String) (ms : Members) (e : Event)
      → Rest (member "organization_id" (text (c.quote s)) ms) e
        ≡ Rest ms (record e { organization_id = s })
  unfolding decode_event_members
  read_organization_id s ms e = ap (λ t. Rest ms (record e { organization_id = t })) (laws.quoted s)

  pub read_external_subscription_id :
      (s : String) (ms : Members) (e : Event)
      → Rest (member "external_subscription_id" (text (c.quote s)) ms) e
        ≡ Rest ms (record e { external_subscription_id = s })
  unfolding decode_event_members
  read_external_subscription_id s ms e =
      ap (λ t. Rest ms (record e { external_subscription_id = t })) (laws.quoted s)

  pub read_transaction_id :
      (s : String) (ms : Members) (e : Event)
      → Rest (member "transaction_id" (text (c.quote s)) ms) e
        ≡ Rest ms (record e { transaction_id = s })
  unfolding decode_event_members
  read_transaction_id s ms e = ap (λ t. Rest ms (record e { transaction_id = t })) (laws.quoted s)

  pub read_code :
      (s : String) (ms : Members) (e : Event)
      → Rest (member "code" (text (c.quote s)) ms) e ≡ Rest ms (record e { code = s })
  unfolding decode_event_members
  read_code s ms e = ap (λ t. Rest ms (record e { code = t })) (laws.quoted s)

  pub read_precise_total_amount_cents :
      (s : String) (ms : Members) (e : Event)
      → Rest (member "precise_total_amount_cents" (text (c.quote s)) ms) e
        ≡ Rest ms (record e { precise_total_amount_cents = s })
  unfolding decode_event_members
  read_precise_total_amount_cents s ms e =
      ap (λ t. Rest ms (record e { precise_total_amount_cents = t })) (laws.quoted s)

  pub read_source :
      (s : String) (ms : Members) (e : Event)
      → Rest (member "source" (text (c.quote s)) ms) e ≡ Rest ms (record e { source = s })
  unfolding decode_event_members
  read_source s ms e = ap (λ t. Rest ms (record e { source = t })) (laws.quoted s)

  pub read_properties :
      (p : Properties) (j : Json) (ms : Members) (e : Event)
      → decode_properties fl c j e.properties none ≡ (p, none)
      → Rest (member "properties" j ms) e ≡ Rest ms (record e { properties = p })
  unfolding decode_event_members
  read_properties p j ms e h =
      ap
        (λ (x : Properties × Option Error).
          decode_event_members fl c ms (record e { properties = x.0 }) x.1)
        h

  pub read_timestamp :
      (v : Value) (j : Json) (ms : Members) (e : Event)
      → decode_any c j none ≡ (v, none)
      → Rest (member "timestamp" j ms) e ≡ Rest ms (record e { timestamp = v })
  unfolding decode_event_members
  read_timestamp v j ms e h =
      ap
        (λ (x : Value × Option Error).
          decode_event_members fl c ms (record e { timestamp = x.0 }) x.1)
        h

  pub read_source_metadata :
      (m : Option SourceMetadata) (j : Json) (ms : Members) (e : Event)
      → decode_metadata fl c j e.source_metadata none ≡ (m, none)
      → Rest (member "source_metadata" j ms) e ≡ Rest ms (record e { source_metadata = m })
  unfolding decode_event_members
  read_source_metadata m j ms e h =
      ap
        (λ (x : Option SourceMetadata × Option Error).
          decode_event_members fl c ms (record e { source_metadata = x.0 }) x.1)
        h

  pub read_ingested_at :
      (t : Time) (j : Json) (ms : Members) (e : Event)
      → decode_time fl c j e.ingested_at ≡ (t, none)
      → Rest (member "ingested_at" j ms) e ≡ Rest ms (record e { ingested_at = t })
  unfolding decode_event_members
  read_ingested_at t j ms e h =
      ap
        (λ r.
          and_then (with_time fl c e none r)
            (λ ev' saved'. decode_event_members fl c ms ev' saved'))
        h

  pub read_end : (e : Event) → Rest no_members e ≡ inr (e, none)
  unfolding decode_event_members
  read_end e = refl
