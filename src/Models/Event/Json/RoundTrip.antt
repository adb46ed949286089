-- ===== src/Models/Event/Json/RoundTrip.antt =====
-- Reading what is written of an event.
use lago_paiement_engine.Prelude.{
  ◌≡◌, ◌<◌, refl, sym, ap, ◌∙◌, subst, ◌⊎◌, inl, inr, none, List, [], ◌∷◌, ◌++◌, String, str_eq,
  eq_iff, Bool-cases, if◌then◌else◌, if_true, if_false, ℕ,
}
use lago_paiement_engine.Utils.Result.{Error}
use lago_paiement_engine.Utils.Float.{Floats}
use lago_paiement_engine.Utils.Time.{Time, zero_time}
use lago_paiement_engine.Utils.Time.Custom.{marshal_json, unmarshal_json}
use lago_paiement_engine.Utils.Time.Custom.RoundTrip.{whole_second, unmarshal_json-marshal_json}
use lago_paiement_engine.Utils.Json.{
  Json, text, members, Members, no_members, member, Codec, decode_any, members_of, member_of,
  sequence, encode_any,
}
use lago_paiement_engine.Utils.Json.RoundTrip.{IsCodec, IsCanonical-IsRead}
use lago_paiement_engine.Models.Event.{Event, FailedEvent}
use lago_paiement_engine.Models.Event.Json.{zero_event, finished, decode_properties, decode_event}
use lago_paiement_engine.Models.Event.Json.Encoding.{
  encode_properties, encode_metadata, encode_source, encode_event, encode_failed_event,
}
use lago_paiement_engine.Models.Event.Json.Reading.{
  decode_time-time_of, properties-IsRead, metadata_read, read_organization_id,
  read_external_subscription_id, read_transaction_id, read_code, read_precise_total_amount_cents,
  read_source, read_properties, read_timestamp, read_source_metadata, read_ingested_at, time_of,
  Rest, read_end,
}
use lago_paiement_engine.Models.Event.Json.Typed.{IsTyped, decode_event-IsTyped}

module _ (fl : Floats) (c : Codec) (laws : IsCodec c) where
  -- What is written behind the source.
  abbrev last_members : Json → Event → Members
  last_members jt ev = member "timestamp" jt (
      member "source_metadata" (encode_metadata c ev.source_metadata)
        (member "ingested_at" (time_of fl c laws ev.ingested_at) no_members))

  abbrev source_member : String → Members → Members
  source_member s ms = if str_eq s "" then ms else member "source" (text (c.quote s)) ms

  abbrev written : Json → Json → Event → Members
  written jp jt ev = member "organization_id" (text (c.quote ev.organization_id)) (
      member "external_subscription_id" (text (c.quote ev.external_subscription_id)) (
        member "transaction_id" (text (c.quote ev.transaction_id)) (
          member "code" (text (c.quote ev.code)) (
            member "properties" jp (
              member "precise_total_amount_cents" (text (c.quote ev.precise_total_amount_cents))
                (source_member ev.source (last_members jt ev)))))))

  read_source_member :
      (s : String) (ms : Members) (e : Event)
      → e.source ≡ ""
      → Rest fl c laws (source_member s ms) e ≡ Rest fl c laws ms (record e { source = s })
  read_source_member s ms e start = elim (Bool-cases (str_eq s "")) [
    | inl empty ↦
        ap (λ x. Rest fl c laws x e)
          (if_true (str_eq s "") ms (member "source" (text (c.quote s)) ms) empty)
        ∙ ap (λ t. Rest fl c laws ms (record e { source = t }))
            (start ∙ sym ((eq_iff s "").0 empty))
    | inr some_source ↦
        ap (λ x. Rest fl c laws x e)
          (if_false (str_eq s "") ms (member "source" (text (c.quote s)) ms) some_source)
        ∙ read_source fl c laws s ms e
  ]

  decode_written :
      (jp jt : Json) (ev : Event) (s : ℕ)
      → decode_properties fl c jp none none ≡ (ev.properties, none)
      → decode_any c jt none ≡ (ev.timestamp, none)
      → ev.ingested_at ≡ whole_second s
      → s < 315564336000
      → Rest fl c laws (written jp jt ev) zero_event ≡ inr (ev, none)
  decode_written jp jt ev s hp ht hi hs =
      read_organization_id fl c laws _ _ _
      ∙ read_external_subscription_id fl c laws _ _ _
      ∙ read_transaction_id fl c laws _ _ _
      ∙ read_code fl c laws _ _ _
      ∙ read_properties fl c laws _ _ _ _ hp
      ∙ read_precise_total_amount_cents fl c laws _ _ _
      ∙ read_source_member _ _ _ refl
      ∙ read_timestamp fl c laws _ _ _ _ ht
      ∙ read_source_metadata fl c laws _ _ _ _ (metadata_read fl c laws ev.source_metadata)
      ∙ read_ingested_at fl c laws ev.ingested_at _ _ _ (
          decode_time-time_of fl c laws ev.ingested_at
          ∙ subst
              (λ t.
                unmarshal_json fl c.string_of c.parse_error zero_time (marshal_json t) ≡ (t, none))
              (sym hi) (unmarshal_json-marshal_json fl c.string_of c.parse_error s hs))
      ∙ read_end fl c laws _

  abbrev last_entries : Event → List (String × (Error ⊎ Json))
  last_entries ev =
      ("timestamp", encode_any c ev.timestamp)
      ∷ ("source_metadata", inr (encode_metadata c ev.source_metadata))
      ∷ ("ingested_at", inr (time_of fl c laws ev.ingested_at))
      ∷ []

  sequence-encode_source :
      (s : String) (rest : List (String × (Error ⊎ Json))) (ms : Members)
      → sequence rest ≡ inr ms
      → sequence (encode_source c s ++ rest) ≡ inr (source_member s ms)
  sequence-encode_source s rest ms h = elim (Bool-cases (str_eq s "")) [
    | inl empty ↦ rw empty h
    | inr some_source ↦ rw some_source (ap (member_of "source" (inr (text (c.quote s)))) h)
  ]

  -- The fields up to the source, by the JSON of the properties and the members behind.
  abbrev first_members : Event → Error ⊎ Json → Error ⊎ Members → Error ⊎ Members
  first_members ev p rest = member_of "organization_id" (inr (text (c.quote ev.organization_id))) (
      member_of "external_subscription_id" (inr (text (c.quote ev.external_subscription_id))) (
        member_of "transaction_id" (inr (text (c.quote ev.transaction_id))) (
          member_of "code" (inr (text (c.quote ev.code))) (
            member_of "properties" p (
              member_of "precise_total_amount_cents"
                (inr (text (c.quote ev.precise_total_amount_cents))) rest)))))

  encode_event-written :
      (ev : Event) (jp jt : Json)
      → encode_properties c ev.properties ≡ inr jp
      → encode_any c ev.timestamp ≡ inr jt
      → encode_event c ev ≡ inr (members (written jp jt ev))
  unfolding encode_event
  encode_event-written ev jp jt hp ht =
      ap (λ x. members_of (first_members ev (encode_properties c ev.properties) x))
        (sequence-encode_source ev.source (last_entries ev) (last_members jt ev) (
          ap
            (λ x. member_of "timestamp" x (
              sequence (
                ("source_metadata", inr (encode_metadata c ev.source_metadata))
                ∷ ("ingested_at", inr (time_of fl c laws ev.ingested_at))
                ∷ [])))
            ht))
      ∙ ap
          (λ p.
            members_of (first_members ev p (inr (source_member ev.source (last_members jt ev)))))
          hp

  abbrev failed_members : FailedEvent → Error ⊎ Json → Error ⊎ Members
  failed_members failed time = sequence (
      ("initial_error_message", inr (text (c.quote failed.initial_error_message)))
      ∷ ("error_message", inr (text (c.quote failed.error_message)))
      ∷ ("error_code", inr (text (c.quote failed.error_code)))
      ∷ ("failed_at", time)
      ∷ [])

  encoded_event :
      (ev : Event) (s : ℕ)
      → IsTyped c ev
      → ev.ingested_at ≡ whole_second s
      → s < 315564336000
      → (j : Json) × (encode_event c ev ≡ inr j) × (decode_event fl c j ≡ inr ev)
  unfolding decode_event
  encoded_event ev s typed at_second small =
      let (jp, ep, rp) = properties-IsRead fl c laws ev.properties typed.typed_properties in
      let (jt, et, rt) = IsCanonical-IsRead c laws ev.timestamp typed.typed_timestamp in
      (
        members (written jp jt ev),
        encode_event-written ev jp jt ep et,
        ap finished (decode_written jp jt ev s rp (rt none) at_second small),
      )

  -- Where the package keeps its promises: if a dead letter is about an event that was read from
  -- JSON without an error and was ingested at a whole second from the first of March of the year 0
  -- to the end of the year 9999, and the time of the failure can be encoded, then the dead letter
  -- is encoded without an error, and from what it has as its event the same event is read again.
  pub encode_failed_event-decode_event :
      (time_json : Time → Error ⊎ Json) (failed : FailedEvent) (j tj : Json) (s : ℕ)
      → decode_event fl c j ≡ inr failed.event
      → failed.event.ingested_at ≡ whole_second s
      → s < 315564336000
      → time_json failed.failed_at ≡ inr tj
      → (j' : Json) × (ms : Members) × (encode_failed_event c time_json failed
          ≡ inr (members (member "event" j' ms)))
        × (decode_event fl c j' ≡ inr failed.event)
  unfolding encode_failed_event
  encode_failed_event-decode_event time_json failed j tj s read at_second small time =
      let (j', e, r) =
        encoded_event failed.event s (decode_event-IsTyped c fl laws j failed.event read) at_second
          small in
      (
        j',
        member "initial_error_message" (text (c.quote failed.initial_error_message)) (
            member "error_message" (text (c.quote failed.error_message)) (
              member "error_code" (text (c.quote failed.error_code))
                (member "failed_at" tj no_members))),
        ap
              (λ x.
                members_of
                  (member_of "event" x (failed_members failed (time_json failed.failed_at))))
              e
            ∙ ap (λ x. members_of (member_of "event" (inr j') (failed_members failed x))) time,
        r,
      )
