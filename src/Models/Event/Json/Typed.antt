-- ===== src/Models/Event/Json/Typed.antt =====
-- Which values an event has that was read from JSON.
use lago_paiement_engine.Prelude.{
  ◌≡◌, refl, sym, subst, inl, inr, Option, none, some, List, [], ◌∷◌, String, All,
}
use lago_paiement_engine.Utils.Result.{Error}
use lago_paiement_engine.Utils.Float.{Floats}
use lago_paiement_engine.Utils.Value.{Value}
use lago_paiement_engine.Utils.Time.{Time}
use lago_paiement_engine.Utils.Json.{
  Json, null, boolean, number, text, array, members, Members, no_members, member, Codec,
  decode_members,
}
use lago_paiement_engine.Utils.Json.Keys.{IsSorted, IsSorted-put_absent, All-put_absent}
use lago_paiement_engine.Utils.Json.RoundTrip.{
  IsCodec, IsCanonical, HasCanonical, decode_any-IsCanonical, decode_members-IsSorted,
}
use lago_paiement_engine.Models.Event.{Properties, Event}
use lago_paiement_engine.Models.Event.Json.{
  EventField, organization_id, external_subscription_id, transaction_id, code, properties,
  precise_total_amount_cents, source, timestamp, source_metadata, ingested_at, zero_event, Decoded,
  and_then, finished, merge, entries_or_none, find_field, decode_properties, decode_time, with_time,
  assign, assign_found, decode_event_members, decode_event,
}

module _ (c : Codec) where
  -- A map whose values JSON can carry, in the order of its keys.
  abbrev pub IsCanonicalMap : List (String × Value) → Type 0
  IsCanonicalMap m = All (HasCanonical c) m × IsSorted m

  abbrev pub AreCanonicalProperties : Properties → Type 0
  AreCanonicalProperties none = Unit
  AreCanonicalProperties (some m) = IsCanonicalMap m

  -- The properties and the timestamp are values that JSON can carry: no integer is among them.
  pub record IsTyped (ev : Event) : Type 0 where
    pub typed_properties : AreCanonicalProperties ev.properties
    pub typed_timestamp : IsCanonical c ev.timestamp

  abbrev DecodesTyped : Decoded → Type 0
  DecodesTyped (inl e) = Unit
  DecodesTyped (inr (ev, saved)) = IsTyped ev

  merge-IsCanonicalMap :
      (old new : List (String × Value))
      → IsCanonicalMap old
      → IsCanonicalMap new
      → IsCanonicalMap (merge old new)
  merge-IsCanonicalMap [] new h k = k
  merge-IsCanonicalMap ((j, v) ∷ old) new h k =
      let (all, sorted) = merge-IsCanonicalMap old new (h.0.1, h.1.1) k in
      (
        All-put_absent (HasCanonical c) j v (merge old new) h.0.0 all,
        IsSorted-put_absent j v (merge old new) sorted,
      )

  IsCanonicalMap-entries :
      (m : Properties) → AreCanonicalProperties m → IsCanonicalMap (entries_or_none m)
  IsCanonicalMap-entries none h = (tt, tt)
  IsCanonicalMap-entries (some m) h = h

  module _ (fl : Floats) (laws : IsCodec c) where
    AreCanonical-decode :
        (j : Json) (old : Properties) (saved : Option Error)
        → AreCanonicalProperties old
        → AreCanonicalProperties (decode_properties fl c j old saved).0
    AreCanonical-decode null old saved h = tt
    AreCanonical-decode (boolean b) old saved h = h
    AreCanonical-decode (number b) old saved h = h
    AreCanonical-decode (text raw) old saved h = h
    AreCanonical-decode (array es) old saved h = h
    AreCanonical-decode (members ms) old saved h =
        merge-IsCanonicalMap (entries_or_none old) (decode_members c ms saved).0
          (IsCanonicalMap-entries old h) (decode_members-IsSorted c laws ms saved)

    with_time-IsTyped :
        (ev : Event) (saved : Option Error) (r : Time × Option Error)
        → IsTyped ev
        → DecodesTyped (with_time fl c ev saved r)
    with_time-IsTyped ev saved (t, none) h = record {
      typed_properties = h.typed_properties;
      typed_timestamp = h.typed_timestamp;
    }
    with_time-IsTyped ev saved (t, some e) h = tt

    abbrev kept :
        {ev ev' : Event}
        → ev'.properties ≡ ev.properties
        → ev'.timestamp ≡ ev.timestamp
        → IsTyped ev
        → IsTyped ev'
    kept p t h = record {
      typed_properties = subst AreCanonicalProperties (sym p) h.typed_properties;
      typed_timestamp = subst (IsCanonical c) (sym t) h.typed_timestamp;
    }

    assign-IsTyped :
        (f : EventField) (j : Json) (ev : Event) (saved : Option Error)
        → IsTyped ev
        → DecodesTyped (assign fl c f j ev saved)
    assign-IsTyped organization_id j ev saved h = kept refl refl h
    assign-IsTyped external_subscription_id j ev saved h = kept refl refl h
    assign-IsTyped transaction_id j ev saved h = kept refl refl h
    assign-IsTyped code j ev saved h = kept refl refl h
    assign-IsTyped properties j ev saved h = record {
      typed_properties = AreCanonical-decode j ev.properties saved h.typed_properties;
      typed_timestamp = h.typed_timestamp;
    }
    assign-IsTyped precise_total_amount_cents j ev saved h = kept refl refl h
    assign-IsTyped source j ev saved h = kept refl refl h
    assign-IsTyped timestamp j ev saved h = record {
      typed_properties = h.typed_properties;
      typed_timestamp = decode_any-IsCanonical c laws j saved;
    }
    assign-IsTyped source_metadata j ev saved h = kept refl refl h
    assign-IsTyped ingested_at j ev saved h =
        with_time-IsTyped ev saved (decode_time fl c j ev.ingested_at) h

    assign_found-IsTyped :
        (o : Option EventField) (j : Json) (ev : Event) (saved : Option Error)
        → IsTyped ev
        → DecodesTyped (assign_found fl c o j ev saved)
    assign_found-IsTyped none j ev saved h = h
    assign_found-IsTyped (some f) j ev saved h = assign-IsTyped f j ev saved h

    and_then-IsTyped :
        (d : Decoded) (f : Event → Option Error → Decoded)
        → ((ev : Event) (saved : Option Error) → IsTyped ev → DecodesTyped (f ev saved))
        → DecodesTyped d
        → DecodesTyped (and_then d f)
    and_then-IsTyped (inl e) f keeps h = tt
    and_then-IsTyped (inr (ev, saved)) f keeps h = keeps ev saved h

    decode_event_members-IsTyped :
        (ms : Members) (ev : Event) (saved : Option Error)
        → IsTyped ev
        → DecodesTyped (decode_event_members fl c ms ev saved)
    unfolding decode_event_members
    decode_event_members-IsTyped no_members ev saved h = h
    decode_event_members-IsTyped (member k j ms) ev saved h =
        and_then-IsTyped (assign_found fl c (find_field fl c k) j ev saved)
          (λ ev' saved'. decode_event_members fl c ms ev' saved')
          (λ ev' saved' h'. decode_event_members-IsTyped ms ev' saved' h')
          (assign_found-IsTyped (find_field fl c k) j ev saved h)

    finished-IsTyped :
        (d : Decoded) (ev : Event) → DecodesTyped d → finished d ≡ inr ev → IsTyped ev
    finished-IsTyped (inl e) ev h k = cc
    finished-IsTyped (inr (ev', none)) ev h k = subst IsTyped (cc k) h
    finished-IsTyped (inr (ev', some e)) ev h k = cc

    zero_event-IsTyped : IsTyped zero_event
    unfolding IsCanonical
    zero_event-IsTyped = record { typed_properties = tt; typed_timestamp = tt }

    -- Where the package keeps its promises: the properties of an event that was read from JSON
    -- without an error, if it has any, and its timestamp have no integers, at any depth, only numbers
    -- that are written so that they are read back, and the keys of each map once.
    pub decode_event-IsTyped : (j : Json) (ev : Event) → decode_event fl c j ≡ inr ev → IsTyped ev
    unfolding decode_event
    decode_event-IsTyped null ev h = subst IsTyped (cc h) zero_event-IsTyped
    decode_event-IsTyped (boolean b) ev h = cc
    decode_event-IsTyped (number b) ev h = cc
    decode_event-IsTyped (text raw) ev h = cc
    decode_event-IsTyped (array es) ev h = cc
    decode_event-IsTyped (members ms) ev h =
        finished-IsTyped (decode_event_members fl c ms zero_event none) ev
          (decode_event_members-IsTyped ms zero_event none zero_event-IsTyped) h
