-- ===== src/Tests/Json.antt =====
-- An event that is read from JSON, and its dead letter.
use Prim.Native.Nat.{Ordering, compare}
use Prim.Native.Char.{char, IsLt}
use lago_paiement_engine.Prelude.{
  ◌≡◌, refl, ap, ◌∙◌, ◌⊎◌, inl, inr, ℕ, true, Option, none, some, [], ◌∷◌, String, Bytes, codes,
  arith,
}
use lago_paiement_engine.Prelude.Int.{pos, ◌+ℤ◌}
use lago_paiement_engine.Utils.Result.{Error}
use lago_paiement_engine.Utils.Float.{Float64}
use lago_paiement_engine.Utils.Value.{float64, string, nil, list, item, no_items}
use lago_paiement_engine.Utils.Time.Custom.{parse, unmarshal_json}
use lago_paiement_engine.Utils.Time.Calendar.{day_number}
use lago_paiement_engine.Utils.Time.Custom.RoundTrip.{whole_second}
use lago_paiement_engine.Utils.Json.{
  Json, null, boolean, number, text, array, members, element, no_elements, no_members, member,
  Codec, put_absent, decode_any, decode_elements, decode_members, Members,
}
use lago_paiement_engine.Utils.Json.RoundTrip.{IsCodec}
use lago_paiement_engine.Models.Event.{Event, FailedEvent}
use lago_paiement_engine.Models.Event.Json.{decode_event_members, decode_event}
use lago_paiement_engine.Models.Event.Json.Encoding.{encode_failed_event}
use lago_paiement_engine.Models.Event.Json.RoundTrip.{encode_failed_event-decode_event}
use lago_paiement_engine.Tests.Data.{whole_floats, at_second}

-- The code points that are those of a character, as `IsScalar` has them.
abbrev IsBothLt : Ordering → Ordering → Type 0
IsBothLt Ordering.lt o = IsLt o
IsBothLt Ordering.eq o = ⊥
IsBothLt Ordering.gt o = ⊥

abbrev IsScalarBy : Ordering → Ordering → Ordering → Type 0
IsScalarBy Ordering.lt o p = Unit
IsScalarBy Ordering.eq o p = IsBothLt o p
IsScalarBy Ordering.gt o p = IsBothLt o p

abbrev find_lt : (o : Ordering) → Option (IsLt o)
find_lt Ordering.lt = some tt
find_lt Ordering.eq = none
find_lt Ordering.gt = none

abbrev find_both : (o p : Ordering) → Option (IsBothLt o p)
find_both Ordering.lt p = find_lt p
find_both Ordering.eq p = none
find_both Ordering.gt p = none

abbrev find_scalar : (o p q : Ordering) → Option (IsScalarBy o p q)
find_scalar Ordering.lt p q = some tt
find_scalar Ordering.eq p q = find_both p q
find_scalar Ordering.gt p q = find_both p q

find_lt-some : (o : Ordering) (h : IsLt o) → find_lt o ≡ some h
find_lt-some Ordering.lt h = refl
find_lt-some Ordering.eq h = absurd h
find_lt-some Ordering.gt h = absurd h

find_both-some : (o p : Ordering) (h : IsBothLt o p) → find_both o p ≡ some h
find_both-some Ordering.lt p h = find_lt-some p h
find_both-some Ordering.eq p h = absurd h
find_both-some Ordering.gt p h = absurd h

find_scalar-some : (o p q : Ordering) (h : IsScalarBy o p q) → find_scalar o p q ≡ some h
find_scalar-some Ordering.lt p q h = refl
find_scalar-some Ordering.eq p q h = find_both-some p q h
find_scalar-some Ordering.gt p q h = find_both-some p q h

abbrev prepend :
    (n : ℕ)
    → Option (IsScalarBy (compare n 55296) (compare 57343 n) (compare n 1114112))
    → String
    → String
prepend n none s = s
prepend n (some h) s = String.◌∷◌ (char n h) s

abbrev of_codes : Bytes → String
of_codes [] = ""
of_codes (n ∷ ns) =
    prepend n (find_scalar (compare n 55296) (compare 57343 n) (compare n 1114112)) (of_codes ns)

of_codes-codes : (s : String) → of_codes (codes s) ≡ s
of_codes-codes String.[] = refl
of_codes-codes (String.◌∷◌ (char n h) s) =
    ap (λ o. prepend n o (of_codes (codes s)))
      (find_scalar-some (compare n 55296) (compare 57343 n) (compare n 1114112) h)
    ∙ ap (String.◌∷◌ (char n h)) (of_codes-codes s)

abbrev digit_of : Bytes → Error ⊎ Float64
digit_of (b ∷ []) = inr (record { bits = b })
digit_of bs = inl (record { message = "out of range" })

-- Texts are not escaped, and a number is one byte.
abbrev plain : Codec
plain = record {
  unquote = of_codes;
  quote = codes;
  float_of = digit_of;
  float_text = λ f. inr (f.bits ∷ []);
  type_error = λ kind j. record { message = kind };
  fold = λ s. s;
  string_of = of_codes;
  parse_error = λ b. record { message = "parsing time" };
  not_a_time = λ j. record { message = "parsing time" };
}

plain-IsCodec : IsCodec plain
plain-IsCodec = record { quoted = of_codes-codes; numbers = λ b f h. (f.bits ∷ [], refl, refl) }

abbrev read_event : Event
read_event = record {
  organization_id = "org";
  external_subscription_id = "ext";
  transaction_id = "tx";
  code = "calls";
  properties = some (
      ("kinds", list (item (string "a") (item nil no_items)))
      ∷ ("size", float64 (record { bits = 55 }))
      ∷ []);
  precise_total_amount_cents = "";
  source = "";
  timestamp = float64 (record { bits = 53 });
  source_metadata = some (record { api_post_process = true });
  ingested_at = record { nanos = pos 1709210096000000000 };
}

-- The name `other` is no field of an event; the first `code` is overwritten.
abbrev event_json : Json
event_json = members (
    member "code" (text (codes "old")) (
      member "organization_id" (text (codes "org")) (
        member "external_subscription_id" (text (codes "ext")) (
          member "transaction_id" (text (codes "tx")) (
            member "other" (boolean true) (
              member "code" (text (codes "calls")) (
                member "properties"
                  (members (
                    member "size" (number (55 ∷ [])) (
                      member "kinds" (array (element (text (codes "a")) (element null no_elements)))
                        no_members)))
                  (member "timestamp" (number (53 ∷ [])) (
                    member "source_metadata"
                      (members (member "api_post_processed" (boolean true) no_members))
                      (member "ingested_at" (text (codes "2024-02-29T12:34:56"))
                        no_members))))))))))

read_event_json : decode_event whole_floats plain event_json ≡ inr read_event
unfolding decode_event decode_event_members decode_any decode_elements decode_members put_absent
    unmarshal_json parse day_number
read_event_json = refl

abbrev dead_letter : FailedEvent
dead_letter = record {
  event = read_event;
  initial_error_message = "not found";
  error_message = "Error fetching billable metric";
  error_code = "fetch_billable_metric";
  failed_at = at_second 9;
}

read_second : dead_letter.event.ingested_at ≡ whole_second 63871245296
unfolding ◌+ℤ◌
read_second = refl

encode_failed_event-decode_event_example :
    (j' : Json) × (ms : Members) × (encode_failed_event plain (λ t. inr null) dead_letter
      ≡ inr (members (member "event" j' ms)))
    × (decode_event whole_floats plain j' ≡ inr dead_letter.event)
encode_failed_event-decode_event_example =
    encode_failed_event-decode_event whole_floats plain plain-IsCodec (λ t. inr null) dead_letter
      event_json null 63871245296 read_event_json read_second (omega arith) refl
