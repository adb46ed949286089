-- ===== src/Processors/Producer/Delivery.antt =====
-- What the producers send: each message once, and a dead letter where it cannot be pushed.
use mathlib.Core.List.{Permᴰ}
use lago_paiement_engine.Processors.Interleaving.{Shuffle-append, Shuffle-exchange}
use lago_paiement_engine.Prelude.{
  Shuffle, sym, ap₂, subst, ◌≡◌, ◌≢◌, refl, ap, ◌∙◌, Option, none, some, List, [], ◌∷◌, ◌++◌, inl,
  inr, arith, if◌then◌else◌, ◌⊎◌, String,
}
use lago_paiement_engine.Utils.Result.{Error, Result, error_msg, error_code, error_message}
use lago_paiement_engine.Models.Event.{Event, EnrichedEvent}
use lago_paiement_engine.Processors.Effect.{
  Channel, enriched, enriched_expanded, in_advance, dead_letter, Effect, ProducerMessage, produce,
  capture_error, capture_error_result, flag, expire_key, Outside,
}
use lago_paiement_engine.Processors.Producer.{
  event_key, expanded_key, captured, dead_letter_value, push_failure, keyed_message, produce_json,
  produce_event, produce_to_dead_letter_queue, produce_enriched_event,
  produce_enriched_expanded_event, produce_charged_in_advance_event,
}

-- The messages to the dead letter queue.
abbrev pub dead_letters : List Effect → List ProducerMessage
dead_letters [] = []
dead_letters (produce dead_letter m ∷ es) = m ∷ dead_letters es
dead_letters (e ∷ es) = dead_letters es

-- The messages to the other producers.
abbrev pub deliveries : List Effect → List (Channel × ProducerMessage)
deliveries [] = []
deliveries (produce dead_letter m ∷ es) = deliveries es
deliveries (produce c m ∷ es) = (c, m) ∷ deliveries es
deliveries (e ∷ es) = deliveries es

abbrev json_value : Error ⊎ String → Option String
json_value (inl e) = none
json_value (inr json) = some json

module _ (out : Outside) where
  -- The letter has no key; its value is the JSON of the failed event with the error's texts, or
  -- nothing where the encoding fails.
  abbrev pub letter {ℓ} : {A : Type ℓ} → Event → Result A → ProducerMessage
  letter event r = record {
    key = none;
    value = json_value (
        out.marshal_failed (record {
          event = event;
          initial_error_message = error_msg r;
          error_message = error_message r;
          error_code = error_code r;
          failed_at = out.now;
        }));
  }

  pub dead_letters-queue {ℓ} :
      {A : Type ℓ} (event : Event) (r : Result A)
      → dead_letters (produce_to_dead_letter_queue out event r) ≡ letter event r ∷ []
  unfolding produce_to_dead_letter_queue dead_letter_value
  dead_letters-queue event r = ground arith

  deliveries-queue {ℓ} :
      {A : Type ℓ} (event : Event) (r : Result A)
      → deliveries (produce_to_dead_letter_queue out event r) ≡ []
  unfolding produce_to_dead_letter_queue dead_letter_value
  deliveries-queue event r = ground arith

  -- What `produceEvent` should do, by the JSON of the event.
  abbrev pub IsDelivery :
      EnrichedEvent → String → Channel → Error ⊎ String → List Effect → Option Error → Type 0
  IsDelivery event key channel (inl e) effects err = (effects ≡ []) × (err ≡ some e)
  IsDelivery event key channel (inr json) effects err =
      (deliveries effects ≡ (channel, keyed_message out key json) ∷ [])
      × (dead_letters effects ≡ (
          if out.pushes channel (keyed_message out key json)
          then []
          else letter event.initial_event (push_failure out channel) ∷ []))
      × (err ≡ none)

  produce_json-IsDelivery :
      (event : EnrichedEvent) (key : String) (channel : Channel) (json : Error ⊎ String)
      → channel ≢ dead_letter
      → IsDelivery event key channel json
          (produce_json out event key channel json).0
          (produce_json out event key channel json).1
  unfolding produce_json
  produce_json-IsDelivery event key channel (inl e) h = (refl, refl)
  produce_json-IsDelivery event key dead_letter (inr json) h = absurd (h refl)
  produce_json-IsDelivery event key enriched (inr json) h = ground (
    arith,
    dead_letters-queue event.initial_event (push_failure out enriched),
    deliveries-queue event.initial_event (push_failure out enriched),
  )
  produce_json-IsDelivery event key enriched_expanded (inr json) h = ground (
    arith,
    dead_letters-queue event.initial_event (push_failure out enriched_expanded),
    deliveries-queue event.initial_event (push_failure out enriched_expanded),
  )
  produce_json-IsDelivery event key in_advance (inr json) h = ground (
    arith,
    dead_letters-queue event.initial_event (push_failure out in_advance),
    deliveries-queue event.initial_event (push_failure out in_advance),
  )

  -- On a channel other than the dead letter queue, `produceEvent` returns the error and sends
  -- nothing if the JSON of the event cannot be made; otherwise it returns no error, sends one
  -- message with the key and the JSON to the channel, and one dead letter with the initial event
  -- if that message is not pushed, and none if it is.
  pub produce_event-IsDelivery :
      (event : EnrichedEvent) (key : String) (channel : Channel)
      → channel ≢ dead_letter
      → IsDelivery event key channel
          (out.marshal_enriched event)
          (produce_event out event key channel).0
          (produce_event out event key channel).1
  unfolding produce_event
  produce_event-IsDelivery event key channel =
      produce_json-IsDelivery event key channel (out.marshal_enriched event)

  json_deliveries :
      (event : EnrichedEvent) (key : String) (channel : Channel) (json : String)
      → channel ≢ dead_letter
      → deliveries (captured out (produce_json out event key channel (inr json)))
        ≡ (channel, keyed_message out key json) ∷ []
  unfolding captured produce_json
  json_deliveries event key channel json ne =
      (produce_json-IsDelivery event key channel (inr json) ne).0

  -- What each of the three producers sends about an event that can be encoded.
  module _ (event : EnrichedEvent) (json : String)
      (encodes : out.marshal_enriched event ≡ inr json) where
    sends :
        (key : String) (channel : Channel)
        → channel ≢ dead_letter
        → deliveries (captured out (produce_event out event key channel))
          ≡ (channel, keyed_message out key json) ∷ []
    unfolding produce_event
    sends key channel ne =
        ap (λ o. deliveries (captured out (produce_json out event key channel o))) encodes
        ∙ json_deliveries event key channel json ne

    pub deliveries-enriched :
        deliveries (produce_enriched_event out event)
        ≡ (enriched, keyed_message out (event_key event) json) ∷ []
    unfolding produce_enriched_event
    deliveries-enriched = sends (event_key event) enriched (λ e. cc)

    pub deliveries-expanded :
        deliveries (produce_enriched_expanded_event out event)
        ≡ (enriched_expanded, keyed_message out (expanded_key event) json) ∷ []
    unfolding produce_enriched_expanded_event
    deliveries-expanded = sends (expanded_key event) enriched_expanded (λ e. cc)

    pub deliveries-in_advance :
        deliveries (produce_charged_in_advance_event out event)
        ≡ (in_advance, keyed_message out (event_key event) json) ∷ []
    unfolding produce_charged_in_advance_event
    deliveries-in_advance = sends (event_key event) in_advance (λ e. cc)

pub deliveries-append :
    (xs ys : List Effect) → deliveries (xs ++ ys) ≡ deliveries xs ++ deliveries ys
deliveries-append [] ys = refl
deliveries-append (produce dead_letter m ∷ xs) ys = deliveries-append xs ys
deliveries-append (produce enriched m ∷ xs) ys = ap (◌∷◌ (enriched, m)) (deliveries-append xs ys)
deliveries-append (produce enriched_expanded m ∷ xs) ys =
    ap (◌∷◌ (enriched_expanded, m)) (deliveries-append xs ys)
deliveries-append (produce in_advance m ∷ xs) ys =
    ap (◌∷◌ (in_advance, m)) (deliveries-append xs ys)
deliveries-append (capture_error e ∷ xs) ys = deliveries-append xs ys
deliveries-append (capture_error_result e c m v ∷ xs) ys = deliveries-append xs ys
deliveries-append (flag v ∷ xs) ys = deliveries-append xs ys
deliveries-append (expire_key k ∷ xs) ys = deliveries-append xs ys

subst2-Shuffle :
    {A : Type 0} {xs ys xs' ys' : List A} → xs ≡ xs' → ys ≡ ys' → Shuffle xs ys → Shuffle xs' ys'
subst2-Shuffle {A} {xs} {ys} {xs'} {ys'} e f p =
    subst (λ l. Shuffle l ys') e (subst (λ l. Shuffle xs l) f p)

-- Effects in another order send the same messages in another order.
pub deliveries-Shuffle :
    {xs ys : List Effect} → Shuffle xs ys → Shuffle (deliveries xs) (deliveries ys)
deliveries-Shuffle Permᴰ.nil = Permᴰ.nil
deliveries-Shuffle (Permᴰ.cons {a} {b} {l₁} {l₂} e p) =
    subst2-Shuffle (sym (deliveries-append (a ∷ []) l₁))
      (sym (ap (λ x. deliveries (x ∷ l₂)) (sym e) ∙ deliveries-append (a ∷ []) l₂))
      (Shuffle-append (deliveries (a ∷ [])) (deliveries-Shuffle p))
deliveries-Shuffle (Permᴰ.swap {a} {b} {a'} {b'} {l} e f) =
    subst2-Shuffle
      (sym (
        deliveries-append (a ∷ []) (b ∷ l)
        ∙ ap (λ x. deliveries (a ∷ []) ++ x) (deliveries-append (b ∷ []) l)))
      (sym (
        ap₂ (λ x y. deliveries (y ∷ x ∷ l)) (sym e) (sym f)
        ∙ deliveries-append (b ∷ []) (a ∷ l)
        ∙ ap (λ x. deliveries (b ∷ []) ++ x) (deliveries-append (a ∷ []) l)))
      (Shuffle-exchange (deliveries (a ∷ [])) (deliveries (b ∷ [])) (deliveries l))
deliveries-Shuffle (Permᴰ.trans p q) = Permᴰ.trans (deliveries-Shuffle p) (deliveries-Shuffle q)
