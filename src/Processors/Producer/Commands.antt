-- ===== src/Processors/Producer/Commands.antt =====
-- The producers ask Redis for nothing.
use lago_paiement_engine.Prelude.{
  ◌≡◌, refl, ap, ◌∙◌, Option, none, some, List, [], ◌∷◌, ◌++◌, String, ◌⊎◌, inl, inr, arith,
}
use lago_paiement_engine.Utils.Result.{Error, Result}
use lago_paiement_engine.Models.Event.{Event, EnrichedEvent}
use lago_paiement_engine.Models.Stores.{RedisCommand, sadd, expire, FlagStore, expiration_time}
use lago_paiement_engine.Processors.Effect.{
  Effect, Channel, enriched, enriched_expanded, in_advance, Outside,
}
use lago_paiement_engine.Processors.Calls.{commands_of}
use lago_paiement_engine.Processors.Producer.{
  event_key, expanded_key, captured, dead_letter_value, push_failure, produce_json, produce_event,
  produce_to_dead_letter_queue, produce_enriched_event, produce_enriched_expanded_event,
  produce_charged_in_advance_event,
}

module _ (answer : RedisCommand → Option Error) (store : FlagStore) where
  pub commands-append :
      (xs ys : List Effect)
      → commands_of answer store (xs ++ ys)
        ≡ commands_of answer store xs ++ commands_of answer store ys
  commands-append [] ys = refl
  commands-append (Effect.produce c m ∷ xs) ys = commands-append xs ys
  commands-append (Effect.capture_error e ∷ xs) ys = commands-append xs ys
  commands-append (Effect.capture_error_result e c m ev ∷ xs) ys = commands-append xs ys
  commands-append (Effect.flag v ∷ xs) ys = ap (λ l. sadd store.name v ∷ l) (commands-append xs ys)
  commands-append (Effect.expire_key k ∷ xs) ys =
      ap (λ l. expire k expiration_time ∷ l) (commands-append xs ys)

  module _ (out : Outside) where
    abbrev pub AsksNothing : List Effect → Type 0
    AsksNothing es = commands_of answer store es ≡ []

    queue-AsksNothing {ℓ} :
        {A : Type ℓ} (event : Event) (r : Result A)
        → AsksNothing (produce_to_dead_letter_queue out event r)
    unfolding produce_to_dead_letter_queue dead_letter_value
    queue-AsksNothing event r = ground arith

    json-AsksNothing :
        (event : EnrichedEvent) (key : String) (channel : Channel) (json : Error ⊎ String)
        → AsksNothing (produce_json out event key channel json).0
    unfolding produce_json
    json-AsksNothing event key channel (inl e) = refl
    json-AsksNothing event key channel (inr json) =
        ground (arith, queue-AsksNothing event.initial_event (push_failure out channel))

    captured-AsksNothing :
        (effects : List Effect) (e : Option Error)
        → AsksNothing effects
        → AsksNothing (captured out (effects, e))
    unfolding captured
    captured-AsksNothing effects none h = h
    captured-AsksNothing effects (some e) h =
        commands-append effects (Effect.capture_error (some e) ∷ []) ∙ ap (λ l. l ++ []) h

    event-AsksNothing :
        (event : EnrichedEvent) (key : String) (channel : Channel)
        → AsksNothing (captured out (produce_event out event key channel))
    unfolding produce_event
    event-AsksNothing event key channel =
        captured-AsksNothing (produce_event out event key channel).0
          (produce_event out event key channel).1
          (json-AsksNothing event key channel (out.marshal_enriched event))

    pub enriched-AsksNothing : (ev : EnrichedEvent) → AsksNothing (produce_enriched_event out ev)
    unfolding produce_enriched_event
    enriched-AsksNothing ev = event-AsksNothing ev (event_key ev) enriched

    pub expanded-AsksNothing :
        (ev : EnrichedEvent) → AsksNothing (produce_enriched_expanded_event out ev)
    unfolding produce_enriched_expanded_event
    expanded-AsksNothing ev = event-AsksNothing ev (expanded_key ev) enriched_expanded

    pub in_advance-AsksNothing :
        (ev : EnrichedEvent) → AsksNothing (produce_charged_in_advance_event out ev)
    unfolding produce_charged_in_advance_event
    in_advance-AsksNothing ev = event-AsksNothing ev (event_key ev) in_advance
