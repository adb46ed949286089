-- ===== src/Processors/Processor/Sent.antt =====
-- Which messages are sent about an event that is enriched, and that none is where it is not.
use mathlib.Core.List.{append-nil}
use lago_paiement_engine.Prelude.{
  ◌≡◌, refl, ap, ap₂, ◌∙◌, sym, Bool, true, false, ◌&&◌, some, List, [], ◌∷◌, ◌++◌, map, String,
  inl, inr, Bool-cases, subst, Shuffle, Option, none, if◌then◌else◌, keep,
}
use lago_paiement_engine.Utils.Result.{Result, failure}
use lago_paiement_engine.Models.Event.{Event, EnrichedEvent, not_api_post_processed}
use lago_paiement_engine.Processors.Enricher.{Enricher}
use lago_paiement_engine.Processors.Enrichment.{enrich_event}
use lago_paiement_engine.Processors.Effect.{
  Effect, Channel, enriched, enriched_expanded, in_advance, ProducerMessage, Outside,
}
use lago_paiement_engine.Processors.Producer.{
  event_key, expanded_key, keyed_message, produce_enriched_event, produce_enriched_expanded_event,
  produce_charged_in_advance_event,
}
use lago_paiement_engine.Processors.Services.{flag_subscription_refresh}
use lago_paiement_engine.Processors.Interleaving.{flatten, Interleaves, Interleaves-Shuffle}
use lago_paiement_engine.Processors.Producer.Delivery.{
  deliveries, deliveries-append, deliveries-Shuffle, deliveries-enriched, deliveries-expanded,
  deliveries-in_advance,
}
use lago_paiement_engine.Processors.Processor.Enriched.{process_event-enriched}
use lago_paiement_engine.Processors.Processor.{
  Processed, is_set, pays_in_advance, expanded_goroutines, after_flag, process_enriched,
  process_event,
}

-- What the goroutines send one after the other, each message with its channel.
abbrev sent : List (List Effect) → List (Channel × ProducerMessage)
sent gs = deliveries (flatten gs)

-- The goroutines that `processEvent` starts, if it does not panic.
abbrev pub goroutines_of : Option (Processed × Event) → List (List Effect)
goroutines_of none = []
goroutines_of (some (p, event)) = p.goroutines

module _ (out : Outside) (json : EnrichedEvent → String)
    (encodes : (e : EnrichedEvent) → out.marshal_enriched e ≡ inr (json e)) where
  abbrev pub expanded_message : EnrichedEvent → Channel × ProducerMessage
  expanded_message e = (enriched_expanded, keyed_message out (expanded_key e) (json e))

  -- The messages that are due for the events of one expansion, the first of which is `ev`; their
  -- order has no meaning.
  abbrev pub messages : Bool → EnrichedEvent → List EnrichedEvent → List (Channel × ProducerMessage)
  messages advance ev evs =
      (enriched, keyed_message out (event_key ev) (json ev))
      ∷ (map expanded_message (keep (λ e. is_set e.charge_id) evs)
          ++ (if advance
              then (in_advance, keyed_message out (event_key ev) (json ev)) ∷ []
              else []))

  sent-cons : (g : List Effect) (gs : List (List Effect)) → sent (g ∷ gs) ≡ deliveries g ++ sent gs
  sent-cons g gs = deliveries-append g (flatten gs)

  sent-expanded :
      (evs : List EnrichedEvent) (gs : List (List Effect))
      → sent (expanded_goroutines out evs ++ gs)
        ≡ map expanded_message (keep (λ e. is_set e.charge_id) evs) ++ sent gs
  unfolding expanded_goroutines
  sent-expanded [] gs = refl
  sent-expanded (e ∷ evs) gs = elim (Bool-cases (is_set e.charge_id)) [
    | inl charged ↦ rw (charged) (
        sent-cons (produce_enriched_expanded_event out e) (expanded_goroutines out evs ++ gs)
        ∙ ap₂ (λ a b. a ++ b) (deliveries-expanded out e (json e) (encodes e))
            (sent-expanded evs gs))
    | inr plain ↦ rw (plain) (sent-expanded evs gs)
  ]

  -- The events are due in advance.
  abbrev pub is_due_in_advance : Event → EnrichedEvent → List EnrichedEvent → Bool
  is_due_in_advance event ev evs =
      (is_set ev.subscription && not_api_post_processed event) && pays_in_advance evs

  abbrev advance : Bool → EnrichedEvent → List (List Effect)
  advance b ev = if b then produce_charged_in_advance_event out ev ∷ [] else []

  sent-advance :
      (b : Bool) (ev : EnrichedEvent)
      → sent (advance b ev)
        ≡ (if b then (in_advance, keyed_message out (event_key ev) (json ev)) ∷ [] else [])
  sent-advance true ev =
      sent-cons (produce_charged_in_advance_event out ev) []
      ∙ ap (λ a. a ++ []) (deliveries-in_advance out ev (json ev) (encodes ev))
  sent-advance false ev = refl

  sent_all :
      (b : Bool) (ev : EnrichedEvent) (evs : List EnrichedEvent)
      → sent ((produce_enriched_event out ev ∷ expanded_goroutines out evs) ++ advance b ev)
        ≡ messages b ev evs
  sent_all b ev evs =
      sent-cons (produce_enriched_event out ev) (expanded_goroutines out evs ++ advance b ev)
      ∙ ap₂ (λ x y. x ++ y) (deliveries-enriched out ev (json ev) (encodes ev))
          (sent-expanded evs (advance b ev)
            ∙ ap (λ y. map expanded_message (keep (λ e. is_set e.charge_id) evs) ++ y)
                (sent-advance b ev))

  after_flag_lem :
      (ev : EnrichedEvent) (evs : List EnrichedEvent) (gs : List (List Effect)) (r : Result Bool)
      (effects : List Effect)
      → (after_flag out ev evs gs (r, effects)).goroutines ≡ gs
  unfolding after_flag
  after_flag_lem ev evs gs r effects = elim (Bool-cases (failure r)) [
    | inl bad ↦ rw bad refl
    | inr good ↦ rw good refl
  ]

  process_enriched-sent :
      (event : Event) (ev : EnrichedEvent) (evs : List EnrichedEvent)
      → sent (process_enriched out event ev evs).goroutines
        ≡ messages (is_due_in_advance event ev evs) ev evs
  unfolding process_enriched
  process_enriched-sent event ev evs =
      let started = produce_enriched_event out ev ∷ expanded_goroutines out evs in
      elim (Bool-cases (is_set ev.subscription && not_api_post_processed event)) [
        | inl subscribed ↦ rw (subscribed) (
            ap sent (
              after_flag_lem ev evs (started ++ advance (pays_in_advance evs) ev)
                (flag_subscription_refresh out ev).0 (flag_subscription_refresh out ev).1)
            ∙ sent_all (pays_in_advance evs) ev evs)
        | inr other ↦ rw (other) (ap sent (sym (append-nil started)) ∙ sent_all false ev evs)
      ]

  module _ (env : Enricher) where
    -- Where every enriched event can be encoded, and the enrichment of an event succeeds with some
    -- events, `processEvent` does not panic. In whatever order the steps of its goroutines are
    -- taken, these send, besides dead letters: the first of the events to the enriched topic; each
    -- that has a charge to the expanded topic; and the first in advance if it has a subscription,
    -- the event is not post-processed by the API, and the filter of some of the events is paid in
    -- advance. They send these once each, in any order, whether or not they are pushed.
    pub process_event-sent :
        (event after : Event) (r : Result (List EnrichedEvent)) (ev : EnrichedEvent)
        (evs : List EnrichedEvent) (run : List Effect)
        → enrich_event env event ≡ some (r, after)
        → failure r ≡ false
        → r.value ≡ ev ∷ evs
        → Interleaves (goroutines_of (process_event out env event)) run
        → (p : Processed) × (process_event out env event ≡ some (p, after))
          × Shuffle
              (deliveries run)
              (messages (is_due_in_advance after ev (ev ∷ evs)) ev (ev ∷ evs))
    process_event-sent event after r ev evs run e good some' steps =
        let done = process_event-enriched out env event after r ev evs e good some' in
        let steps' : Interleaves (process_enriched out after ev (ev ∷ evs)).goroutines run =
          subst (λ o. Interleaves (goroutines_of o) run) done steps in
        (
          process_enriched out after ev (ev ∷ evs),
          done,
          subst (λ l. Shuffle (deliveries run) l) (process_enriched-sent after ev (ev ∷ evs))
              (deliveries-Shuffle (Interleaves-Shuffle steps')),
        )
