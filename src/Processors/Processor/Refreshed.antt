-- ===== src/Processors/Processor/Refreshed.antt =====
-- What the processing of an event asks of Redis: the flag of the subscription, and the expiry of
-- the cached usage of its charges.
use lago_paiement_engine.Prelude.{
  ◌≡◌, refl, ap, ap₂, ◌∙◌, sym, subst, Bool, true, false, ◌&&◌, Option, none, some, List, [], ◌∷◌,
  ◌++◌, inl, inr, Bool-cases, All, All-append, String, if◌then◌else◌,
}
use lago_paiement_engine.Utils.Result.{Error, Result, failure}
use lago_paiement_engine.Models.FlatFilter.{FlatFilter}
use lago_paiement_engine.Models.Event.{Event, EnrichedEvent, not_api_post_processed}
use lago_paiement_engine.Models.ChargeCache.{cache_key}
use lago_paiement_engine.Models.Stores.{RedisCommand, sadd, expire, FlagStore, expiration_time}
use lago_paiement_engine.Processors.Enricher.{Enricher}
use lago_paiement_engine.Processors.Enrichment.{enrich_event}
use lago_paiement_engine.Processors.Effect.{Effect, Outside}
use lago_paiement_engine.Processors.Services.{
  refresh_value, flag_result, flag_subscription_refresh, expire_answer, expire_filter, expire_cache,
}
use lago_paiement_engine.Processors.Calls.{commands_of, IsAnswered}
use lago_paiement_engine.Processors.Producer.{
  produce_enriched_event, produce_charged_in_advance_event,
}
use lago_paiement_engine.Processors.Producer.Commands.{
  commands-append, AsksNothing, enriched-AsksNothing, expanded-AsksNothing, in_advance-AsksNothing,
}
use lago_paiement_engine.Processors.Processor.{
  Processed, is_set, expanded_goroutines, pays_in_advance, after_flag, process_enriched,
  process_event,
}
use lago_paiement_engine.Processors.Processor.Enriched.{process_event-enriched}

module _ (answer : RedisCommand → Option Error) (store : FlagStore) (out : Outside)
    (answered : IsAnswered answer store out) where
  abbrev commands : List Effect → List RedisCommand
  commands es = commands_of answer store es

  -- The command for the filter of an enriched event, if it has one.
  abbrev expiry_of : Option FlatFilter → String → List RedisCommand
  expiry_of none subscription_id = []
  expiry_of (some filter) subscription_id =
      expire (cache_key filter subscription_id) expiration_time ∷ []

  abbrev pub expiries : List EnrichedEvent → List RedisCommand
  expiries [] = []
  expiries (ev ∷ evs) = expiry_of ev.flat_filter ev.subscription_id ++ expiries evs

  commands-answer : (e : Option Error) → commands (expire_answer out e) ≡ []
  unfolding expire_answer
  commands-answer none = refl
  commands-answer (some e) = refl

  commands-filter :
      (o : Option FlatFilter) (id : String) → commands (expire_filter out o id) ≡ expiry_of o id
  unfolding expire_filter
  commands-filter none id = refl
  commands-filter (some f) id =
      ap (λ l. expire (cache_key f id) expiration_time ∷ l)
        (commands-answer (out.expire_error (cache_key f id)))

  commands-expire_cache :
      (evs : List EnrichedEvent) → commands (expire_cache out evs) ≡ expiries evs
  unfolding expire_cache
  commands-expire_cache [] = refl
  commands-expire_cache (ev ∷ evs) =
      commands-append answer store (expire_filter out ev.flat_filter ev.subscription_id)
        (expire_cache out evs)
      ∙ ap₂ (λ x y. x ++ y) (commands-filter ev.flat_filter ev.subscription_id)
          (commands-expire_cache evs)

  -- The subscription of the event is to be refreshed.
  abbrev pub is_due : Event → EnrichedEvent → Bool
  is_due event ev = is_set ev.subscription && not_api_post_processed event

  abbrev pub flag_command : EnrichedEvent → RedisCommand
  flag_command ev = sadd store.name (refresh_value ev)

  -- What Redis is asked for the events of one expansion, the first of which is `ev`, and whether
  -- the processing fails.
  pub data Refreshed (event : Event) (ev : EnrichedEvent) (evs : List EnrichedEvent)
      : Bool → List RedisCommand → Type 0 where
    not_due : is_due event ev ≡ false → Refreshed event ev evs false []
    refused :
        {e : Error}
        → is_due event ev ≡ true
        → answer (flag_command ev) ≡ some e
        → Refreshed event ev evs true (flag_command ev ∷ [])
    flagged :
        is_due event ev ≡ true
        → answer (flag_command ev) ≡ none
        → Refreshed event ev evs false (flag_command ev ∷ expiries evs)

  abbrev IsRefreshed : Event → EnrichedEvent → List EnrichedEvent → Processed → Type 0
  IsRefreshed event ev evs p = Refreshed event ev evs (failure p.result) (commands p.effects)

  after_flag-IsRefreshed :
      (event : Event) (ev : EnrichedEvent) (evs : List EnrichedEvent) (gs : List (List Effect))
      (e : Option Error)
      → is_due event ev ≡ true
      → answer (flag_command ev) ≡ e
      → IsRefreshed event ev evs
          (after_flag out ev evs gs (flag_result out e, Effect.flag (refresh_value ev) ∷ []))
  unfolding after_flag flag_result
  after_flag-IsRefreshed event ev evs gs (some e) due h = refused due h
  after_flag-IsRefreshed event ev evs gs none due h =
      subst (λ l. Refreshed event ev evs false (flag_command ev ∷ l))
        (sym (commands-expire_cache evs)) (flagged due h)

  process_enriched-IsRefreshed :
      (event : Event) (ev : EnrichedEvent) (evs : List EnrichedEvent)
      → IsRefreshed event ev evs (process_enriched out event ev evs)
  unfolding process_enriched flag_subscription_refresh
  process_enriched-IsRefreshed event ev evs = elim (Bool-cases (is_due event ev)) [
    | inl due ↦ rw due (
        after_flag-IsRefreshed event ev evs _ (out.flag_error (refresh_value ev)) due
          (sym (answered.flagged (refresh_value ev))))
    | inr other ↦ rw other (not_due other)
  ]

  abbrev AskNothing : List (List Effect) → Type 0
  AskNothing gs = All (AsksNothing answer store out) gs

  expanded-AskNothing : (evs : List EnrichedEvent) → AskNothing (expanded_goroutines out evs)
  unfolding expanded_goroutines
  expanded-AskNothing [] = tt
  expanded-AskNothing (e ∷ evs) = elim (Bool-cases (is_set e.charge_id)) [
    | inl charged ↦ rw charged (expanded-AsksNothing answer store out e, expanded-AskNothing evs)
    | inr plain ↦ rw plain (expanded-AskNothing evs)
  ]

  advance-AskNothing :
      (b : Bool) (ev : EnrichedEvent)
      → AskNothing (if b then produce_charged_in_advance_event out ev ∷ [] else [])
  advance-AskNothing true ev = (in_advance-AsksNothing answer store out ev, tt)
  advance-AskNothing false ev = tt

  after_flag-AskNothing :
      (ev : EnrichedEvent) (evs : List EnrichedEvent) (gs : List (List Effect))
      (flagging : Result Bool × List Effect)
      → AskNothing gs
      → AskNothing (after_flag out ev evs gs flagging).goroutines
  unfolding after_flag
  after_flag-AskNothing ev evs gs (r, effects) h = elim (Bool-cases (failure r)) [
    | inl bad ↦ rw bad h
    | inr good ↦ rw good h
  ]

  process_enriched-AskNothing :
      (event : Event) (ev : EnrichedEvent) (evs : List EnrichedEvent)
      → AskNothing (process_enriched out event ev evs).goroutines
  unfolding process_enriched
  process_enriched-AskNothing event ev evs =
      let started : AskNothing (produce_enriched_event out ev ∷ expanded_goroutines out evs) =
        (enriched-AsksNothing answer store out ev, expanded-AskNothing evs) in
      elim (Bool-cases (is_due event ev)) [
        | inl due ↦ rw due (
            after_flag-AskNothing ev evs _ (flag_subscription_refresh out ev) (
              All-append (AsksNothing answer store out)
                (produce_enriched_event out ev ∷ expanded_goroutines out evs)
                (if pays_in_advance evs then produce_charged_in_advance_event out ev ∷ [] else [])
                started (advance-AskNothing (pays_in_advance evs) ev)))
        | inr other ↦ rw other started
      ]

  module _ (env : Enricher) where
    -- Where the stores pass on the answers of Redis, and the enrichment of an event succeeds with
    -- some events, `processEvent` does not panic, and its goroutines ask Redis for nothing. It
    -- succeeds, and asks Redis for nothing, if the first of the events has no subscription or the
    -- event is post-processed by the API. Otherwise it first adds the organization and the
    -- subscription to the set of flags. If that is refused it fails and asks for nothing else; if
    -- not, it succeeds, and lets the cached usage for the filter of each of the events that has one
    -- expire in five seconds, in their order, whether or not Redis refuses one of these.
    pub process_event-IsRefreshed :
        (event after : Event) (r : Result (List EnrichedEvent)) (ev : EnrichedEvent)
        (evs : List EnrichedEvent)
        → enrich_event env event ≡ some (r, after)
        → failure r ≡ false
        → r.value ≡ ev ∷ evs
        → (p : Processed) × (process_event out env event ≡ some (p, after))
          × Refreshed after ev (ev ∷ evs) (failure p.result) (commands p.effects)
          × AskNothing p.goroutines
    process_event-IsRefreshed event after r ev evs e good some' = (
      process_enriched out after ev (ev ∷ evs),
      process_event-enriched out env event after r ev evs e good some',
      process_enriched-IsRefreshed after ev (ev ∷ evs),
      process_enriched-AskNothing after ev (ev ∷ evs),
    )
