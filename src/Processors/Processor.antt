-- ===== src/Processors/Processor.antt =====
-- The processing of one event and of a batch of records
-- (events-processor/processors/events_processor/processor.go).
pub mod Outcome
pub mod Returns
pub mod Sent
pub mod Enriched
pub mod Ends
pub mod Refreshed
pub mod Batch
use lago_paiement_engine.Prelude.{
  ℕ, Bool, true, false, not, ◌&&◌, ◌||◌, Option, none, some, List, [], ◌∷◌, ◌++◌, String, ◌⊎◌, inl,
  inr, if◌then◌else◌, Bytes, map,
}
use lago_paiement_engine.Prelude.Int.{ℤ, pos, ltb_ℤ}
use lago_paiement_engine.Utils.Result.{
  Error, pointer_zero, Result, failure, success_result, failed_result_of, error_code, error_message,
}
use lago_paiement_engine.Utils.Time.{Time, since}
use lago_paiement_engine.Models.FlatFilter.{FlatFilter}
use lago_paiement_engine.Models.Event.{Event, EnrichedEvent, not_api_post_processed}
use lago_paiement_engine.Kafka.Commit.{Record}
use lago_paiement_engine.Processors.Enricher.{Enricher, failed_result}
use lago_paiement_engine.Processors.Enrichment.{enrich_event}
use lago_paiement_engine.Processors.Effect.{Effect, capture_error, capture_error_result, Outside}
use lago_paiement_engine.Processors.Producer.{
  produce_enriched_event, produce_enriched_expanded_event, produce_charged_in_advance_event,
  produce_to_dead_letter_queue,
}
use lago_paiement_engine.Processors.Services.{flag_subscription_refresh, expire_cache}

-- What `processEvent` does: its result, the goroutines that it starts and waits for, each with its
-- effects, and what it does itself meanwhile.
pub record Processed : Type 0 where
  pub result : Result (Option EnrichedEvent)
  pub goroutines : List (List Effect)
  pub effects : List Effect

-- What the goroutine of `ProcessEvents` for one record does: the goroutines that it starts, what it
-- does meanwhile, what it does when they are done, and whether the record is processed.
pub record Handled : Type 0 where
  pub goroutines : List (List Effect)
  pub meanwhile : List Effect
  pub afterwards : List Effect
  pub processed : Bool

-- `ev.FlatFilter != nil && ev.FlatFilter.PayInAdvance`
abbrev filter_pays_in_advance : Option FlatFilter → Bool
filter_pays_in_advance none = false
filter_pays_in_advance (some filter) = filter.pay_in_advance

pub pays_in_advance : List EnrichedEvent → Bool
pays_in_advance [] = false
pays_in_advance (ev ∷ evs) = filter_pays_in_advance ev.flat_filter || pays_in_advance evs

abbrev is_set {ℓ} : {A : Type ℓ} → Option A → Bool
is_set none = false
is_set (some a) = true

module _ (out : Outside) where
  -- A goroutine for each event with a charge.
  pub expanded_goroutines : List EnrichedEvent → List (List Effect)
  expanded_goroutines [] = []
  expanded_goroutines (ev ∷ evs) =
      (if is_set ev.charge_id then produce_enriched_expanded_event out ev ∷ [] else [])
      ++ expanded_goroutines evs

  -- What is done where the flag is set, or fails to be set.
  after_flag :
      EnrichedEvent
      → List EnrichedEvent
      → List (List Effect)
      → Result Bool × List Effect
      → Processed
  after_flag ev evs goroutines (r, effects) =
      if failure r
      then record {
        result = failed_result r "flag_subscription_refresh" "Error flagging subscription refresh";
        goroutines = goroutines;
        effects = effects;
      }
      else record {
        result = success_result (some ev);
        goroutines = goroutines;
        effects = effects ++ expire_cache out evs;
      }

  -- `processEvent` from the enriched events on; `ev` is the first of them.
  pub process_enriched : Event → EnrichedEvent → List EnrichedEvent → Processed
  unfolding after_flag
  process_enriched event ev evs =
      let started = produce_enriched_event out ev ∷ expanded_goroutines evs in
      if is_set ev.subscription && not_api_post_processed event
      then after_flag ev evs
          (started
            ++ (if pays_in_advance evs then produce_charged_in_advance_event out ev ∷ [] else []))
          (flag_subscription_refresh out ev)
      else record { result = success_result (some ev); goroutines = started; effects = [] }

  -- `none` is the panic of `enrichedEvents[0]`.
  process_first : Event → List EnrichedEvent → Option Processed
  process_first event [] = none
  process_first event (ev ∷ evs) = some (process_enriched event ev (ev ∷ evs))

  process_result : Event → Result (List EnrichedEvent) → Option Processed
  process_result event r =
      if failure r
      then some (record {
        result = failed_result r (error_code r) (error_message r);
        goroutines = [];
        effects = [];
      })
      else process_first event r.value

  module _ (env : Enricher) where
    -- The event as the enrichment leaves it goes with the result.
    with_event : Event → Option Processed → Option (Processed × Event)
    with_event event none = none
    with_event event (some p) = some (p, event)

    process_enrichment : Option (Result (List EnrichedEvent) × Event) → Option (Processed × Event)
    process_enrichment none = none
    process_enrichment (some (r, event)) = with_event event (process_result event r)

    -- `processEvent`, with the event as it is left.
    unfoldable pub process_event : Event → Option (Processed × Event)
    unfolding process_enriched process_first process_result with_event process_enrichment
    process_event event = process_enrichment (enrich_event env event)

    -- `result.IsRetryable() && time.Since(event.IngestedAt.Time()) < 12*time.Hour`
    pub waits_for_retry : Event → Result (Option EnrichedEvent) → Bool
    waits_for_retry event r =
        r.retryable && ltb_ℤ (since out.now event.ingested_at) (pos 43200000000000)

    captured_result : Event → Result (Option EnrichedEvent) → List Effect
    captured_result event r =
        if r.capture
        then capture_error_result r.err (error_code r) (error_message r) event ∷ []
        else []

    -- The end of the goroutine: by the result of `processEvent`.
    pub handle_processed : Processed × Event → Handled
    handle_processed (p, event) =
        if failure p.result
        then if waits_for_retry event p.result
          then record {
            goroutines = p.goroutines;
            meanwhile = p.effects;
            afterwards = captured_result event p.result;
            processed = false;
          }
          else record {
            goroutines = p.goroutines;
            meanwhile = p.effects;
            afterwards =
                captured_result event p.result ++ produce_to_dead_letter_queue out event p.result;
            processed = true;
          }
        else record {
          goroutines = p.goroutines;
          meanwhile = p.effects;
          afterwards = [];
          processed = true;
        }

    handle_done : Option (Processed × Event) → Option Handled
    handle_done none = none
    handle_done (some processed') = some (handle_processed processed')

    -- A message that cannot be read is captured, and counts as processed.
    handle_event : Error ⊎ Event → Option Handled
    handle_event (inl e) = some (record {
      goroutines = [];
      meanwhile = capture_error (some e) ∷ [];
      afterwards = [];
      processed = true;
    })
    handle_event (inr event) = handle_done (process_event event)

    -- The goroutine of `ProcessEvents` for one record; `none` is a panic.
    unfoldable pub handle_record : Record → Option Handled
    unfolding process_event waits_for_retry captured_result handle_processed handle_done
        handle_event
    handle_record r = handle_event (out.unmarshal r.value)

    -- Whether the record is appended to `processedRecords`.
    unfoldable pub is_processed : Record → Bool
    unfolding handle_record
    is_processed r = elim (handle_record r) [ none ↦ false | some h ↦ h.processed ]
