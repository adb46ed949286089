-- ===== src/Processors/Processor/Outcome.antt =====
-- When a record counts as processed, and what becomes of an event that fails.
use lago_paiement_engine.Prelude.{
  ◌≡◌, ◌↔◌, ap, ◌∙◌, sym, subst, Bool, true, false, ◌&&◌, Option, some, List, [], ◌∷◌, inl, inr,
  arith, Bool-cases,
}
use lago_paiement_engine.Prelude.Int.{pos, ◌-ℤ◌, ◌<ℤ◌, ltb_ℤ, ltb_ℤ_iff}
use lago_paiement_engine.Utils.Result.{Result, failure}
use lago_paiement_engine.Utils.Time.{since}
use lago_paiement_engine.Utils.Time.Conversion.{since-lt}
use lago_paiement_engine.Models.Event.{Event, EnrichedEvent}
use lago_paiement_engine.Kafka.Commit.{Record}
use lago_paiement_engine.Processors.Enricher.{Enricher}
use lago_paiement_engine.Processors.Producer.Delivery.{dead_letters, letter, dead_letters-queue}
use lago_paiement_engine.Processors.Effect.{ProducerMessage, Outside}
use lago_paiement_engine.Processors.Processor.{
  Processed, Handled, process_event, waits_for_retry, captured_result, handle_processed,
  handle_done, handle_event, handle_record,
}

and_iff : (a b : Bool) → ((a && b) ≡ true) ↔ ((a ≡ true) × (b ≡ true))
and_iff a b = ground arith

module _ (out : Outside) (env : Enricher) where
  -- A retryable failure of an event that was ingested less than twelve hours ago.
  abbrev pub Waits : Event → Result (Option EnrichedEvent) → Type 0
  Waits event r =
      (failure r ≡ true)
      × (r.retryable ≡ true)
      × ((out.now.nanos -ℤ event.ingested_at.nanos) <ℤ pos 43200000000000)

  waits_iff :
      (event : Event) (r : Result (Option EnrichedEvent))
      → (waits_for_retry out env event r ≡ true) ↔ (
          (r.retryable ≡ true) × ((out.now.nanos -ℤ event.ingested_at.nanos) <ℤ pos 43200000000000))
  unfolding waits_for_retry
  waits_iff event r =
      let both =
        and_iff r.retryable (ltb_ℤ (since out.now event.ingested_at) (pos 43200000000000)) in
      let short = ltb_ℤ_iff (since out.now event.ingested_at) (pos 43200000000000) in
      let exact = since-lt out.now event.ingested_at in
      (
        λ h. ((both.0 h).0, exact.0 (short.0 (both.0 h).1)),
        λ h. both.1 (h.0, short.1 (exact.1 h.1)),
      )

  pub handled_lem :
      (r : Record) (event event' : Event) (p : Processed)
      → out.unmarshal r.value ≡ inr event
      → process_event out env event ≡ some (p, event')
      → handle_record out env r ≡ some (handle_processed out env (p, event'))
  unfolding handle_record handle_event handle_done
  handled_lem r event event' p read done =
      ap (handle_event out env) read ∙ ap (handle_done out env) done

  -- What becomes of an event by its result: whether its record counts as processed, and the dead
  -- letters about it.
  pub data Fate (event : Event) (r : Result (Option EnrichedEvent))
      : Bool → List ProducerMessage → Type 0 where
    succeeds : failure r ≡ false → Fate event r true []
    waits : Waits event r → Fate event r false []
    dies : failure r ≡ true → (Waits event r → ⊥) → Fate event r true (letter out event r ∷ [])

  Fate-eq :
      {event : Event} {r : Result (Option EnrichedEvent)} {b c : Bool}
      {ms ns : List ProducerMessage}
      → b ≡ c
      → ms ≡ ns
      → Fate event r c ns
      → Fate event r b ms
  Fate-eq {event} {r} {b} {c} {ms} {ns} e f fate =
      subst (λ x. Fate event r b x) (sym f) (subst (λ x. Fate event r x ns) (sym e) fate)

  handle_processed-Fate :
      (p : Processed) (event : Event)
      → Fate event p.result
          (handle_processed out env (p, event)).processed
          (dead_letters (handle_processed out env (p, event)).afterwards)
  unfolding handle_processed captured_result
  handle_processed-Fate p event = elim (Bool-cases (failure p.result)) [
    | inr good ↦ Fate-eq (ground arith) (ground arith) (succeeds good)
    | inl bad ↦ elim (Bool-cases (waits_for_retry out env event p.result)) [
      | inl retry ↦
          let w = (waits_iff event p.result).0 retry in
          Fate-eq (ground arith) (ground arith) (waits (bad, w.0, w.1))
      | inr late ↦
          Fate-eq (ground arith) (ground (arith, dead_letters-queue out event p.result))
            (dies bad (λ w. cc (late, (waits_iff event p.result).1 (w.1, w.2))))
    ]
  ]

  pub waiting_unprocessed :
      (p : Processed) (event : Event)
      → Waits event p.result
      → (handle_processed out env (p, event)).processed ≡ false
  unfolding handle_processed
  waiting_unprocessed p event w =
      let retry = (waits_iff event p.result).1 (w.1, w.2) in rw (w.0, retry)

  -- A record whose event can be read and processed without a panic is handled without a panic. If
  -- the processing succeeds the record counts as processed; if it fails with a retryable error
  -- less than twelve hours after the event was ingested it does not count as processed; if it
  -- fails otherwise it counts as processed, and only then one dead letter, with the event and the
  -- texts of the error, is sent when the processing is over.
  pub handle_record-Fate :
      (r : Record) (event event' : Event) (p : Processed)
      → out.unmarshal r.value ≡ inr event
      → process_event out env event ≡ some (p, event')
      → (h : Handled) × (handle_record out env r ≡ some h)
        × Fate event' p.result h.processed (dead_letters h.afterwards)
  handle_record-Fate r event event' p read done = (
    handle_processed out env (p, event'),
    handled_lem r event event' p read done,
    handle_processed-Fate p event',
  )
