-- ===== src/Processors/Processor/Ends.antt =====
-- How a record ends that counts as processed.
use lago_paiement_engine.Prelude.{
  ◌≡◌, refl, sym, ap, ◌∙◌, ◌⊎◌, Bool, true, false, Option, none, some, List, [], ◌∷◌, inl, inr,
}
use lago_paiement_engine.Utils.Result.{Error, failure}
use lago_paiement_engine.Models.Event.{Event}
use lago_paiement_engine.Kafka.Commit.{Record}
use lago_paiement_engine.Processors.Enricher.{Enricher}
use lago_paiement_engine.Processors.Effect.{ProducerMessage, Outside}
use lago_paiement_engine.Processors.Producer.Delivery.{dead_letters, letter}
use lago_paiement_engine.Processors.Processor.{
  Processed, Handled, process_event, handle_done, handle_event, handle_record, is_processed,
}
use lago_paiement_engine.Processors.Processor.Outcome.{
  Waits, Fate, succeeds, waits, dies, handle_record-Fate,
}

module _ (out : Outside) (env : Enricher) where
  -- The event could not be read; or its processing succeeded; or it failed, not for a retry, and a
  -- dead letter about it was handed to the producer.
  pub data Ends (r : Record) : Type 0 where
    unreadable : {e : Error} → out.unmarshal r.value ≡ inl e → Ends r
    succeeded :
        {event after : Event} {p : Processed}
        → out.unmarshal r.value ≡ inr event
        → process_event out env event ≡ some (p, after)
        → failure p.result ≡ false
        → Ends r
    died :
        {event after : Event} {p : Processed} {h : Handled}
        → out.unmarshal r.value ≡ inr event
        → process_event out env event ≡ some (p, after)
        → failure p.result ≡ true
        → (Waits out env after p.result → ⊥)
        → handle_record out env r ≡ some h
        → dead_letters h.afterwards ≡ letter out after p.result ∷ []
        → Ends r

  abbrev processed_of : Option Handled → Bool
  processed_of none = false
  processed_of (some h) = h.processed

  is_processed_lem : (r : Record) → is_processed out env r ≡ processed_of (handle_record out env r)
  unfolding is_processed
  is_processed_lem r = refl

  panicked_lem :
      (r : Record) (event : Event)
      → out.unmarshal r.value ≡ inr event
      → process_event out env event ≡ none
      → handle_record out env r ≡ none
  unfolding handle_record handle_event handle_done
  panicked_lem r event read panics =
      ap (handle_event out env) read ∙ ap (handle_done out env) panics

  Fate-Ends :
      (r : Record) (event after : Event) (p : Processed) (h : Handled) (b : Bool)
      (ms : List ProducerMessage)
      → out.unmarshal r.value ≡ inr event
      → process_event out env event ≡ some (p, after)
      → handle_record out env r ≡ some h
      → h.processed ≡ b
      → dead_letters h.afterwards ≡ ms
      → b ≡ true
      → Fate out env after p.result b ms
      → Ends r
  Fate-Ends r event after p h _ _ read done handled e m k (succeeds good) = succeeded read done good
  Fate-Ends r event after p h _ _ read done handled e m k (waits w) = cc k
  Fate-Ends r event after p h _ _ read done handled e m k (dies bad late) =
      died read done bad late handled m

  by_processing :
      (r : Record) (event : Event) (o : Option (Processed × Event))
      → out.unmarshal r.value ≡ inr event
      → process_event out env event ≡ o
      → is_processed out env r ≡ true
      → Ends r
  by_processing r event none read panics k =
      let f : false ≡ true =
        sym (ap processed_of (panicked_lem r event read panics)) ∙ sym (is_processed_lem r) ∙ k in
      cc f
  by_processing r event (some (p, after)) read done k =
      let (h, handled, fate) = handle_record-Fate out env r event after p read done in
      Fate-Ends r event after p h h.processed (dead_letters h.afterwards) read done handled refl
        refl (sym (ap processed_of handled) ∙ sym (is_processed_lem r) ∙ k) fate

  by_reading :
      (r : Record) (x : Error ⊎ Event)
      → out.unmarshal r.value ≡ x
      → is_processed out env r ≡ true
      → Ends r
  by_reading r (inl e) read k = unreadable read
  by_reading r (inr event) read k = by_processing r event (process_event out env event) read refl k

  pub is_processed-Ends : (r : Record) → is_processed out env r ≡ true → Ends r
  is_processed-Ends r k = by_reading r (out.unmarshal r.value) refl k
