-- ===== src/Processors/Charges/Nonempty.antt =====
-- The enrichment with charges fails or has an event.
use lago_paiement_engine.Prelude.{
  ◌≡◌, ◌⊎◌, refl, true, Option, none, some, List, [], ◌∷◌, Bool-cases, inl, inr,
}
use lago_paiement_engine.Utils.Result.{Result, failure, success_result}
use lago_paiement_engine.Models.FlatFilter.{FlatFilter}
use lago_paiement_engine.Models.Subscription.{Subscription}
use lago_paiement_engine.Models.Event.{EnrichedEvent}
use lago_paiement_engine.Processors.Enricher.{Enricher}
use lago_paiement_engine.Processors.Charges.{
  expand, charge_info, charges_of, enrich_with_charge_info,
}
use lago_paiement_engine.Processors.Charges.Expansion.{IsExpansion, expand_lem}

-- The result is a failure, or has at least one event.
abbrev pub HasEvents : Result (List EnrichedEvent) → Type 0
HasEvents r =
    (failure r ≡ true) ⊎ ((e : EnrichedEvent) × (es : List EnrichedEvent) × (r.value ≡ e ∷ es))

module _ (env : Enricher) (ev : EnrichedEvent) where
  -- It has an event, since it has one for the first filter.
  nonempty :
      (f : FlatFilter) (fs : List FlatFilter) (es : List EnrichedEvent)
      → IsExpansion env ev (f ∷ fs) es
      → HasEvents (success_result es)
  nonempty f fs [] h = absurd h.covers.0
  nonempty f fs (e ∷ es) h = inr (e, es, refl)

  expand-HasEvents :
      (filters : List FlatFilter)
      → (r : Result (List EnrichedEvent)) × (expand env ev filters ≡ some r) × HasEvents r
  unfolding expand
  expand-HasEvents [] = (_, refl, inr (ev, [], refl))
  expand-HasEvents (f ∷ fs) =
      let (es, e, h) = expand_lem env ev f fs in (success_result es, e, nonempty f fs es h)

  charge_info-HasEvents :
      (found : Result (List FlatFilter))
      → (r : Result (List EnrichedEvent)) × (charge_info env ev found ≡ some r) × HasEvents r
  unfolding charge_info
  charge_info-HasEvents found = elim (Bool-cases (failure found)) [
    | inl bad ↦ rw bad (_, refl, inl bad)
    | inr good ↦ rw good (expand-HasEvents found.value)
  ]

  charges_of-HasEvents :
      (sub : Option Subscription)
      → (r : Result (List EnrichedEvent)) × (charges_of env ev sub ≡ some r) × HasEvents r
  unfolding charges_of
  charges_of-HasEvents none = (_, refl, inr (ev, [], refl))
  charges_of-HasEvents (some sub) = charge_info-HasEvents _

  pub enrich_with_charge_info-HasEvents :
      (r : Result (List EnrichedEvent)) × (enrich_with_charge_info env ev ≡ some r) × HasEvents r
  unfolding enrich_with_charge_info
  enrich_with_charge_info-HasEvents = charges_of-HasEvents ev.subscription
