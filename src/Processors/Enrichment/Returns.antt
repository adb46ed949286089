-- ===== src/Processors/Enrichment/Returns.antt =====
-- The enrichment of an event with a map of properties returns: it dereferences no nil pointer and
-- writes to no nil map.
use lago_paiement_engine.Prelude.{
  ◌≡◌, ◌⊎◌, refl, ap, ◌∙◌, sym, subst, Bool, not, Option, none, some, List, String, str_eq, arith,
  Bool-cases, inl, inr,
}
use lago_paiement_engine.Utils.Result.{Error, Result, failure}
use lago_paiement_engine.Models.BillableMetric.{BillableMetric}
use lago_paiement_engine.Models.Subscription.{Subscription}
use lago_paiement_engine.Models.Event.{
  Event, EnrichedEvent, Properties, http_ruby, to_enriched_event,
}
use lago_paiement_engine.Models.Event.Build.{IsBuilt, to_enriched_event-IsBuilt}
use lago_paiement_engine.Utils.Value.{Value}
use lago_paiement_engine.Processors.Enricher.{Enricher, set_properties}
use lago_paiement_engine.Processors.Charges.Nonempty.{HasEvents, enrich_with_charge_info-HasEvents}
use lago_paiement_engine.Processors.Enrichment.{
  stored, store_result, evaluation, evaluated, marshalled, evaluate_expression, with_value,
  describe, finish_billable_metric, enrich_with_billable_metric, enrich_with_subscription,
  after_evaluation, with_charges, with_metric, finish_charges, with_found_subscription,
  with_subscription, fetch_and_finish, after_billable_metric, with_found_billable_metric,
  with_billable_metric, with_enriched, after_build, enrich_event,
}

-- The event but for its properties.
abbrev pub IsKept : Event → Event → Type 0
IsKept before after = (p : Properties) × (after ≡ record before { properties = p })

IsKept-refl : (event : Event) → IsKept event event
IsKept-refl event = (event.properties, refl)

IsKept-trans : (a : Event) {b c : Event} → IsKept a b → IsKept b c → IsKept a c
IsKept-trans a (p, e) (q, f) = (q, f ∙ ap (λ (x : Event). record x { properties = q }) e)

-- The enrichment returns a failure or some events, and leaves the event but for its properties.
abbrev Returns : Event → Option (Result (List EnrichedEvent) × Event) → Type 0
Returns before o =
    (r : Result (List EnrichedEvent)) × (after : Event) × (o ≡ some (r, after))
    × HasEvents r
    × IsKept before after

module _ (env : Enricher) where
  finish_lem : (ev : EnrichedEvent) → Returns ev.initial_event (finish_charges env ev)
  unfolding finish_charges with_charges
  finish_lem ev =
      let (r, e, h) = enrich_with_charge_info-HasEvents env ev in
      (
        r,
        ev.initial_event,
        ap (with_charges env ev.initial_event) e,
        h,
        IsKept-refl ev.initial_event,
      )

  found_subscription_lem :
      (ev : EnrichedEvent) (s : Option Subscription)
      → Returns ev.initial_event (with_found_subscription env ev s)
  unfolding with_found_subscription enrich_with_subscription
  found_subscription_lem ev none = finish_lem ev
  found_subscription_lem ev (some s) = finish_lem (enrich_with_subscription ev s)

  subscription_lem :
      (ev : EnrichedEvent) (r : Result (Option Subscription))
      → Returns ev.initial_event (with_subscription env ev r)
  unfolding with_subscription
  subscription_lem ev r = elim (Bool-cases (failure r)) [
    | inl bad ↦ elim (Bool-cases (r.capture)) [
      | inl reported ↦ rw (bad, reported) (_, _, refl, inl bad, IsKept-refl ev.initial_event)
      | inr silent ↦ rw (bad, silent) (found_subscription_lem ev r.value)
    ]
    | inr good ↦ rw good (found_subscription_lem ev r.value)
  ]

  fetch_lem : (ev : EnrichedEvent) → Returns ev.initial_event (fetch_and_finish env ev)
  unfolding fetch_and_finish
  fetch_lem ev = subscription_lem ev _

  after_lem :
      (before : Event) (r : Result (Option EnrichedEvent)) (ev : EnrichedEvent)
      → IsKept before ev.initial_event
      → Returns before (after_billable_metric env (r, ev))
  unfolding after_billable_metric
  after_lem before r ev kept = elim (Bool-cases (failure r)) [
    | inl bad ↦ rw bad (_, ev.initial_event, refl, inl bad, kept)
    | inr good ↦
        let (r', after, e, h, k) = fetch_lem ev in
        rw good (r', after, e, h, IsKept-trans before kept k)
  ]

  -- What leaves a pair of a result and an event, the event but for its properties.
  abbrev Leaves : {A : Type 0} → Event → Option (Result A × EnrichedEvent) → Type 0
  Leaves {A} before o =
      (r : Result A) × (ev : EnrichedEvent) × (o ≡ some (r, ev)) × IsKept before ev.initial_event

  stored_lem :
      (ev : EnrichedEvent) (field_name result : String) (p : Properties) (m : List (String × Value))
      → p ≡ some m
      → (q : Properties) × (stored env ev field_name result p ≡ some (set_properties ev q))
  unfolding stored
  stored_lem ev field_name result none m has = cc
  stored_lem ev field_name result (some p) m has = (_, refl)

  evaluated_lem :
      (ev : EnrichedEvent) (bm : BillableMetric) (json : String) (m : List (String × Value))
      (o : Option String)
      → ev.properties ≡ some m
      → Leaves ev.initial_event (evaluated env ev bm json o)
  unfolding evaluated evaluation store_result
  evaluated_lem ev bm json m none has = (_, ev, refl, IsKept-refl ev.initial_event)
  evaluated_lem ev bm json m (some result) has =
      let (q, e) = stored_lem ev bm.field_name result ev.properties m has in
      (_, set_properties ev q, ap (evaluation env) e, (q, refl))

  marshalled_lem :
      (ev : EnrichedEvent) (bm : BillableMetric) (m : List (String × Value)) (o : Error ⊎ String)
      → ev.properties ≡ some m
      → Leaves ev.initial_event (marshalled env ev bm o)
  unfolding marshalled
  marshalled_lem ev bm m (inl e) has = (_, ev, refl, IsKept-refl ev.initial_event)
  marshalled_lem ev bm m (inr json) has = evaluated_lem ev bm json m _ has

  evaluate_lem :
      (ev : EnrichedEvent) (bm : BillableMetric) (m : List (String × Value))
      → ev.properties ≡ some m
      → Leaves ev.initial_event (evaluate_expression env ev bm)
  unfolding evaluate_expression
  evaluate_lem ev bm m has = elim (Bool-cases (str_eq bm.expression "")) [
    | inl empty ↦ rw (evaluate_expression, empty) (_, ev, refl, IsKept-refl ev.initial_event)
    | inr set ↦ rw (evaluate_expression, set) (marshalled_lem ev bm m _ has)
  ]

  with_value_lem :
      (ev : EnrichedEvent) (bm : BillableMetric)
      → (with_value env ev bm).initial_event ≡ ev.initial_event
  unfolding with_value
  with_value_lem ev bm = ground arith

  with_value-IsKept :
      (before : Event) (ev : EnrichedEvent) (bm : BillableMetric)
      → IsKept before ev.initial_event
      → IsKept before (with_value env ev bm).initial_event
  with_value-IsKept before ev bm k = subst (IsKept before) (sym (with_value_lem ev bm)) k

  finish_metric_lem :
      (before : Event) (bm : BillableMetric) (r : Result Bool) (ev : EnrichedEvent)
      → IsKept before ev.initial_event
      → Leaves before (some (finish_billable_metric env bm (r, ev)))
  unfolding finish_billable_metric
  finish_metric_lem before bm r ev k = elim (Bool-cases (failure r)) [
    | inl bad ↦ rw bad (_, ev, refl, k)
    | inr good ↦ rw good (_, with_value env ev bm, refl, with_value-IsKept before ev bm k)
  ]

  enrich_metric_lem :
      (ev : EnrichedEvent) (bm : BillableMetric) (m : List (String × Value))
      → ev.properties ≡ some m
      → Leaves ev.initial_event (enrich_with_billable_metric env ev bm)
  unfolding enrich_with_billable_metric after_evaluation
  enrich_metric_lem ev bm m has = elim (Bool-cases (not (str_eq ev.source http_ruby))) [
    | inl outside ↦
        let (r, ev', e, k) = evaluate_lem (describe ev bm) bm m has in
        let (r', ev'', e', k') = finish_metric_lem ev.initial_event bm r ev' k in
        rw (enrich_with_billable_metric, outside)
          (r', ev'', ap (after_evaluation env bm) e ∙ e', k')
    | inr ruby ↦
        rw (enrich_with_billable_metric, ruby)
          (
            _,
            with_value env (describe ev bm) bm,
            refl,
            with_value-IsKept ev.initial_event (describe ev bm) bm (IsKept-refl ev.initial_event),
          )
  ]

  found_metric_lem :
      (ev : EnrichedEvent) (m : List (String × Value)) (o : Option BillableMetric)
      → ev.properties ≡ some m
      → Returns ev.initial_event (with_found_billable_metric env ev o)
  unfolding with_found_billable_metric with_metric
  found_metric_lem ev m none has = fetch_lem ev
  found_metric_lem ev m (some bm) has =
      let (r, ev', e, k) = enrich_metric_lem ev bm m has in
      let (r', after, e', h, k') = after_lem ev.initial_event r ev' k in
      (r', after, ap (with_metric env) e ∙ e', h, k')

  metric_lem :
      (ev : EnrichedEvent) (m : List (String × Value)) (r : Result (Option BillableMetric))
      → ev.properties ≡ some m
      → Returns ev.initial_event (with_billable_metric env ev r)
  unfolding with_billable_metric
  metric_lem ev m r has = elim (Bool-cases (failure r)) [
    | inl bad ↦ rw bad (_, ev.initial_event, refl, inl bad, IsKept-refl ev.initial_event)
    | inr good ↦ rw good (found_metric_lem ev m r.value has)
  ]

  built_lem :
      (event : Event) (m : List (String × Value)) (ev : EnrichedEvent)
      → event.properties ≡ some m
      → ev.initial_event ≡ event
      → ev.properties ≡ event.properties
      → Returns event (with_enriched env event (some ev))
  unfolding with_enriched
  built_lem event m ev has behind same =
      subst (λ b. Returns b (with_enriched env event (some ev))) behind
        (metric_lem ev m _ (same ∙ has))

  enriched_lem :
      (event : Event) (m : List (String × Value)) (r : Result (Option EnrichedEvent))
      → event.properties ≡ some m
      → IsBuilt event r
      → Returns event (after_build env event r)
  unfolding after_build
  enriched_lem event m r has (inl bad) = rw bad (_, event, refl, inl bad, IsKept-refl event)
  enriched_lem event m r has (inr (ev, e, behind, same)) = elim (Bool-cases (failure r)) [
    | inl bad ↦ rw bad (_, event, refl, inl bad, IsKept-refl event)
    | inr good ↦
        subst (Returns event) (sym (rw (after_build, good) (ap (with_enriched env event) e)))
          (built_lem event m ev has behind same)
  ]

  -- For an event with a map of properties, `EnrichEvent` returns, whatever the database, the
  -- expression library and the JSON encoding answer: a failure, or at least one enriched event;
  -- and it leaves every field of the event but the properties as it was.
  pub enrich_event-returns :
      (event : Event) (m : List (String × Value))
      → event.properties ≡ some m
      → (r : Result (List EnrichedEvent)) × (after : Event) × (enrich_event env event
          ≡ some (r, after))
        × HasEvents r
        × IsKept event after
  unfolding enrich_event
  enrich_event-returns event m has =
      enriched_lem event m (to_enriched_event env.floats event) has
        (to_enriched_event-IsBuilt env.floats event)
