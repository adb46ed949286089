-- ===== src/Processors/Enrichment/Panics.antt =====
-- When the evaluation of a custom expression panics.
use lago_paiement_engine.Prelude.{
  ◌≡◌, ◌≢◌, ◌↔◌, ◌⊎◌, refl, ap, ◌∙◌, Bool, Option, none, some, String, str_eq, eq_iff, Bool-cases,
  inl, inr,
}
use lago_paiement_engine.Utils.Result.{Error, Result}
use lago_paiement_engine.Models.BillableMetric.{BillableMetric}
use lago_paiement_engine.Models.Event.{EnrichedEvent, Properties}
use lago_paiement_engine.Processors.Enricher.{Enricher}
use lago_paiement_engine.Processors.Enrichment.{
  stored, store_result, evaluation, evaluated, marshalled, evaluate_expression,
}

module _ (env : Enricher) (ev : EnrichedEvent) (bm : BillableMetric) where
  -- The event can be encoded, and the expression has a value there.
  abbrev pub HasValue : Error ⊎ String → Type 0
  HasValue (inl e) = ⊥
  HasValue (inr json) = (v : String) × (env.evaluate bm.expression json ≡ some v)

  stored→none :
      (field_name v : String) (p : Properties)
      → evaluation env (stored env ev field_name v p) ≡ none
      → p ≡ none
  unfolding stored evaluation
  stored→none field_name v none h = refl
  stored→none field_name v (some m) h = cc

  evaluated→ :
      (json : String) (o : Option String)
      → evaluated env ev bm json o ≡ none
      → (ev.properties ≡ none) × ((v : String) × (o ≡ some v))
  unfolding evaluated store_result
  evaluated→ json none h = cc
  evaluated→ json (some v) h = (stored→none bm.field_name v ev.properties h, (v, refl))

  marshalled→ :
      (o : Error ⊎ String) → marshalled env ev bm o ≡ none → (ev.properties ≡ none) × HasValue o
  unfolding marshalled
  marshalled→ (inl e) h = cc
  marshalled→ (inr json) h = evaluated→ json (env.evaluate bm.expression json) h

  marshalled← :
      (o : Error ⊎ String) → ev.properties ≡ none → HasValue o → marshalled env ev bm o ≡ none
  unfolding marshalled evaluated store_result stored evaluation
  marshalled← (inl e) p h = absurd h
  marshalled← (inr json) p (v, e) =
      ap (evaluated env ev bm json) e ∙ ap (λ q. evaluation env (stored env ev bm.field_name v q)) p

  some-ne : {r : Result Bool × EnrichedEvent} → some r ≢ none
  some-ne h = cc

  -- `evaluateExpression` panics exactly when the metric has an expression, the event has no map
  -- of properties, the event can be encoded, and the expression has a value for its JSON.
  pub evaluate_expression-none :
      (evaluate_expression env ev bm ≡ none)
      ↔ ((bm.expression ≢ "") × (ev.properties ≡ none) × HasValue (env.marshal ev))
  unfolding evaluate_expression
  evaluate_expression-none = elim (Bool-cases (str_eq bm.expression "")) [
    | inl empty ↦ (
      λ h. absurd (some-ne (rw (evaluate_expression, empty) at h)),
      λ h. absurd (h.0 ((eq_iff bm.expression "").0 empty)),
    )
    | inr set ↦ (
      λ h.
          let m = marshalled→ (env.marshal ev) (rw (evaluate_expression, set) at h) in
          (λ e. cc (set, (eq_iff bm.expression "").1 e), m.0, m.1),
      λ h. rw (evaluate_expression, set) (marshalled← (env.marshal ev) h.1 h.2),
    )
  ]
