-- ===== src/Processors/Charges/Expansion.antt =====
-- The events that an enriched event is expanded into, one for each charge.
use lago_paiement_engine.Prelude.{
  ◌≡◌, ◌≢◌, refl, ap, ◌∙◌, sym, subst, Option, some, List, [], ◌∷◌, String, str_eq, eq_iff,
  Bool-cases, inl, inr, All, All-map, Some, Shuffle-symm,
}
use lago_paiement_engine.Utils.Result.{success_result}
use lago_paiement_engine.Models.FlatFilter.{FlatFilter}
use lago_paiement_engine.Models.Subscription.{Subscription}
use lago_paiement_engine.Models.Event.{EnrichedEvent}
use lago_paiement_engine.Models.Matching.Best.{
  IsBestMatch, matching_filter-IsBestMatch, charge_id-IsBestMatch,
}
use lago_paiement_engine.Models.ApiStore.{fetch_flat_filters}
use lago_paiement_engine.Processors.Enricher.{Charges, Enricher}
use lago_paiement_engine.Processors.Charges.{
  add_charge_event, index_by_charge, charge_event, charge_events, expand, charge_info, charges_of,
  enrich_with_charge_info,
}
use lago_paiement_engine.Processors.Charges.Pricing.{IsCopy, charge_event-IsCopy}
use lago_paiement_engine.Processors.Charges.Grouping.{
  filters_of, IsUnique, HasCharge, IsIndex, index_by_charge-IsIndex, IsIndex-Shuffle,
}

-- No two events are of the same charge.
abbrev pub IsDistinct : List EnrichedEvent → Type 0
IsDistinct [] = Unit
IsDistinct (e ∷ es) = All (λ x. x.charge_id ≢ e.charge_id) es × IsDistinct es

module _ (env : Enricher) (ev : EnrichedEvent) where
  -- `e` is the copy of the event for the charge `c`, under the best match of its filters.
  pub record IsChargeEvent (filters : List FlatFilter) (c : String) (e : EnrichedEvent)
      : Type 0 where
    pub first : FlatFilter
    pub rest : List FlatFilter
    pub filter : FlatFilter
    pub group : filters_of c filters ≡ first ∷ rest
    pub best : IsBestMatch env.floats ev first (first ∷ rest) filter
    pub copy : IsCopy env ev filter e
    pub charge : e.charge_id ≡ some c

  -- One event for each entry of the index, in their order.
  abbrev pub Expands : List FlatFilter → Charges → List EnrichedEvent → Type 0
  Expands filters [] [] = Unit
  Expands filters [] (e ∷ es) = ⊥
  Expands filters ((c, fs) ∷ m) [] = ⊥
  Expands filters ((c, fs) ∷ m) (e ∷ es) = IsChargeEvent filters c e × Expands filters m es

  charge_id-charge_event : (f : FlatFilter) → (charge_event env ev f).charge_id ≡ some f.charge_id
  charge_id-charge_event f =
      ap (λ (e : EnrichedEvent). e.charge_id) (charge_event-IsCopy env ev f).1

  -- All filters of a group belong to its charge.
  All-filters_of :
      (c : String) (fs : List FlatFilter) → All (λ f. f.charge_id ≡ c) (filters_of c fs)
  All-filters_of c [] = tt
  All-filters_of c (f ∷ fs) = elim (Bool-cases (str_eq f.charge_id c)) [
    | inl same ↦ rw same ((eq_iff f.charge_id c).0 same, All-filters_of c fs)
    | inr differ ↦ rw differ (All-filters_of c fs)
  ]

  pub charge_events-Expands :
      (filters : List FlatFilter) (m : Charges)
      → All (λ e. e.1 ≡ filters_of e.0 filters) m
      → All (λ e. e.1 ≢ []) m
      → (es : List EnrichedEvent) × (charge_events env ev m ≡ some es) × Expands filters m es
  unfolding charge_events add_charge_event
  charge_events-Expands filters [] g n = ([], refl, tt)
  charge_events-Expands filters ((c, []) ∷ m) g n = absurd (n.0 refl)
  charge_events-Expands filters ((c, f ∷ fs) ∷ m) g n =
      let (es, e, h) = charge_events-Expands filters m g.1 n.1 in
      let (r, found, best) = matching_filter-IsBestMatch env.floats ev f fs in
      (
        charge_event env ev r ∷ es,
        rw (found, e) refl,
        (
          record {
            first = f;
            rest = fs;
            filter = r;
            group = sym g.0;
            best = best;
            copy = charge_event-IsCopy env ev r;
            charge =
                charge_id-charge_event r
                ∙ ap some (
                    charge_id-IsBestMatch env.floats ev c f (f ∷ fs) r
                      (subst (All (λ x. x.charge_id ≡ c)) (sym g.0) (All-filters_of c filters)).0
                      (subst (All (λ x. x.charge_id ≡ c)) (sym g.0) (All-filters_of c filters))
                      best);
          },
          h,
        ),
      )

  -- The events of an expansion: each is the copy for a charge that has filters, no two are of the
  -- same charge, and there is one for the charge of every filter.
  pub record IsExpansion (filters : List FlatFilter) (es : List EnrichedEvent) : Type 0 where
    pub copies : All (λ e. (c : String) × IsChargeEvent filters c e) es
    pub distinct : IsDistinct es
    pub covers : All (λ f. Some (λ e. e.charge_id ≡ some f.charge_id) es) filters

  copies_lem :
      (filters : List FlatFilter) (m : Charges) (es : List EnrichedEvent)
      → Expands filters m es
      → All (λ e. (c : String) × IsChargeEvent filters c e) es
  copies_lem filters [] [] h = tt
  copies_lem filters ((c, fs) ∷ m) (e ∷ es) h = ((c, h.0), copies_lem filters m es h.1)
  copies_lem filters [] (e ∷ es) h = absurd h
  copies_lem filters ((c, fs) ∷ m) [] h = absurd h

  -- A property of the charges of the index, for the events.
  All-Expands :
      (P : Option String → Type 0) (filters : List FlatFilter) (m : Charges)
      (es : List EnrichedEvent)
      → Expands filters m es
      → All (λ x. P (some x.0)) m
      → All (λ e. P e.charge_id) es
  All-Expands P filters [] [] h a = tt
  All-Expands P filters ((c, fs) ∷ m) (e ∷ es) h a =
      (subst P (sym h.0.charge) a.0, All-Expands P filters m es h.1 a.1)
  All-Expands P filters [] (e ∷ es) h a = absurd h
  All-Expands P filters ((c, fs) ∷ m) [] h a = absurd h

  some_eq : {a b : String} → some a ≡ some b → a ≡ b
  some_eq q = cc

  IsDistinct-Expands :
      (filters : List FlatFilter) (m : Charges) (es : List EnrichedEvent)
      → Expands filters m es
      → IsUnique m
      → IsDistinct es
  IsDistinct-Expands filters [] [] h u = tt
  IsDistinct-Expands filters ((c, fs) ∷ m) (e ∷ es) h u = (
    subst (λ k. All (λ x. x.charge_id ≢ k) es) (sym h.0.charge)
        (All-Expands (λ k. k ≢ some c) filters m es h.1 (All-map m (λ x ne q. ne (some_eq q)) u.0)),
    IsDistinct-Expands filters m es h.1 u.1,
  )
  IsDistinct-Expands filters [] (e ∷ es) h u = absurd h
  IsDistinct-Expands filters ((c, fs) ∷ m) [] h u = absurd h

  HasCharge-Expands :
      (c : String) (filters : List FlatFilter) (m : Charges) (es : List EnrichedEvent)
      → Expands filters m es
      → HasCharge c m
      → Some (λ e. e.charge_id ≡ some c) es
  HasCharge-Expands c filters ((k, fs) ∷ m) (e ∷ es) h (inl q) = inl (h.0.charge ∙ ap some q)
  HasCharge-Expands c filters ((k, fs) ∷ m) (e ∷ es) h (inr s) =
      inr (HasCharge-Expands c filters m es h.1 s)
  HasCharge-Expands c filters [] es h s = absurd s
  HasCharge-Expands c filters ((k, fs) ∷ m) [] h s = absurd h

  range-IsIndex :
      (filters : List FlatFilter) → IsIndex filters (env.range (index_by_charge [] filters))
  range-IsIndex filters =
      IsIndex-Shuffle (Shuffle-symm (env.range-Shuffle (index_by_charge [] filters)))
        (index_by_charge-IsIndex filters)

  pub expand_lem :
      (f : FlatFilter) (fs : List FlatFilter)
      → (es : List EnrichedEvent) × (expand env ev (f ∷ fs) ≡ some (success_result es))
        × IsExpansion (f ∷ fs) es
  unfolding expand
  expand_lem f fs =
      let index = range-IsIndex (f ∷ fs) in
      let m = env.range (index_by_charge [] (f ∷ fs)) in
      let (es, e, h) = charge_events-Expands (f ∷ fs) m index.groups index.nonempty in
      (
        es,
        rw (expand, e) refl,
        record {
          copies = copies_lem (f ∷ fs) m es h;
          distinct = IsDistinct-Expands (f ∷ fs) m es h index.unique;
          covers =
              All-map (f ∷ fs) (λ x s. HasCharge-Expands x.charge_id (f ∷ fs) m es h s)
                index.covers;
        },
      )

  -- For an event with a subscription, when the filters of its plan and metric are found and there
  -- are some, the enrichment with charges does not panic and returns one copy of the event for
  -- each charge of the filters, under the best match among the filters of that charge, in
  -- whatever order the map of charges is iterated over.
  pub enrich_with_charge_info-IsExpansion :
      (sub : Subscription) (f : FlatFilter) (fs : List FlatFilter)
      → ev.subscription ≡ some sub
      → fetch_flat_filters env.api_store ev.plan_id ev.code ≡ success_result (f ∷ fs)
      → (es : List EnrichedEvent) × (enrich_with_charge_info env ev ≡ some (success_result es))
        × IsExpansion (f ∷ fs) es
  unfolding enrich_with_charge_info charges_of charge_info
  enrich_with_charge_info-IsExpansion sub f fs has found =
      let (es, e, h) = expand_lem f fs in
      (es, ap (charges_of env ev) has ∙ ap (charge_info env ev) found ∙ e, h)
