-- ===== src/Processors/Charges/Order.antt =====
-- That the order of Go's iteration over the map of charges changes only the order of the events.
use mathlib.Core.List.{Permᴰ}
use lago_paiement_engine.Prelude.{
  ◌≡◌, refl, sym, ap, ◌∙◌, subst, Option, none, some, List, [], ◌∷◌, String, Bool-cases,
  Option-cases, inl, inr, Shuffle, Shuffle-symm, Shuffle-refl,
}
use lago_paiement_engine.Utils.Result.{
  Result, failure, success_result, failed_result_of, slice_zero,
}
use lago_paiement_engine.Models.FlatFilter.{FlatFilter}
use lago_paiement_engine.Models.Subscription.{Subscription}
use lago_paiement_engine.Models.Event.{EnrichedEvent, Properties}
use lago_paiement_engine.Models.ApiStore.{fetch_flat_filters}
use lago_paiement_engine.Models.Matching.{matching_filter}
use lago_paiement_engine.Processors.Enricher.{Charges, Enricher}
use lago_paiement_engine.Processors.Charges.{
  group_by, grouped_by_keys, enrich_with_pricing_group_keys, charge_event, add_charge_event,
  charge_events, index_by_charge, expand, charge_info, charges_of, enrich_with_charge_info,
}

module _ (env : Enricher) (ev : EnrichedEvent) where
  add_charge_event-inversion :
      (o : Option FlatFilter) (rest : Option (List EnrichedEvent)) (es : List EnrichedEvent)
      → add_charge_event env ev o rest ≡ some es
      → (f : FlatFilter) × (rs : List EnrichedEvent) × (o ≡ some f)
        × (rest ≡ some rs)
        × (charge_event env ev f ∷ rs ≡ es)
  unfolding add_charge_event
  add_charge_event-inversion none rest es h = cc
  add_charge_event-inversion (some f) none es h = cc
  add_charge_event-inversion (some f) (some rs) es h = (f, rs, refl, refl, cc)

  add_charge_event-some :
      (o : Option FlatFilter) (rest : Option (List EnrichedEvent)) (f : FlatFilter)
      (rs : List EnrichedEvent)
      → o ≡ some f
      → rest ≡ some rs
      → add_charge_event env ev o rest ≡ some (charge_event env ev f ∷ rs)
  unfolding add_charge_event
  add_charge_event-some o rest f rs e k = rw (e, k)

  -- The events of two orders of one index.
  abbrev Reordered : Charges → List EnrichedEvent → Type 0
  Reordered m es = (es' : List EnrichedEvent) × (charge_events env ev m ≡ some es') × Shuffle es es'

  charge_events-Shuffle :
      {m n : Charges} (es : List EnrichedEvent)
      → Shuffle m n
      → charge_events env ev m ≡ some es
      → Reordered n es
  unfolding charge_events
  charge_events-Shuffle es Permᴰ.nil h = (es, h, Shuffle-refl es)
  charge_events-Shuffle es (Permᴰ.cons {a = x} {b = y} {l₁ = xs} {l₂ = ys} e p) h =
      let (f, rs, found, rest, made) =
        add_charge_event-inversion (matching_filter env.floats x.1 ev) (charge_events env ev xs) es
          h in
      let (rs', rest', q) = charge_events-Shuffle rs p rest in
      (
        charge_event env ev f ∷ rs',
        add_charge_event-some (matching_filter env.floats y.1 ev) (charge_events env ev ys) f rs'
            (ap (λ (z : String × List FlatFilter). matching_filter env.floats z.1 ev) (sym e)
              ∙ found)
            rest',
        subst (λ l. Shuffle l (charge_event env ev f ∷ rs')) made (Permᴰ.cons refl q),
      )
  charge_events-Shuffle es (Permᴰ.swap {a = x} {b = y} {a' = y'} {b' = x'} {l = l} e d) h =
      let (f, rs, found, rest, made) =
        add_charge_event-inversion (matching_filter env.floats x.1 ev)
          (charge_events env ev (y ∷ l)) es h in
      let (g, ss, found', rest', made') =
        add_charge_event-inversion (matching_filter env.floats y.1 ev) (charge_events env ev l) rs
          rest in
      (
        charge_event env ev g ∷ charge_event env ev f ∷ ss,
        add_charge_event-some (matching_filter env.floats y'.1 ev) (charge_events env ev (x' ∷ l)) g
            (charge_event env ev f ∷ ss)
            (ap (λ (z : String × List FlatFilter). matching_filter env.floats z.1 ev) (sym d)
              ∙ found')
            (add_charge_event-some (matching_filter env.floats x'.1 ev) (charge_events env ev l) f
              ss
              (ap (λ (z : String × List FlatFilter). matching_filter env.floats z.1 ev) (sym e)
                ∙ found)
              rest'),
        subst (λ k. Shuffle k (charge_event env ev g ∷ charge_event env ev f ∷ ss))
            (ap (λ k. charge_event env ev f ∷ k) made' ∙ made) (Permᴰ.swap refl refl),
      )
  charge_events-Shuffle es (Permᴰ.trans p q) h =
      let (es', h', s) = charge_events-Shuffle es p h in
      let (es'', h'', t) = charge_events-Shuffle es' q h' in (es'', h'', Permᴰ.trans s t)

-- The enricher, where Go iterates over the map of charges in another order.
abbrev pub ranging :
    (range : Charges → Charges) → ((m : Charges) → Shuffle (range m) m) → Enricher → Enricher
ranging range law env = record env { range = range; range-Shuffle = law }

module _ (env : Enricher) (range : Charges → Charges)
    (law : (m : Charges) → Shuffle (range m) m) where
  group_by-ranging :
      (p : Properties) (keys : List String) (grouped : List (String × String))
      → group_by (ranging range law env) p grouped keys ≡ group_by env p grouped keys
  unfolding group_by
  group_by-ranging p [] grouped = refl
  group_by-ranging p (key ∷ keys) grouped = group_by-ranging p keys _

  grouped_by_keys-ranging :
      (ev : EnrichedEvent) (keys : Option (List String))
      → grouped_by_keys (ranging range law env) ev keys ≡ grouped_by_keys env ev keys
  unfolding grouped_by_keys
  grouped_by_keys-ranging ev none = refl
  grouped_by_keys-ranging ev (some keys) =
      ap (λ g. record ev { grouped_by = g }) (group_by-ranging ev.properties keys ev.grouped_by)

  charge_event-ranging :
      (ev : EnrichedEvent) (f : FlatFilter)
      → charge_event (ranging range law env) ev f ≡ charge_event env ev f
  unfolding charge_event enrich_with_pricing_group_keys
  charge_event-ranging ev f = grouped_by_keys-ranging _ f.pricing_group_keys

  add_charge_event-ranging :
      (ev : EnrichedEvent) (o : Option FlatFilter) (rest : Option (List EnrichedEvent))
      → add_charge_event (ranging range law env) ev o rest ≡ add_charge_event env ev o rest
  unfolding add_charge_event
  add_charge_event-ranging ev none rest = refl
  add_charge_event-ranging ev (some f) none = refl
  add_charge_event-ranging ev (some f) (some rs) =
      ap (λ e. some (e ∷ rs)) (charge_event-ranging ev f)

  charge_events-ranging :
      (ev : EnrichedEvent) (m : Charges)
      → charge_events (ranging range law env) ev m ≡ charge_events env ev m
  unfolding charge_events
  charge_events-ranging ev [] = refl
  charge_events-ranging ev ((c, fs) ∷ m) =
      add_charge_event-ranging ev (matching_filter env.floats fs ev)
        (charge_events (ranging range law env) ev m)
      ∙ ap (add_charge_event env ev (matching_filter env.floats fs ev)) (charge_events-ranging ev m)

-- The same result but for the order of the events.
pub record SameEvents (r r' : Result (List EnrichedEvent)) : Type 0 where
  pub events : Shuffle r.value r'.value
  pub others : record r { value = [] } ≡ record r' { value = [] }

module _ (env : Enricher) (range : Charges → Charges) (law : (m : Charges) → Shuffle (range m) m)
    (ev : EnrichedEvent) where
  -- Some result, which differs from `r` at most in the order of the events.
  abbrev IsSame : Option (Result (List EnrichedEvent)) → Result (List EnrichedEvent) → Type 0
  IsSame o r = (r' : Result (List EnrichedEvent)) × (o ≡ some r') × SameEvents r r'

  same :
      (o : Option (Result (List EnrichedEvent))) (r : Result (List EnrichedEvent))
      → o ≡ some r
      → IsSame o r
  same o r h = (r, h, record { events = Shuffle-refl r.value; others = refl })

  expand-IsSame :
      (fs : List FlatFilter) (r : Result (List EnrichedEvent))
      → expand env ev fs ≡ some r
      → IsSame (expand (ranging range law env) ev fs) r
  unfolding expand
  expand-IsSame [] r h = same (some (success_result (ev ∷ []))) r h
  expand-IsSame (f ∷ fs) r h =
      elim (Option-cases (charge_events env ev (env.range (index_by_charge [] (f ∷ fs))))) [
        | inl e ↦ cc (rw (expand, e) at h)
        | inr (es, e) ↦
            let (es', e', s) =
              charge_events-Shuffle env ev es
                (Permᴰ.trans (env.range-Shuffle (index_by_charge [] (f ∷ fs)))
                  (Shuffle-symm (law (index_by_charge [] (f ∷ fs)))))
                e in
            (
              success_result es',
              rw (expand, charge_events-ranging env range law ev, e') refl,
              subst (λ q. SameEvents q (success_result es')) (cc (rw (expand, e) at h))
                  (record { events = s; others = refl }),
            )
      ]

  charge_info-IsSame :
      (found : Result (List FlatFilter)) (r : Result (List EnrichedEvent))
      → charge_info env ev found ≡ some r
      → IsSame (charge_info (ranging range law env) ev found) r
  unfolding charge_info
  charge_info-IsSame found r h = elim (Bool-cases (failure found)) [
    | inl bad ↦ rw bad (same (some (failed_result_of found.err)) r (rw bad at h))
    | inr good ↦ rw good (expand-IsSame found.value r (rw good at h))
  ]

  charges_of-IsSame :
      (sub : Option Subscription) (r : Result (List EnrichedEvent))
      → charges_of env ev sub ≡ some r
      → IsSame (charges_of (ranging range law env) ev sub) r
  unfolding charges_of
  charges_of-IsSame none r h = same (some (success_result (ev ∷ []))) r h
  charges_of-IsSame (some sub) r h =
      charge_info-IsSame (fetch_flat_filters env.api_store ev.plan_id ev.code) r h

  -- Where the enrichment with charges ends without a panic, it does so whatever the order of Go's
  -- iteration over the map of charges is, with the same error, flags and details, and with the
  -- same events up to their order.
  pub enrich_with_charge_info-SameEvents :
      (r : Result (List EnrichedEvent))
      → enrich_with_charge_info env ev ≡ some r
      → (r' : Result (List EnrichedEvent)) × (enrich_with_charge_info (ranging range law env) ev
          ≡ some r')
        × SameEvents r r'
  unfolding enrich_with_charge_info
  enrich_with_charge_info-SameEvents r h = charges_of-IsSame ev.subscription r h
