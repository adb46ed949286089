-- ===== src/Processors/Charges/First.antt =====
-- Which event comes first where Go's iteration over the map of charges has its free choice.
use mathlib.Core.List.{Permᴰ}
use lago_paiement_engine.Prelude.{
  ◌≡◌, ◌⊎◌, refl, ap, ◌∙◌, subst, some, List, [], ◌∷◌, String, Bool, false, not, keep, ◌++◌, str_eq,
  eq_iff, Bool-cases, inl, inr, Shuffle, Shuffle-refl, Shuffle-symm, Some, All-Some,
}
use lago_paiement_engine.Utils.Result.{success_result}
use lago_paiement_engine.Models.FlatFilter.{FlatFilter}
use lago_paiement_engine.Models.Subscription.{Subscription}
use lago_paiement_engine.Models.Event.{EnrichedEvent}
use lago_paiement_engine.Models.ApiStore.{fetch_flat_filters}
use lago_paiement_engine.Processors.Enricher.{Charges, Enricher}
use lago_paiement_engine.Processors.Charges.{
  index_by_charge, expand, charge_info, charges_of, enrich_with_charge_info,
}
use lago_paiement_engine.Processors.Charges.Grouping.{
  HasCharge, index_by_charge-IsIndex, IsIndex-Shuffle,
}
use lago_paiement_engine.Processors.Charges.Expansion.{Expands, charge_events-Expands}
use lago_paiement_engine.Processors.Charges.Order.{ranging}

module _ {A : Type 0} (test : A → Bool) where
  Shuffle-middle : (x : A) (xs ys : List A) → Shuffle (xs ++ x ∷ ys) (x ∷ xs ++ ys)
  Shuffle-middle x [] ys = Shuffle-refl (x ∷ ys)
  Shuffle-middle x (y ∷ xs) ys =
      Permᴰ.trans (Permᴰ.cons refl (Shuffle-middle x xs ys)) (Permᴰ.swap refl refl)

  -- The elements that pass the test, and then the others.
  abbrev passing_first : List A → List A
  passing_first xs = keep test xs ++ keep (λ x. not (test x)) xs

  passing_first-Shuffle : (xs : List A) → Shuffle (passing_first xs) xs
  passing_first-Shuffle [] = Permᴰ.nil
  passing_first-Shuffle (x ∷ xs) = elim (Bool-cases (test x)) [
    | inl passes ↦ rw passes (Permᴰ.cons refl (passing_first-Shuffle xs))
    | inr fails ↦ rw fails (
        Permᴰ.trans (Shuffle-middle x (keep test xs) (keep (λ y. not (test y)) xs))
          (Permᴰ.cons refl (passing_first-Shuffle xs)))
  ]

-- An order of iteration that begins with the charge `c`.
abbrev pub beginning_with : String → Charges → Charges
beginning_with c = passing_first (λ e. str_eq e.0 c)

pub beginning_with-Shuffle : (c : String) (m : Charges) → Shuffle (beginning_with c m) m
beginning_with-Shuffle c m = passing_first-Shuffle (λ e. str_eq e.0 c) m

-- The map is not empty, and `c` is its first charge.
Begins : String → Charges → Type 0
Begins c m = (fs : List FlatFilter) × (rest : Charges) × (m ≡ (c, fs) ∷ rest)

keep-Begins :
    (c : String) (m others : Charges)
    → HasCharge c m
    → Begins c (keep (λ e. str_eq e.0 c) m ++ others)
unfolding Begins
keep-Begins c [] others h = absurd h
keep-Begins c ((k, fs) ∷ m) others h = elim (Bool-cases (str_eq k c)) [
  | inl same ↦ rw same (
    fs,
    keep (λ e. str_eq e.0 c) m ++ others,
    ap (λ j. (j, fs) ∷ keep (λ e. str_eq e.0 c) m ++ others) ((eq_iff k c).0 same),
  )
  | inr differ ↦ rw differ (keep-Begins c m others (later differ h))
]
  where
    later : str_eq k c ≡ false → (k ≡ c) ⊎ HasCharge c m → HasCharge c m
    later differ (inl e) = cc (differ, (eq_iff k c).1 e)
    later differ (inr s) = s

module _ (env : Enricher) (ev : EnrichedEvent) (c : String) where
  abbrev first_env : Enricher
  first_env = ranging (beginning_with c) (beginning_with-Shuffle c) env

  -- The first event is that of the charge.
  head-charge_id :
      (filters : List FlatFilter) (m : Charges) (es : List EnrichedEvent)
      → Begins c m
      → Expands first_env ev filters m es
      → (e : EnrichedEvent) × (rest : List EnrichedEvent) × (es ≡ e ∷ rest) × (e.charge_id ≡ some c)
  unfolding Begins
  head-charge_id filters [] es b h = cc (b.2)
  head-charge_id filters ((k, gs) ∷ m) [] b h = absurd h
  head-charge_id filters ((k, gs) ∷ m) (e ∷ es) b h = (e, es, refl, h.0.charge ∙ ap some (cc (b.2)))

  first_expanded :
      (f : FlatFilter) (fs : List FlatFilter)
      → Some (λ g. g.charge_id ≡ c) (f ∷ fs)
      → (e : EnrichedEvent) × (es : List EnrichedEvent) × (expand first_env ev (f ∷ fs)
          ≡ some (success_result (e ∷ es)))
        × (e.charge_id ≡ some c)
  unfolding expand
  first_expanded f fs s =
      let index = index_by_charge-IsIndex (f ∷ fs) in
      let m = index_by_charge [] (f ∷ fs) in
      let there : HasCharge c m =
        All-Some (f ∷ fs)
          (λ g (h : HasCharge g.charge_id m) (e : g.charge_id ≡ c). subst (λ k. HasCharge k m) e h)
          index.covers s in
      let ordered = IsIndex-Shuffle (Shuffle-symm (beginning_with-Shuffle c m)) index in
      let (es, made, h) =
        charge_events-Expands first_env ev (f ∷ fs) (beginning_with c m) ordered.groups
          ordered.nonempty in
      let (e, rest, split, charge) =
        head-charge_id (f ∷ fs) (beginning_with c m) es
          (keep-Begins c m (keep (λ x. not (str_eq x.0 c)) m) there) h in
      (e, rest, rw (expand, made) (ap (λ l. some (success_result l)) split), charge)

  -- For an event with a subscription, when the filters of its plan and metric are found and one of
  -- them belongs to the charge `c`: where Go's iteration over the map of charges begins with `c`,
  -- the first event is the one of this charge.
  pub enrich_with_charge_info-first :
      (sub : Subscription) (f : FlatFilter) (fs : List FlatFilter)
      → ev.subscription ≡ some sub
      → fetch_flat_filters env.api_store ev.plan_id ev.code ≡ success_result (f ∷ fs)
      → Some (λ g. g.charge_id ≡ c) (f ∷ fs)
      → (e : EnrichedEvent) × (es : List EnrichedEvent) × (enrich_with_charge_info
            (ranging (beginning_with c) (beginning_with-Shuffle c) env)
            ev
          ≡ some (success_result (e ∷ es)))
        × (e.charge_id ≡ some c)
  unfolding enrich_with_charge_info charges_of charge_info
  enrich_with_charge_info-first sub f fs has found s =
      let (e, es, made, charge) = first_expanded f fs s in
      (e, es, ap (charges_of first_env ev) has ∙ ap (charge_info first_env ev) found ∙ made, charge)
