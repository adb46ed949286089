-- ===== src/Models/Matching/Best.antt =====
-- `MatchingFilter` returns the first of the matching filters with the most keys, or the default
-- bucket of the first filter.
use lago_paiement_engine.Prelude.{
  ℕ, ◌≤◌, ◌<◌, ◌≡◌, ◌⊎◌, inl, inr, refl, ap, ◌∙◌, sym, subst, true, false, some, List, [], ◌∷◌,
  ◌++◌, arith, ltb, length, All, All_middle, keep, Bool-cases, String,
}
use lago_paiement_engine.Utils.Float.{Floats}
use lago_paiement_engine.Models.FlatFilter.{FlatFilter, keys, to_default_filter}
use lago_paiement_engine.Models.Event.{EnrichedEvent}
use lago_paiement_engine.Models.Matching.{selects, better, best_filter, best_match, matching_filter}
use lago_paiement_engine.Models.Matching.Decides.{Matches, selects→Matches, Matches→selects}

abbrev pub key_count : FlatFilter → ℕ
key_count f = length (keys f.filters)

module _ {A : Type 0} where
  -- `xs` is `before`, then `here`, then `after`; `T` holds of `here`.
  pub record Split (T : A → Type 0) (xs : List A) (P Q : A → Type 0) (here : A) : Type 0 where
    pub before : List A
    pub after : List A
    pub splits : xs ≡ before ++ here ∷ after
    pub chosen : T here
    pub earlier : All (λ x. T x → P x) before
    pub later : All (λ x. T x → Q x) after

  module _ {T P Q : A → Type 0} {here : A} where
    Split-here : (xs : List A) → T here → All (λ x. T x → Q x) xs → Split T (here ∷ xs) P Q here
    Split-here xs t q = record {
      before = [];
      after = xs;
      splits = refl;
      chosen = t;
      earlier = tt;
      later = q;
    }

    Split-cons :
        (x : A) {xs : List A} → (T x → P x) → Split T xs P Q here → Split T (x ∷ xs) P Q here
    Split-cons x p s = record {
      before = x ∷ s.before;
      after = s.after;
      splits = ap (◌∷◌ x) s.splits;
      chosen = s.chosen;
      earlier = (p, s.earlier);
      later = s.later;
    }

module _ (fl : Floats) (event : EnrichedEvent) where
  -- The filter is in the list and matches; those before it that match have fewer keys, and those
  -- behind it that match have no more.
  abbrev pub IsFirstBest : List FlatFilter → FlatFilter → Type 0
  IsFirstBest filters best =
      Split (Matches fl event) filters (λ f. key_count f < key_count best)
        (λ f. key_count f ≤ key_count best) best

  -- What the loop returns for `filters` if it holds `b` before them.
  abbrev Holds : FlatFilter → List FlatFilter → FlatFilter → Type 0
  Holds b filters best =
      ((best ≡ b) × All (λ f. Matches fl event f → key_count f ≤ key_count b) filters)
      ⊎ ((key_count b < key_count best) × IsFirstBest filters best)

  Holds-here :
      (f : FlatFilter) (fs : List FlatFilter) (r : FlatFilter)
      → Matches fl event f
      → Holds f fs r
      → IsFirstBest (f ∷ fs) r
  Holds-here f fs r t (inl (e, le)) =
      subst (λ g. IsFirstBest (f ∷ fs) g) (sym e) (Split-here fs t le)
  Holds-here f fs r t (inr (lt, s)) = Split-cons f (λ _. lt) s

  Holds-take :
      (b f : FlatFilter) (fs : List FlatFilter) (r : FlatFilter)
      → Matches fl event f
      → key_count b < key_count f
      → Holds f fs r
      → Holds b (f ∷ fs) r
  Holds-take b f fs r t more h = inr (lt_of h, Holds-here f fs r t h)
    where
      lt_of : Holds f fs r → key_count b < key_count r
      lt_of (inl (e, le)) = rw e more
      lt_of (inr (lt, s)) = omega arith

  Holds-pass :
      (b f : FlatFilter) (fs : List FlatFilter) (r : FlatFilter)
      → (Matches fl event f → key_count f ≤ key_count b)
      → Holds b fs r
      → Holds b (f ∷ fs) r
  Holds-pass b f fs r fewer (inl (e, le)) = inl (e, (fewer, le))
  Holds-pass b f fs r fewer (inr (lt, s)) = inr (lt, Split-cons f (λ t. lt_of (fewer t)) s)
    where
      lt_of : key_count f ≤ key_count b → key_count f < key_count r
      lt_of h = omega arith

  unmatched : (f : FlatFilter) → selects fl event f ≡ false → Matches fl event f → ⊥
  unmatched f other m = cc (other, Matches→selects fl event f m)

  better-Holds :
      (b f x r : FlatFilter) (fs : List FlatFilter)
      → selects fl event f ≡ true
      → better fl (some b) f ≡ x
      → best_filter fl (some x) (keep (selects fl event) fs) ≡ some r
      → best_filter fl (some b) (keep (selects fl event) (f ∷ fs)) ≡ some r
  unfolding best_filter
  better-Holds b f x r fs chosen e h =
      rw chosen
        (subst (λ y. best_filter fl (some y) (keep (selects fl event) fs) ≡ some r) (sym e) h)

  best_filter-Holds :
      (filters : List FlatFilter) (b : FlatFilter)
      → (r : FlatFilter) × (best_filter fl (some b) (keep (selects fl event) filters) ≡ some r)
        × Holds b filters r
  unfolding best_filter better
  best_filter-Holds [] b = (b, refl, inl (refl, tt))
  best_filter-Holds (f ∷ fs) b = elim (Bool-cases (selects fl event f)) [
    | inl chosen ↦ elim (Bool-cases (ltb (key_count b) (key_count f))) [
      | inl more ↦
          let (r, e, h) = best_filter-Holds fs f in
          (
            r,
            better-Holds b f f r fs chosen (rw more) e,
            Holds-take b f fs r (selects→Matches fl event f chosen) (ground arith) h,
          )
      | inr fewer ↦
          let (r, e, h) = best_filter-Holds fs b in
          (
            r,
            better-Holds b f b r fs chosen (rw fewer) e,
            Holds-pass b f fs r (λ _. ground arith) h,
          )
    ]
    | inr other ↦
        let (r, e, h) = best_filter-Holds fs b in
        (r, rw other e, Holds-pass b f fs r (λ m. absurd (unmatched f other m)) h)
  ]

  -- No filter matches and the result is the first filter's default bucket, or it is the first best.
  abbrev pub IsBestMatch : FlatFilter → List FlatFilter → FlatFilter → Type 0
  IsBestMatch first filters r =
      (All (λ f. Matches fl event f → ⊥) filters × (r ≡ to_default_filter first))
      ⊎ IsFirstBest filters r

  best_match-IsBestMatch :
      (first : FlatFilter) (filters : List FlatFilter)
      → (r : FlatFilter) × (best_match fl first (keep (selects fl event) filters) ≡ some r)
        × IsBestMatch first filters r
  unfolding best_match best_filter better
  best_match-IsBestMatch first [] = (to_default_filter first, refl, inl (tt, refl))
  best_match-IsBestMatch first (f ∷ fs) = elim (Bool-cases (selects fl event f)) [
    | inl chosen ↦
        let (r, e, h) = best_filter-Holds fs f in
        (r, rw chosen e, inr (Holds-here f fs r (selects→Matches fl event f chosen) h))
    | inr other ↦
        let (r, e, h) = best_match-IsBestMatch first fs in (r, rw other e, later f other r h)
  ]
    where
      later :
          (f : FlatFilter)
          → selects fl event f ≡ false
          → (r : FlatFilter) → IsBestMatch first fs r
          → IsBestMatch first (f ∷ fs) r
      later f other r (inl (no', e)) = inl ((unmatched f other, no'), e)
      later f other r (inr s) = inr (Split-cons f (λ m. absurd (unmatched f other m)) s)

  -- `MatchingFilter` returns a filter for every list that is not empty: of the filters that match
  -- the event the first with the most keys, or, where none matches, the default bucket of the
  -- first filter of the list.
  pub matching_filter-IsBestMatch :
      (first : FlatFilter) (rest : List FlatFilter)
      → (r : FlatFilter) × (matching_filter fl (first ∷ rest) event ≡ some r)
        × IsBestMatch first (first ∷ rest) r
  unfolding matching_filter best_match best_filter better
  matching_filter-IsBestMatch first (second ∷ rest) =
      best_match-IsBestMatch first (first ∷ second ∷ rest)
  matching_filter-IsBestMatch first [] = elim (Bool-cases (selects fl event first)) [
    | inl chosen ↦
        (first, rw chosen, inr (Split-here [] (selects→Matches fl event first chosen) tt))
    | inr other ↦ (to_default_filter first, rw other, inl ((unmatched first other, tt), refl))
  ]

  -- What all filters share with the first one and `to_default_filter` keeps.
  pub charge_id-IsBestMatch :
      (c : String) (first : FlatFilter) (filters : List FlatFilter) (r : FlatFilter)
      → first.charge_id ≡ c
      → All (λ f. f.charge_id ≡ c) filters
      → IsBestMatch first filters r
      → r.charge_id ≡ c
  unfolding to_default_filter
  charge_id-IsBestMatch c first filters r e h (inl (no', d)) = ap (λ f. f.charge_id) d ∙ e
  charge_id-IsBestMatch c first filters r e h (inr s) =
      All_middle (λ f. f.charge_id ≡ c) s.before s.after
        (subst (All (λ f. f.charge_id ≡ c)) s.splits h)
