-- ===== src/Models/Matching/Decides.antt =====
-- The tests of `IsMatchingEvent` decide what it means that an event matches a filter.
use lago_paiement_engine.Prelude.{
  ◌≡◌, ◌≢◌, ◌↔◌, inl, inr, refl, true, false, not, none, List, [], ◌∷◌, arith, ltb, length, All,
  Some, str_eq, if◌then◌else◌, Bool-cases, String, eq_iff,
}
use lago_paiement_engine.Utils.Result.{success_result}
use lago_paiement_engine.Utils.Float.{Floats}
use lago_paiement_engine.Utils.Value.{Value, nil, sprint_v}
use lago_paiement_engine.Models.FlatFilter.{FlatFilter, entries, has_filters}
use lago_paiement_engine.Models.Event.{Properties, get_property, EnrichedEvent}
use lago_paiement_engine.Models.Matching.{
  contains, is_nil_value, entry_matches, all_match, is_matching_event, selects,
}

contains→Some : (xs : List String) (s : String) → contains xs s ≡ true → Some (λ x. x ≡ s) xs
unfolding contains
contains→Some [] s h = cc
contains→Some (x ∷ xs) s h = elim (Bool-cases (str_eq x s)) [
  | inl same ↦ inl ((eq_iff x s).0 same)
  | inr other ↦ inr (contains→Some xs s (ground arith))
]

Some→contains : (xs : List String) (s : String) → Some (λ x. x ≡ s) xs → contains xs s ≡ true
unfolding contains
Some→contains [] s h = absurd h
Some→contains (x ∷ xs) s (inl e) = rw ((eq_iff x s).1 e)
Some→contains (x ∷ xs) s (inr h) = ground (arith, Some→contains xs s h)

is_nil_value→ne : (v : Value) → is_nil_value v ≡ false → v ≢ nil
is_nil_value→ne nil h e = cc
is_nil_value→ne _ h e = cc

ne→is_nil_value : (v : Value) → v ≢ nil → is_nil_value v ≡ false
ne→is_nil_value nil h = absurd (h refl)
ne→is_nil_value _ h = refl

module _ (fl : Floats) (properties : Properties) where
  -- The event has the property, and its printed value is among the listed ones.
  abbrev pub EntryMatches : String × List String → Type 0
  EntryMatches e =
      (get_property properties e.0 ≢ nil)
      × Some (λ s. s ≡ sprint_v fl (get_property properties e.0)) e.1

  entry_matches→ :
      (e : String × List String) → entry_matches fl properties e ≡ true → EntryMatches e
  unfolding entry_matches
  entry_matches→ (key, values) h =
      (is_nil_value→ne _ (ground arith), contains→Some values _ (ground arith))

  entry_matches← :
      (e : String × List String) → EntryMatches e → entry_matches fl properties e ≡ true
  unfolding entry_matches
  entry_matches← (key, values) (there, listed) =
      rw (ne→is_nil_value _ there, Some→contains values _ listed)

  entries-matched :
      (es : List (String × List String)) → all_match fl properties es ≡ true → All EntryMatches es
  unfolding all_match
  entries-matched [] h = tt
  entries-matched (e ∷ es) h = (entry_matches→ e (ground arith), entries-matched es (ground arith))

  matched-entries :
      (es : List (String × List String)) → All EntryMatches es → all_match fl properties es ≡ true
  unfolding all_match
  matched-entries [] h = refl
  matched-entries (e ∷ es) h = rw (entry_matches← e h.0, matched-entries es h.1)

not_empty : {A : Type 0} (xs : List A) → (ltb 0 (length xs) ≡ true) ↔ (xs ≢ [])
not_empty [] = (λ h. absurd (ground arith), λ h. absurd (h refl))
not_empty (x ∷ xs) = (λ h e. cc, λ h. ground arith)

module _ (fl : Floats) (event : EnrichedEvent) where
  -- The filter has entries, and the event matches each of them.
  abbrev pub Matches : FlatFilter → Type 0
  Matches f = (entries f.filters ≢ []) × All (EntryMatches fl event.properties) (entries f.filters)

  matches_tests :
      (f : FlatFilter)
      → selects fl event f ≡ true
      → (has_filters f ≡ true) × (all_match fl event.properties (entries f.filters) ≡ true)
  unfolding is_matching_event
  matches_tests f h = ground arith

  pub selects→Matches : (f : FlatFilter) → selects fl event f ≡ true → Matches f
  unfolding has_filters
  selects→Matches f h =
      let t = matches_tests f h in
      (
        (not_empty (entries f.filters)).0 t.0,
        entries-matched fl event.properties (entries f.filters) t.1,
      )

  pub Matches→selects : (f : FlatFilter) → Matches f → selects fl event f ≡ true
  unfolding is_matching_event has_filters
  Matches→selects f (some', each) = rw (
    (not_empty (entries f.filters)).1 some',
    matched-entries fl event.properties (entries f.filters) each,
  )

  guarded_all_match :
      (es : List (String × List String))
      → (if not (ltb 0 (length es))
          then success_result true
          else success_result (all_match fl event.properties es))
        ≡ success_result (all_match fl event.properties es)
  unfolding all_match
  guarded_all_match [] = refl
  guarded_all_match (e ∷ es) = ground arith

  -- The result of `IsMatchingEvent` is no failure, and it is true exactly when the event has, for
  -- each entry of the filter, a property that is not nil and whose printed value is listed.
  pub is_matching_event_iff :
      (f : FlatFilter)
      → ((is_matching_event fl f event).err ≡ none)
        × (((is_matching_event fl f event).value ≡ true)
            ↔ All (EntryMatches fl event.properties) (entries f.filters))
  unfolding is_matching_event has_filters
  is_matching_event_iff f = rw (guarded_all_match (entries f.filters)) (
    refl,
    (
      entries-matched fl event.properties (entries f.filters),
      matched-entries fl event.properties (entries f.filters),
    ),
  )
