-- ===== src/Processors/Charges/Pricing.antt =====
-- The groups by the pricing keys of a filter (`enrichWithPricingGroupKeys`).
use lago_paiement_engine.Prelude.{
  ◌≡◌, ◌⊎◌, refl, ap, ◌∙◌, subst, true, false, Option, none, some, List, [], ◌∷◌, String, str_eq,
  eq_iff, if◌then◌else◌, Bool-cases, inl, inr, All, All-map, Some,
}
use lago_paiement_engine.Utils.Value.{sprint_v}
use lago_paiement_engine.Models.FlatFilter.{FlatFilter}
use lago_paiement_engine.Models.Event.{EnrichedEvent, Properties, get_property, insert, lookup_text}
use lago_paiement_engine.Processors.Enricher.{Enricher}
use lago_paiement_engine.Processors.Charges.{
  group_by, grouped_by_keys, enrich_with_pricing_group_keys, charge_event,
}

lookup_text-insert_same :
    (k v : String) (m : List (String × String)) → lookup_text k (insert k v m) ≡ v
unfolding lookup_text insert
lookup_text-insert_same k v [] = rw ((eq_iff k k).1 refl) refl
lookup_text-insert_same k v ((j, w) ∷ m) = elim (Bool-cases (str_eq j k)) [
  | inl same ↦ rw (same, same) refl
  | inr differ ↦ rw (differ, differ) (lookup_text-insert_same k v m)
]

lookup_text-insert_other :
    (k j v : String) (m : List (String × String))
    → str_eq k j ≡ false
    → lookup_text j (insert k v m) ≡ lookup_text j m
unfolding lookup_text insert
lookup_text-insert_other k j v [] differ = rw differ refl
lookup_text-insert_other k j v ((i, w) ∷ m) differ = elim (Bool-cases (str_eq i k)) [
  | inl same ↦ rw (same, ap (λ x. str_eq x j) ((eq_iff i k).0 same) ∙ differ) refl
  | inr other ↦
      rw other (ap (λ r. if str_eq i j then w else r) (lookup_text-insert_other k j v m differ))
]

insert-All :
    (P : String → Type 0) (k v : String) (m : List (String × String))
    → P k
    → All (λ e. P e.0) m
    → All (λ e. P e.0) (insert k v m)
unfolding insert
insert-All P k v [] p h = (p, tt)
insert-All P k v ((j, w) ∷ m) p h = elim (Bool-cases (str_eq j k)) [
  | inl same ↦ rw same h
  | inr differ ↦ rw differ (h.0, insert-All P k v m p h.1)
]

module _ (env : Enricher) (properties : Properties) where
  abbrev text : String → String
  text k = sprint_v env.floats (get_property properties k)

  group_by-lookup :
      (k : String) (g : List (String × String)) (keys : List String)
      → Some (λ x. x ≡ k) keys ⊎ (lookup_text k g ≡ text k)
      → lookup_text k (group_by env properties g keys) ≡ text k
  unfolding group_by
  group_by-lookup k g [] (inl s) = absurd s
  group_by-lookup k g [] (inr e) = e
  group_by-lookup k g (key ∷ keys) h =
      group_by-lookup k (insert key (text key) g) keys (next (Bool-cases (str_eq key k)) h)
    where
      next :
          (str_eq key k ≡ true) ⊎ (str_eq key k ≡ false)
          → Some (λ x. x ≡ k) (key ∷ keys) ⊎ (lookup_text k g ≡ text k)
          → Some (λ x. x ≡ k) keys ⊎ (lookup_text k (insert key (text key) g) ≡ text k)
      next (inl same) h = inr (
          subst (λ j. lookup_text j (insert key (text key) g) ≡ text j) ((eq_iff key k).0 same)
            (lookup_text-insert_same key (text key) g))
      next (inr differ) (inl (inl e)) = absurd (clash e)
        where
          clash : key ≡ k → ⊥
          clash e = cc (differ, (eq_iff key k).1 e)
      next (inr differ) (inl (inr s)) = inl s
      next (inr differ) (inr e) = inr (lookup_text-insert_other key k (text key) g differ ∙ e)

  group_by-All :
      (P : String → Type 0) (g : List (String × String)) (keys : List String)
      → All P keys
      → All (λ e. P e.0) g
      → All (λ e. P e.0) (group_by env properties g keys)
  unfolding group_by
  group_by-All P g [] p h = h
  group_by-All P g (key ∷ keys) p h =
      group_by-All P (insert key (text key) g) keys p.1 (insert-All P key (text key) g p.0 h)

  -- Without pricing keys there are no groups; with them each key has the printed property, and
  -- there is no other key.
  abbrev pub IsGrouped : Option (List String) → List (String × String) → Type 0
  IsGrouped none g = g ≡ []
  IsGrouped (some keys) g =
      All (λ k. lookup_text k g ≡ text k) keys × All (λ e. Some (λ k. k ≡ e.0) keys) g

  members : (keys : List String) → All (λ k. Some (λ j. j ≡ k) keys) keys
  members [] = tt
  members (k ∷ keys) = (inl refl, All-map keys (λ j s. inr s) (members keys))

  group_by-IsGrouped :
      (keys : List String) → IsGrouped (some keys) (group_by env properties [] keys)
  group_by-IsGrouped keys = (
    All-map keys (λ k s. group_by-lookup k [] keys (inl s)) (members keys),
    group_by-All (λ j. Some (λ k. k ≡ j) keys) [] keys (members keys) tt,
  )

module _ (env : Enricher) (ev : EnrichedEvent) where
  -- The event with the data of the filter and its charge, and with the filter's groups.
  abbrev pub IsCopy : FlatFilter → EnrichedEvent → Type 0
  IsCopy filter e =
      (g : List (String × String)) × (e ≡ record ev {
        grouped_by = g;
        flat_filter = some filter;
        charge_id = some filter.charge_id;
        charge_updated_at = some filter.charge_updated_at;
        charge_filter_id = filter.charge_filter_id;
        charge_filter_updated_at = filter.charge_filter_updated_at;
      })
      × IsGrouped env ev.properties filter.pricing_group_keys g

  pub charge_event-IsCopy : (filter : FlatFilter) → IsCopy filter (charge_event env ev filter)
  unfolding charge_event enrich_with_pricing_group_keys grouped_by_keys
  charge_event-IsCopy filter = by_keys filter.pricing_group_keys
    where
      copied : List (String × String) → EnrichedEvent
      copied g = record ev {
        grouped_by = g;
        flat_filter = some filter;
        charge_id = some filter.charge_id;
        charge_updated_at = some filter.charge_updated_at;
        charge_filter_id = filter.charge_filter_id;
        charge_filter_updated_at = filter.charge_filter_updated_at;
      }

      by_keys :
          (o : Option (List String))
          → (g : List (String × String)) × (grouped_by_keys env (copied []) o ≡ copied g)
            × IsGrouped env ev.properties o g
      by_keys none = ([], refl, refl)
      by_keys (some keys) = (_, refl, group_by-IsGrouped env ev.properties keys)
