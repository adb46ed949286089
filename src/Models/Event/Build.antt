-- ===== src/Models/Event/Build.antt =====
-- What `ToEnrichedEvent` builds.
use lago_paiement_engine.Prelude.{◌≡◌, ◌⊎◌, refl, true, Option, some, inl, inr, Bool-cases}
use lago_paiement_engine.Utils.Result.{Result, failure}
use lago_paiement_engine.Utils.Float.{Floats}
use lago_paiement_engine.Utils.Time.{to_time, to_float64_timestamp}
use lago_paiement_engine.Models.Event.{Event, EnrichedEvent, enriched, to_enriched_event}

-- The event was read, and it stands behind its enriched copy, which has its properties.
abbrev pub IsBuilt : Event → Result (Option EnrichedEvent) → Type 0
IsBuilt event r =
    (failure r ≡ true)
    ⊎ ((ev : EnrichedEvent) × (r.value ≡ some ev)
        × (ev.initial_event ≡ event)
        × (ev.properties ≡ event.properties))

pub to_enriched_event-IsBuilt :
    (fl : Floats) (event : Event) → IsBuilt event (to_enriched_event fl event)
unfolding to_enriched_event enriched
to_enriched_event-IsBuilt fl event =
    elim (Bool-cases (failure (to_float64_timestamp fl event.timestamp))) [
      | inl bad ↦ rw (to_enriched_event, bad) (inl bad)
      | inr good ↦ elim (Bool-cases (failure (to_time fl event.timestamp))) [
        | inl late ↦ rw (to_enriched_event, good, late) (inl late)
        | inr read ↦ rw (to_enriched_event, good, read) (inr (_, refl, refl, refl))
      ]
    ]
