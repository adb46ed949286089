-- ===== src/Tracing/Choice.antt =====
-- Which provider of tracing is chosen, and its options.
use lago_paiement_engine.Prelude.{
  ◌≡◌, ◌≢◌, refl, sym, ◌∙◌, ◌↔◌, Bool, true, false, ◌⊎◌, inl, inr, [], String, eq_iff, codes,
  if◌then◌else◌,
}
use lago_paiement_engine.Utils.Env.{Runes, is_empty, runes_eq, get_env_as_bool}
use lago_paiement_engine.Startup.Options.{runes_eq_iff, is_empty_iff}
use lago_paiement_engine.Tracing.Provider.{
  otel_provider, datadog_provider, empty_provider, variable, find_tracing_provider,
}

-- The ladder of `findTracingProvider`, by its four tests.
abbrev ladder : Bool → Bool → Bool → Bool → String
ladder a b c e =
    if a
    then datadog_provider
    else if b
    then otel_provider
    else if c
    then datadog_provider
    else if e
    then empty_provider
    else otel_provider

datadog-otel : datadog_provider ≡ otel_provider → ⊥
datadog-otel h = cc ((eq_iff datadog_provider otel_provider).1 h)

empty-otel : empty_provider ≡ otel_provider → ⊥
empty-otel h = cc ((eq_iff empty_provider otel_provider).1 h)

empty-datadog : empty_provider ≡ datadog_provider → ⊥
empty-datadog h = cc ((eq_iff empty_provider datadog_provider).1 h)

IsDatadogChoice : Bool → Bool → Bool → Type 0
IsDatadogChoice a b c = (a ≡ true) ⊎ ((b ≡ false) × (c ≡ true))

IsOtelChoice : Bool → Bool → Bool → Bool → Type 0
IsOtelChoice a b c e = (b ≡ true) ⊎ ((a ≡ false) × (c ≡ false) × (e ≡ false))

ladder-datadog : (a b c e : Bool) → (ladder a b c e ≡ datadog_provider) ↔ IsDatadogChoice a b c
unfolding IsDatadogChoice
ladder-datadog true b c e = (λ h. inl refl, λ h. refl)
ladder-datadog false true c e =
    (λ h. absurd (datadog-otel (sym h)), λ h. elim h [ inl x ↦ cc x | inr x ↦ cc x.0 ])
ladder-datadog false false true e = (λ h. inr (refl, refl), λ h. refl)
ladder-datadog false false false true =
    (λ h. absurd (empty-datadog h), λ h. elim h [ inl x ↦ cc x | inr x ↦ cc x.1 ])
ladder-datadog false false false false =
    (λ h. absurd (datadog-otel (sym h)), λ h. elim h [ inl x ↦ cc x | inr x ↦ cc x.1 ])

ladder-otel :
    (a b c e : Bool)
    → (a ≡ true → b ≡ true → ⊥)
    → (ladder a b c e ≡ otel_provider) ↔ IsOtelChoice a b c e
unfolding IsOtelChoice
ladder-otel true b c e n =
    (λ h. absurd (datadog-otel h), λ h. elim h [ inl x ↦ absurd (n refl x) | inr x ↦ cc x.0 ])
ladder-otel false true c e n = (λ h. inl refl, λ h. refl)
ladder-otel false false true e n =
    (λ h. absurd (datadog-otel h), λ h. elim h [ inl x ↦ cc x | inr x ↦ cc x.1 ])
ladder-otel false false false true n =
    (λ h. absurd (empty-otel h), λ h. elim h [ inl x ↦ cc x | inr x ↦ cc x.2 ])
ladder-otel false false false false n = (λ h. inr (refl, refl, refl), λ h. refl)

-- A test that fails, from what it decides.
test_false : {P : Type 0} (b : Bool) → (b ≡ true) ↔ P → (b ≡ false) ↔ (P → ⊥)
test_false true i = (λ e p. cc e, λ n. absurd (n (i.0 refl)))
test_false false i = (λ e p. cc (i.1 p), λ n. refl)

names_differ : runes_eq (codes "datadog") (codes "opentelemetry") ≡ true → ⊥
names_differ e = cc e

module _ (getenv : Runes → Runes) where
  -- The older variables that name a provider.
  abbrev pub IsDatadogEnabled : Type 0
  IsDatadogEnabled = get_env_as_bool getenv (codes "DD_TRACE_ENABLED") false ≡ true

  abbrev pub HasEndpoint : Type 0
  HasEndpoint = variable getenv "OTEL_EXPORTER_OTLP_ENDPOINT" ≢ []

  -- Datadog is chosen by its name, or by the flag that enables it where OpenTelemetry is not named;
  -- OpenTelemetry by its name, or by its endpoint where Datadog is neither named nor enabled.
  pub find_tracing_provider_iff :
      (provider : Runes)
      → ((find_tracing_provider getenv provider ≡ datadog_provider) ↔ (
          (provider ≡ codes "datadog") ⊎ ((provider ≢ codes "opentelemetry") × IsDatadogEnabled)))
        × ((find_tracing_provider getenv provider ≡ otel_provider) ↔ (
            (provider ≡ codes "opentelemetry")
            ⊎ ((provider ≢ codes "datadog") × (IsDatadogEnabled → ⊥) × HasEndpoint)))
  unfolding find_tracing_provider IsDatadogChoice IsOtelChoice
  find_tracing_provider_iff provider =
      ((λ h. dd_of (d.0 h), λ h. d.1 (to_dd h)), (λ h. otel_of (o.0 h), λ h. o.1 (to_otel h)))
    where
      named_datadog : Bool
      named_datadog = runes_eq provider (codes "datadog")

      named_otel : Bool
      named_otel = runes_eq provider (codes "opentelemetry")

      enabled : Bool
      enabled = get_env_as_bool getenv (codes "DD_TRACE_ENABLED") false

      no_endpoint : Bool
      no_endpoint = is_empty (variable getenv "OTEL_EXPORTER_OTLP_ENDPOINT")

      is_datadog : (named_datadog ≡ true) ↔ (provider ≡ codes "datadog")
      is_datadog = runes_eq_iff provider (codes "datadog")

      is_otel : (named_otel ≡ true) ↔ (provider ≡ codes "opentelemetry")
      is_otel = runes_eq_iff provider (codes "opentelemetry")

      not_both : named_datadog ≡ true → named_otel ≡ true → ⊥
      not_both h k = names_differ ((runes_eq_iff _ _).1 (sym (is_datadog.0 h) ∙ is_otel.0 k))

      d :
          (ladder named_datadog named_otel enabled no_endpoint ≡ datadog_provider)
          ↔ IsDatadogChoice named_datadog named_otel enabled
      d = ladder-datadog named_datadog named_otel enabled no_endpoint

      o :
          (ladder named_datadog named_otel enabled no_endpoint ≡ otel_provider)
          ↔ IsOtelChoice named_datadog named_otel enabled no_endpoint
      o = ladder-otel named_datadog named_otel enabled no_endpoint not_both

      dd_of :
          IsDatadogChoice named_datadog named_otel enabled
          → (provider ≡ codes "datadog") ⊎ ((provider ≢ codes "opentelemetry") × IsDatadogEnabled)
      dd_of (inl x) = inl (is_datadog.0 x)
      dd_of (inr x) = inr ((test_false named_otel is_otel).0 x.0, x.1)

      to_dd :
          (provider ≡ codes "datadog") ⊎ ((provider ≢ codes "opentelemetry") × IsDatadogEnabled)
          → IsDatadogChoice named_datadog named_otel enabled
      to_dd (inl x) = inl (is_datadog.1 x)
      to_dd (inr x) = inr ((test_false named_otel is_otel).1 x.0, x.1)

      otel_of :
          IsOtelChoice named_datadog named_otel enabled no_endpoint
          → (provider ≡ codes "opentelemetry")
            ⊎ ((provider ≢ codes "datadog") × (IsDatadogEnabled → ⊥) × HasEndpoint)
      otel_of (inl x) = inl (is_otel.0 x)
      otel_of (inr x) = inr (
        (test_false named_datadog is_datadog).0 x.0,
        λ on. cc (on, x.1),
        (test_false no_endpoint (is_empty_iff _)).0 x.2,
      )

      to_otel :
          (provider ≡ codes "opentelemetry")
            ⊎ ((provider ≢ codes "datadog") × (IsDatadogEnabled → ⊥) × HasEndpoint)
          → IsOtelChoice named_datadog named_otel enabled no_endpoint
      to_otel (inl x) = inl (is_otel.1 x)
      to_otel (inr x) = inr (
        (test_false named_datadog is_datadog).1 x.0,
        (test_false enabled ((λ on. on), (λ on. on))).1 x.1,
        (test_false no_endpoint (is_empty_iff _)).1 x.2,
      )
