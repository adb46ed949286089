-- ===== src/Tests/Tracing.antt =====
-- Tracing, at sample spans and environments.
use lago_paiement_engine.Prelude.{
  ℕ, ◌≡◌, ◌≢◌, ◌↔◌, ◌⊎◌, refl, [], ◌∷◌, ◌++◌, inl, inr, codes, All, List, String, eq_iff, collect,
}
use lago_paiement_engine.Prelude.Int.{pos}
use lago_paiement_engine.Utils.Env.{Runes}
use lago_paiement_engine.Utils.Value.{string, int, nil}
use lago_paiement_engine.Tracing.Span.{
  Entries, SpanOp, set_attribute, set_attributes, set_error, end_span, otel_tracer, datadog_tracer,
  attribute_value, start_span, perform,
}
use lago_paiement_engine.Tracing.Writes.{option_map}
use lago_paiement_engine.Tracing.Tags.{tag_options}
use lago_paiement_engine.Tracing.Attributes.{
  otel_attribute, datadog_attribute, attribute_of, HasMaps, IsErrorKey,
}
use lago_paiement_engine.Tracing.Backends.{
  IsRange, Shuffle-refl, otel_span-Refines, datadog_span-Refines,
}
use lago_paiement_engine.Tracing.Provider.{datadog_provider, otel_provider, find_tracing_provider}
use lago_paiement_engine.Tracing.Choice.{IsDatadogEnabled, HasEndpoint, find_tracing_provider_iff}
use lago_paiement_engine.Tests.Data.{whole_floats}

in_order : IsRange (λ m. m)
in_order m h = Shuffle-refl m

abbrev context_after : Runes → ℕ → String → ℕ
context_after name ctx operation = ctx

abbrev tags : Entries
tags = ("topic", string "raw") ∷ ("topic", string "events") ∷ []

abbrev ops : List SpanOp
ops =
    set_attributes (("records", int (pos 3)) ∷ ("partition", nil) ∷ [])
    ∷ set_error (record { message = "timeout" })
    ∷ set_attribute "records" (int (pos 4))
    ∷ end_span
    ∷ []

ops-HasMaps : All HasMaps ops
ops-HasMaps = ((refl, (refl, tt)), (tt, (tt, (tt, tt))))

otel_span-Refines_example :
    let (span, started) =
      start_span whole_floats
        (λ m. m)
        context_after
        context_after
        (otel_tracer (codes "lago"))
        0
        "consume"
        (tag_options tags) in
    otel_attribute
      (started ++ collect (perform whole_floats (λ m. m) context_after context_after span) ops)
      "records"
    ≡ option_map (attribute_value whole_floats) (attribute_of tags ops "records")
otel_span-Refines_example =
    otel_span-Refines whole_floats (λ m. m) in_order "records" context_after context_after
      (codes "lago") 0 "consume" tags ops ops-HasMaps

no_error_key : IsErrorKey "records" → ⊥
no_error_key (inl e) = cc ((eq_iff "records" "error").1 e)
no_error_key (inr (inl e)) = cc ((eq_iff "records" "error.msg").1 e)
no_error_key (inr (inr e)) = cc ((eq_iff "records" "error.type").1 e)

datadog_span-Refines_example :
    let (span, started) =
      start_span whole_floats
        (λ m. m)
        context_after
        context_after
        (datadog_tracer (codes "lago"))
        0
        "consume"
        (tag_options tags) in
    datadog_attribute
      (started ++ collect (perform whole_floats (λ m. m) context_after context_after span) ops)
      "records"
    ≡ attribute_of tags ops "records"
datadog_span-Refines_example =
    datadog_span-Refines whole_floats (λ m. m) in_order "records" context_after context_after
      (codes "lago") 0 "consume" tags ops no_error_key ops-HasMaps

-- Every variable is "true".
abbrev all_true : Runes → Runes
all_true key = codes "true"

find_tracing_provider_iff_example :
    ((find_tracing_provider all_true [] ≡ datadog_provider)
      ↔ (([] ≡ codes "datadog") ⊎ (([] ≢ codes "opentelemetry") × IsDatadogEnabled all_true)))
    × ((find_tracing_provider all_true [] ≡ otel_provider) ↔ (
        ([] ≡ codes "opentelemetry")
        ⊎ (([] ≢ codes "datadog") × (IsDatadogEnabled all_true → ⊥) × HasEndpoint all_true)))
find_tracing_provider_iff_example = find_tracing_provider_iff all_true []
