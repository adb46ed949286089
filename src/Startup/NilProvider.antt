-- ===== src/Startup/NilProvider.antt =====
-- The start without an exporter for OpenTelemetry.
use lago_paiement_engine.Prelude.{◌≡◌, refl, sym, subst, ◌⊎◌, inl, inr, String}
use lago_paiement_engine.Utils.Result.{Error}
use lago_paiement_engine.Startup.{
  Opening, otel_exporter, Libraries, Ran, panicked, outcome_of, calls_of, Action, and_then,
  open_answer,
}
use lago_paiement_engine.Startup.Main.{with_options, with_provider, main}
use lago_paiement_engine.Startup.Serving.{Served}
use lago_paiement_engine.Tracing.Provider.{
  otel_provider, TracerProvider, variable, find_tracing_provider, init_tracer_provider_opts,
  nil_pointer, nil_on_error, with_exporter, new_otel_tracer_provider, new_tracer_provider,
  init_tracer_provider, stop,
}

module _ {W H : Type 0} where
  -- The run panics for a nil pointer, and starts no consumer group.
  abbrev pub PanicsEarly : Ran W H Unit → Type 0
  PanicsEarly r = (outcome_of r ≡ panicked nil_pointer) × (Served (calls_of r) → ⊥)

module _ {W H : Type 0} (lib : Libraries W H) where
  no_exporter :
      (o : Opening H) (message : String) (f : H → Action W H (TracerProvider H))
      (x : (Error ⊎ H) × W) (e : Error)
      → x.0 ≡ inl e
      → PanicsEarly (and_then (nil_on_error message (open_answer o x) f) (with_provider lib))
  unfolding with_provider with_options stop
  no_exporter o message f (inr h, w) e k = cc k
  no_exporter o message f (inl error, w) e k = (refl, never)
    where
      never : ⊥ ⊎ (⊥ ⊎ ⊥) → ⊥
      never (inl s) = s
      never (inr (inl s)) = s
      never (inr (inr s)) = s

  -- Where OpenTelemetry is chosen and its exporter cannot be made, the provider is a nil pointer in
  -- an interface that is not nil: `main` panics, and starts no consumer group.
  pub main-PanicsEarly :
      (w : W) (e : Error)
      → let opts = init_tracer_provider_opts lib.getenv otel_provider in
        find_tracing_provider lib.getenv (variable lib.getenv "TRACING_PROVIDER") ≡ otel_provider
        → (lib.opens (otel_exporter opts.secure_mode opts.provider_url) w).0 ≡ inl e
        → PanicsEarly (main lib w)
  unfolding main init_tracer_provider new_tracer_provider new_otel_tracer_provider
  main-PanicsEarly w e chosen refused =
      subst
        (λ p. PanicsEarly (
          and_then (new_tracer_provider lib p (init_tracer_provider_opts lib.getenv p) w)
            (with_provider lib)))
        (sym chosen) (no_exporter _ _ (with_exporter lib _) _ e refused)
