-- ===== src/Tracing/Provider.antt =====
-- The provider of tracing that the environment asks for (events-processor/config/tracing:
-- tracer.go, and the providers of otel_tracer.go, datadog_tracer.go and empty_tracer.go).
use lago_paiement_engine.Prelude.{
  Bool, false, not, Option, none, some, [], ◌∷◌, ◌++◌, String, str_eq, codes, if◌then◌else◌,
}
use lago_paiement_engine.Utils.Env.{Runes, is_empty, runes_eq, get_env_as_bool, get_env_or_default}
use lago_paiement_engine.Startup.{
  log_error, otel_exporter, otel_resource, shut_down_exporter, set_otel_provider, start_datadog,
  stop_datadog, Libraries, Ran, ran, returned, failed, panicked, Action, pure, after_calls, ◌>>◌,
  ask, obtain, tell,
}
use lago_paiement_engine.Tracing.Span.{Tracer, otel_tracer, datadog_tracer, empty_tracer}

-- `TracingProvider`
abbrev pub otel_provider : String
otel_provider = "opentelemetry"

abbrev pub datadog_provider : String
datadog_provider = "datadog"

abbrev pub empty_provider : String
empty_provider = "none"

-- `TracerProviderOptions`
pub record TracerProviderOptions : Type 0 where
  pub env : Runes
  pub service_name : Runes
  pub provider_url : Runes
  pub secure_mode : Bool
  pub tracing_provider : String

-- The options of an `EmptyTracerProvider`.
abbrev pub no_options : TracerProviderOptions
no_options = record {
  env = [];
  service_name = [];
  provider_url = [];
  secure_mode = false;
  tracing_provider = "";
}

module _ (getenv : Runes → Runes) where
  abbrev pub variable : String → Runes
  variable name = getenv (codes name)

  unfoldable pub find_tracing_provider : Runes → String
  find_tracing_provider provider =
      if runes_eq provider (codes "datadog")
      then datadog_provider
      else if runes_eq provider (codes "opentelemetry")
      then otel_provider
      else if get_env_as_bool getenv (codes "DD_TRACE_ENABLED") false
      then datadog_provider
      else if is_empty (variable "OTEL_EXPORTER_OTLP_ENDPOINT")
      then empty_provider
      else otel_provider

  abbrev pub or_default : Runes → Runes → Runes
  or_default value default_value = if is_empty value then default_value else value

  -- The three cases of `initTracerProviderOpts`.
  abbrev pub otel_options : TracerProviderOptions → TracerProviderOptions
  otel_options opts = record opts {
    service_name = or_default (variable "OTEL_SERVICE_NAME") opts.service_name;
    provider_url = variable "OTEL_EXPORTER_OTLP_ENDPOINT";
    secure_mode = not (get_env_as_bool getenv (codes "OTEL_INSECURE") false);
  }

  abbrev pub datadog_options : TracerProviderOptions → TracerProviderOptions
  datadog_options opts = record opts {
    service_name = or_default (variable "DD_SERVICE_NAME") opts.service_name;
    provider_url =
        variable "DD_AGENT_HOST"
        ++ (b':' ∷ get_env_or_default getenv (codes "DD_TRACE_AGENT_PORT") (codes "8126"));
  }

  unfoldable pub init_tracer_provider_opts : String → TracerProviderOptions
  init_tracer_provider_opts tracing_provider =
      let opts : TracerProviderOptions = record {
        env = or_default (variable "ENV") (codes "development");
        service_name = codes "lago-events-processor";
        provider_url = [];
        secure_mode = false;
        tracing_provider = tracing_provider;
      } in
      if str_eq tracing_provider otel_provider
      then otel_options opts
      else if str_eq tracing_provider datadog_provider
      then datadog_options opts
      else opts

-- `OTelTracerProvider`, `DatadogTracerProvider` and `EmptyTracerProvider`; a `TracerProvider` may
-- hold a nil pointer to the first.
pub data TracerProvider (H : Type 0) : Type 0 where
  nil_otel : TracerProvider H
  otel : H → TracerProviderOptions → TracerProvider H
  datadog : TracerProviderOptions → TracerProvider H
  empty : TracerProvider H

abbrev pub nil_pointer : String
nil_pointer = "runtime error: invalid memory address or nil pointer dereference"

module _ {H : Type 0} where
  -- `GetOptions`; `none` is the panic of a nil pointer.
  abbrev pub get_options : TracerProvider H → Option TracerProviderOptions
  get_options nil_otel = none
  get_options (otel exporter opts) = some opts
  get_options (datadog opts) = some opts
  get_options empty = some no_options

  -- `provider.InitTracer`
  abbrev pub tracer_of : TracerProvider H → Runes → Tracer
  tracer_of nil_otel name = otel_tracer name
  tracer_of (otel exporter opts) name = otel_tracer name
  tracer_of (datadog opts) name = datadog_tracer name
  tracer_of empty name = empty_tracer

module _ {W H : Type 0} where
  -- `if err != nil { logger.Error(message); return nil }`
  abbrev pub nil_on_error :
      {A : Type 0}
      → String
      → Ran W H A
      → (A → Action W H (TracerProvider H))
      → Ran W H (TracerProvider H)
  nil_on_error message (ran (returned a) w calls) f = after_calls calls (f a w)
  nil_on_error message (ran (failed e) w calls) f =
      ran (returned nil_otel) w (calls ++ log_error message ∷ [])
  nil_on_error message (ran (panicked s) w calls) f = ran (panicked s) w calls

module _ {W H : Type 0} (lib : Libraries W H) where
  set_otel : TracerProviderOptions → H → Action W H (TracerProvider H)
  set_otel opts exporter = do tell lib (set_otel_provider exporter); pure (otel exporter opts)

  unfoldable pub with_exporter : TracerProviderOptions → H → Action W H (TracerProvider H)
  unfolding set_otel
  with_exporter opts exporter = λ w.
      nil_on_error "Could not set open telemetry resource: %v"
        (ask lib (otel_resource opts.service_name opts.env) w) (λ _. set_otel opts exporter)

  unfoldable pub new_otel_tracer_provider : TracerProviderOptions → Action W H (TracerProvider H)
  unfolding with_exporter
  new_otel_tracer_provider opts = λ w.
      nil_on_error "Could not create open telemetry exporter"
        (obtain lib (otel_exporter opts.secure_mode opts.provider_url) w) (with_exporter opts)

  pub new_datadog_tracer_provider : TracerProviderOptions → Action W H (TracerProvider H)
  new_datadog_tracer_provider opts = do
    tell lib (start_datadog opts.service_name opts.env opts.provider_url)
    pure (datadog opts)

  -- The switch of `InitTracerProvider`.
  unfoldable pub new_tracer_provider :
      String → TracerProviderOptions → Action W H (TracerProvider H)
  unfolding new_otel_tracer_provider new_datadog_tracer_provider
  new_tracer_provider tracing_provider opts =
      if str_eq tracing_provider otel_provider
      then new_otel_tracer_provider opts
      else if str_eq tracing_provider datadog_provider
      then new_datadog_tracer_provider opts
      else pure empty

  unfoldable pub init_tracer_provider : Action W H (TracerProvider H)
  unfolding new_tracer_provider find_tracing_provider init_tracer_provider_opts
  init_tracer_provider =
      let tracing_provider =
        find_tracing_provider lib.getenv (variable lib.getenv "TRACING_PROVIDER") in
      new_tracer_provider tracing_provider (init_tracer_provider_opts lib.getenv tracing_provider)

  -- An error of the shutdown is logged.
  abbrev logged_at : String → Ran W H Unit → Ran W H Unit
  logged_at message (ran (returned a) w calls) = ran (returned a) w calls
  logged_at message (ran (failed e) w calls) = ran (returned tt) w (calls ++ log_error message ∷ [])
  logged_at message (ran (panicked s) w calls) = ran (panicked s) w calls

  -- `Stop`; a nil pointer panics.
  unfoldable pub stop : TracerProvider H → Action W H Unit
  stop nil_otel = λ w. ran (panicked nil_pointer) w []
  stop (otel exporter opts) =
      λ w. logged_at "Could not shutdown exporter" (ask lib (shut_down_exporter exporter) w)
  stop (datadog opts) = tell lib stop_datadog
  stop empty = pure tt
