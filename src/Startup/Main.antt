-- ===== src/Startup/Main.antt =====
-- The program's `main` (events-processor/main.go).
use lago_paiement_engine.Prelude.{Option, none, some, List, [], ◌++◌, str_eq}
use lago_paiement_engine.Startup.{
  Call, sentry_init, flush_sentry, Libraries, Outcome, returned, failed, panicked, Ran, ran, Action,
  ◌>>=◌, ◌>>◌, ask, tell,
}
use lago_paiement_engine.Startup.Processing.{env, start_processing_events}
use lago_paiement_engine.Tracing.Provider.{
  TracerProvider, TracerProviderOptions, get_options, init_tracer_provider, stop, nil_pointer,
  otel_provider,
}

module _ {W H : Type 0} where
  -- What a deferred call makes of the end of a function: a panic of its own replaces it.
  abbrev pub deferred_end : Outcome Unit → List (Call H) → Ran W H Unit → Ran W H Unit
  deferred_end o calls (ran (returned a) w more) = ran o w (calls ++ more)
  deferred_end o calls (ran (failed e) w more) = ran o w (calls ++ more)
  deferred_end o calls (ran (panicked s) w more) = ran (panicked s) w (calls ++ more)

  abbrev pub deferred_after : Ran W H Unit → Action W H Unit → Ran W H Unit
  deferred_after (ran o w calls) cleanup = deferred_end o calls (cleanup w)

  -- `defer cleanup`, before the rest of the function.
  abbrev pub deferring : Action W H Unit → Action W H Unit → Action W H Unit
  deferring cleanup rest = λ w. deferred_after (rest w) cleanup

  -- An error that is only printed.
  abbrev pub printed_at : Ran W H Unit → Ran W H Unit
  printed_at (ran (returned a) w calls) = ran (returned tt) w calls
  printed_at (ran (failed e) w calls) = ran (returned tt) w calls
  printed_at (ran (panicked s) w calls) = ran (panicked s) w calls

  abbrev pub printing : Action W H Unit → Action W H Unit
  printing m = λ w. printed_at (m w)

module _ {W H : Type 0} (lib : Libraries W H) where
  -- From `InitTracer` on; `none` is the panic of `GetOptions`.
  unfoldable pub with_options : Option TracerProviderOptions → Action W H Unit
  with_options none = λ w. ran (panicked nil_pointer) w []
  with_options (some opts) = do
    printing (ask lib (sentry_init (env lib "SENTRY_DSN") (env lib "ENV")))
    deferring (tell lib flush_sentry)
        (start_processing_events lib (str_eq opts.tracing_provider otel_provider))

  unfoldable pub with_provider : TracerProvider H → Action W H Unit
  unfolding with_options
  with_provider provider = deferring (stop lib provider) (with_options (get_options provider))

  -- `main`
  unfoldable pub main : Action W H Unit
  unfolding with_provider
  main = do provider ← init_tracer_provider lib; with_provider provider
