-- ===== src/Tests/Startup.antt =====
-- The start of the program, in sample environments.
use lago_paiement_engine.Prelude.{
  ℕ, ◌≡◌, ◌≢◌, ◌↔◌, refl, true, false, none, [], ◌∷◌, inl, inr, codes, All, Some,
}
use lago_paiement_engine.Utils.Result.{Error}
use lago_paiement_engine.Startup.{Libraries, Opt, nil_opt, consume_topics, calls_of}
use lago_paiement_engine.Startup.Client.{ServerConfig, client_opts}
use lago_paiement_engine.Startup.Processing.{start_processing_events}
use lago_paiement_engine.Startup.Closing.{IsBalanced}
use lago_paiement_engine.Startup.Balanced.{start_processing_events-IsBalanced}
use lago_paiement_engine.Startup.Serving.{Served, Succeeds}
use lago_paiement_engine.Startup.Started.{IsConfigured, start_processing_events-Serves}
use lago_paiement_engine.Startup.Options.{IsKnown, IsNil, client_opts-IsNil}
use lago_paiement_engine.Startup.Main.{main}
use lago_paiement_engine.Startup.NilProvider.{PanicsEarly, main-PanicsEarly}
use lago_paiement_engine.Startup.Wiring.{IsConfiguredCall}
use lago_paiement_engine.Startup.Configured.{start_processing_events-All-IsConfiguredCall}
use lago_paiement_engine.Tracing.Provider.{otel_provider, variable, find_tracing_provider}

-- Every variable is "1", and every call succeeds.
abbrev all_ones : Libraries Unit ℕ
all_ones = record {
  getenv = λ key. codes "1";
  num_error = λ s e. record { message = "invalid syntax" };
  check = λ c w. (none, w);
  opens = λ o w. (inr 7, w);
  new_redis_client = λ o w. (8, w);
  notify = λ n w. w;
  close_resource = λ r w. w;
  serves = λ h p w. w;
}

abbrev refused : Error
refused = record { message = "connection refused" }

-- OpenTelemetry is asked for, and nothing can be opened.
abbrev no_exporter : Libraries Unit ℕ
no_exporter = record all_ones {
  getenv = λ key. codes "opentelemetry";
  opens = λ o w. (inl refused, w);
}

start_processing_events-IsBalanced_example :
    IsBalanced (calls_of (start_processing_events all_ones true tt))
start_processing_events-IsBalanced_example = start_processing_events-IsBalanced all_ones true tt

start_processing_events-Serves_example :
    Served (calls_of (start_processing_events all_ones false tt))
    ↔ (IsConfigured all_ones × Succeeds (calls_of (start_processing_events all_ones false tt)))
start_processing_events-Serves_example = start_processing_events-Serves all_ones false tt

start_processing_events-All-IsConfiguredCall_example :
    All (IsConfiguredCall all_ones) (calls_of (start_processing_events all_ones true tt))
start_processing_events-All-IsConfiguredCall_example =
    start_processing_events-All-IsConfiguredCall all_ones true tt

-- An algorithm that the code does not know.
abbrev plain : ServerConfig
plain = record {
  scram_algorithm = codes "PLAIN";
  tls = true;
  servers = codes "kafka" ∷ [];
  use_telemetry = false;
  user_name = codes "user";
  password = codes "secret";
}

topic_option : All (λ (o : Opt). o ≢ nil_opt) (consume_topics (codes "raw") ∷ [])
topic_option = ((λ e. cc e), tt)

client_opts-IsNil_example :
    Some IsNil (client_opts plain (consume_topics (codes "raw") ∷ []))
    ↔ ((codes "PLAIN" ≢ []) × (IsKnown (codes "PLAIN") → ⊥))
client_opts-IsNil_example = client_opts-IsNil plain (consume_topics (codes "raw") ∷ []) topic_option

otel_chosen :
    find_tracing_provider no_exporter.getenv (variable no_exporter.getenv "TRACING_PROVIDER")
    ≡ otel_provider
unfolding find_tracing_provider
otel_chosen = refl

main-PanicsEarly_example : PanicsEarly (main no_exporter tt)
main-PanicsEarly_example = main-PanicsEarly no_exporter tt refused otel_chosen refl
