-- ===== src/Startup/Passing.antt =====
-- The steps of the start that only ask the libraries.
use lago_paiement_engine.Prelude.{
  ◌≡◌, refl, Bool, true, false, Option, none, some, ◌⊎◌, inl, inr, List, [], String, Bool-cases,
  codes,
}
use lago_paiement_engine.Prelude.Int.{ℤ, pos}
use lago_paiement_engine.Utils.Result.{Error}
use lago_paiement_engine.Utils.Env.{Runes, NumError, is_empty, get_env_as_int}
use lago_paiement_engine.Startup.{
  Opt, Check, Opening, Libraries, Action, pure, and_then, when, check_answer, open_answer,
  parse_pool_config, open_gorm, ping_redis, instrument_redis, ping_client, pgx_pool, kgo_client,
  otlp_metric_exporter, otlp_trace_exporter, ask, obtain, RedisOptions,
}
use lago_paiement_engine.Startup.Client.{
  ServerConfig, client_opts, consumer_opts, init_telemetry, new_kafka_client, new_producer,
  new_consumer_group,
}
use lago_paiement_engine.Startup.Connections.{
  RedisConfig, redis_options, client_answer, new_redis_db, new_connection,
}
use lago_paiement_engine.Startup.Processing.{
  env, int_or_fail, env_int, producer_of, init_producer, init_flag_store, init_charge_cache_store,
  store_config, cache_config,
}
use lago_paiement_engine.Startup.Serving.{Passes, step-Passes, rest-Passes, Passes-iff}

pub never : ⊥ ⊎ ⊥ → ⊥
never (inl s) = s
never (inr s) = s

module _ {W H : Type 0} where
  nothing : {A : Type 0} (a : A) (w : W) → Passes {H = H} Unit (pure a w)
  nothing a w = record { passes = (tt, tt, λ s. s) }

  check_answer-Passes : (c : Check H) (x : Option Error × W) → Passes Unit (check_answer c x)
  check_answer-Passes c (none, w) = record { passes = (tt, (tt, tt), never) }
  check_answer-Passes c (some e, w) = record { passes = (λ u all. all.0, never) }

  open_answer-Passes : (o : Opening H) (x : (Error ⊎ H) × W) → Passes Unit (open_answer o x)
  open_answer-Passes o (inr h, w) = record { passes = (tt, (tt, tt), never) }
  open_answer-Passes o (inl e, w) = record { passes = (λ u all. all.0, never) }

  client_answer-Passes : (o : RedisOptions) (x : H × W) → Passes Unit (client_answer o x)
  client_answer-Passes o (h, w) = record { passes = (tt, (tt, tt), never) }

  when-Passes :
      (b : Bool) (m : Action W H Unit)
      → ((w : W) → Passes Unit (m w))
      → (w : W) → Passes Unit (when b m w)
  when-Passes true m h w = h w
  when-Passes false m h w = nothing tt w

module _ {W H : Type 0} (lib : Libraries W H) where
  ask-Passes : (c : Check H) (w : W) → Passes Unit (ask lib c w)
  ask-Passes c w = check_answer-Passes c (lib.check c w)

  obtain-Passes : (o : Opening H) (w : W) → Passes Unit (obtain lib o w)
  obtain-Passes o w = open_answer-Passes o (lib.opens o w)

  asked :
      {A : Type 0} (c : Check H) (a : A) (w : W)
      → Passes Unit (and_then (ask lib c w) (λ _. pure a))
  asked c a w = step-Passes _ _ (ask-Passes c w) (λ _ w. nothing a w)

  new_kafka_client-Passes :
      (c : ServerConfig) (config : List Opt) (w : W) → Passes Unit (new_kafka_client lib c config w)
  unfolding new_kafka_client
  new_kafka_client-Passes c config w =
      step-Passes _ _
        (when-Passes c.use_telemetry (init_telemetry lib)
          (λ w.
            step-Passes (ask lib otlp_metric_exporter w) _ (ask-Passes otlp_metric_exporter w)
              (λ _ w. ask-Passes otlp_trace_exporter w))
          w)
        (λ _ w. obtain-Passes (kgo_client (client_opts c config)) w)

  producer_of-Passes :
      (c : ServerConfig) (topic : Runes) (w : W) → Passes Unit (producer_of lib c topic w)
  unfolding producer_of new_producer
  producer_of-Passes c topic w =
      step-Passes _ _ (step-Passes _ _ (new_kafka_client-Passes c [] w) (λ h w. nothing _ w))
        (λ p w. asked (ping_client p.client) p w)

  -- A variable that is required is set.
  abbrev pub IsGiven : String → Type 0
  IsGiven name = is_empty (env lib name) ≡ false

  -- A variable is empty or holds an integer.
  abbrev pub IsNumber : String → ℤ → Type 0
  IsNumber name n = (get_env_as_int lib.getenv (codes name) n).1 ≡ none

  pub init_producer-Passes :
      (c : ServerConfig) (name : String) (w : W)
      → Passes (IsGiven name) (init_producer lib c name w)
  unfolding init_producer
  init_producer-Passes c name w = elim (Bool-cases (is_empty (env lib name))) [
    | inl empty ↦ rw empty (record { passes = (λ p all. cc p, λ s. s) })
    | inr set ↦ rw set (Passes-iff _ (λ u. refl) (λ e. tt) (producer_of-Passes c (env lib name) w))
  ]

  pub env_int-Passes :
      (name : String) (n : ℤ) (w : W) → Passes (IsNumber name n) (env_int lib name n w)
  unfolding env_int int_or_fail
  env_int-Passes name n w = by_error (env lib name) (get_env_as_int lib.getenv (codes name) n)
    where
      by_error : (s : Runes) (x : ℤ × Option NumError) → Passes (x.1 ≡ none) (int_or_fail lib s x w)
      by_error s (m, none) = record { passes = (refl, tt, λ s. s) }
      by_error s (m, some e) = record { passes = (λ p all. cc p, λ s. s) }

  pub new_consumer_group-Passes :
      (c : ServerConfig) (group topic : Runes) (w : W)
      → Passes Unit (new_consumer_group lib c group topic w)
  unfolding new_consumer_group
  new_consumer_group-Passes c group topic w =
      step-Passes _ _ (new_kafka_client-Passes c (consumer_opts group topic) w)
        (λ h w. asked (ping_client h) h w)

  new_redis_db-Passes : (c : RedisConfig) (w : W) → Passes Unit (new_redis_db lib c w)
  unfolding new_redis_db
  new_redis_db-Passes c w =
      step-Passes _ _
        (client_answer-Passes (redis_options c) (lib.new_redis_client (redis_options c) w))
        (λ h w. step-Passes _ _ (ask-Passes (ping_redis h) w) (λ _ w.
          step-Passes _ _
            (when-Passes c.use_tracer (ask lib (instrument_redis h))
              (ask-Passes (instrument_redis h)) w)
            (λ _ w. nothing h w)))

  pub init_flag_store-Passes :
      (name : String) (w : W)
      → Passes (IsNumber "LAGO_REDIS_STORE_DB" (pos 0)) (init_flag_store lib name w)
  unfolding init_flag_store
  init_flag_store-Passes name w =
      rest-Passes _ _ (env_int-Passes "LAGO_REDIS_STORE_DB" (pos 0) w)
        (λ db w. step-Passes _ _ (new_redis_db-Passes (store_config lib db) w) (λ h w. nothing _ w))

  pub init_charge_cache_store-Passes :
      (w : W) → Passes (IsNumber "LAGO_REDIS_CACHE_DB" (pos 0)) (init_charge_cache_store lib w)
  unfolding init_charge_cache_store
  init_charge_cache_store-Passes w =
      rest-Passes _ _ (env_int-Passes "LAGO_REDIS_CACHE_DB" (pos 0) w)
        (λ db w. new_redis_db-Passes (cache_config lib db) w)

  pub new_connection-Passes :
      (url : Runes) (n : ℤ) (w : W) → Passes Unit (new_connection lib url n w)
  unfolding new_connection
  new_connection-Passes url n w =
      step-Passes _ _ (ask-Passes (parse_pool_config url) w)
        (λ _ w. step-Passes _ _ (obtain-Passes (pgx_pool url n) w) (λ h w. asked (open_gorm h) h w))
