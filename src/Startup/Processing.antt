-- ===== src/Startup/Processing.antt =====
-- The start of the processing of events (events-processor/processors/main_processor.go).
use lago_paiement_engine.Prelude.{
  ℕ, ◌-◌, ◌%◌, ◌^◌, Bool, false, Option, none, some, List, [], ◌∷◌, String, concat, if◌then◌else◌,
  ltb, codes,
}
use lago_paiement_engine.Prelude.Int.{ℤ, pos, negsuc}
use lago_paiement_engine.Utils.Env.{
  Runes, is_empty, runes_eq, NumError, get_env_as_int, get_env_as_bool, parse_brokers_env,
}
use lago_paiement_engine.Startup.{
  Producer, FlagStore, EventProcessor, pool, redis, log_error, Libraries, ran, panicked, Action,
  pure, fail, ◌>>=◌, ◌>>◌, or_log_and_panic, closing,
}
use lago_paiement_engine.Startup.Client.{
  ServerConfig, new_producer, ping, new_consumer_group, start,
}
use lago_paiement_engine.Startup.Connections.{RedisConfig, new_redis_db, new_connection}

abbrev pub enriched_topic_env : String
enriched_topic_env = "LAGO_KAFKA_ENRICHED_EVENTS_TOPIC"

abbrev pub enriched_expanded_topic_env : String
enriched_expanded_topic_env = "LAGO_KAFKA_ENRICHED_EVENTS_EXPANDED_TOPIC"

abbrev pub in_advance_topic_env : String
in_advance_topic_env = "LAGO_KAFKA_EVENTS_CHARGED_IN_ADVANCE_TOPIC"

abbrev pub dead_letter_topic_env : String
dead_letter_topic_env = "LAGO_KAFKA_EVENTS_DEAD_LETTER_TOPIC"

-- The value in [-2^31, 2^31) of the low 32 bits.
abbrev pub signed_32 : ℕ → ℤ
signed_32 n = if ltb n (2 ^ 31) then pos n else negsuc (2 ^ 32 - 1 - n)

-- `int32(n)`
unfoldable pub int32 : ℤ → ℤ
int32 (pos n) = signed_32 (n % 2 ^ 32)
int32 (negsuc n) = signed_32 (2 ^ 32 - 1 - n % 2 ^ 32)

module _ {W H : Type 0} (lib : Libraries W H) where
  abbrev pub env : String → Runes
  env name = lib.getenv (codes name)

  unfoldable pub int_or_fail : Runes → ℤ × Option NumError → Action W H ℤ
  int_or_fail text (n, none) = pure n
  int_or_fail text (n, some e) = fail (lib.num_error text e)

  -- `GetEnvAsInt`, and the return of its error.
  unfoldable pub env_int : String → ℤ → Action W H ℤ
  unfolding int_or_fail
  env_int name default_value =
      int_or_fail (env name) (get_env_as_int lib.getenv (codes name) default_value)

  -- `initProducer`, where the topic is set.
  unfoldable pub producer_of : ServerConfig → Runes → Action W H (Producer H)
  producer_of c topic = do producer ← new_producer lib c topic; ping lib producer; pure producer

  unfoldable pub init_producer : ServerConfig → String → Action W H (Producer H)
  unfolding producer_of
  init_producer c topic_env =
      if is_empty (env topic_env)
      then fail (record { message = concat (topic_env ∷ " variable is required" ∷ []) })
      else producer_of c (env topic_env)

  abbrev pub store_config : ℤ → RedisConfig
  store_config db = record {
    address = env "LAGO_REDIS_STORE_URL";
    password = env "LAGO_REDIS_STORE_PASSWORD";
    db = db;
    use_tracer = false;
    use_tls =
        get_env_as_bool lib.getenv (codes "LAGO_REDIS_STORE_TLS")
          (runes_eq (env "ENV") (codes "production"));
  }

  unfoldable pub init_flag_store : String → Action W H (FlagStore H)
  unfolding env_int
  init_flag_store name = do
    redis_db ← env_int "LAGO_REDIS_STORE_DB" (pos 0)
    db ← new_redis_db lib (store_config redis_db)
    pure (record { name = name; db = db })

  abbrev pub cache_config : ℤ → RedisConfig
  cache_config db = record {
    address = env "LAGO_REDIS_CACHE_URL";
    password = env "LAGO_REDIS_CACHE_PASSWORD";
    db = db;
    use_tracer = false;
    use_tls = get_env_as_bool lib.getenv (codes "LAGO_REDIS_CACHE_TLS") false;
  }

  unfoldable pub init_charge_cache_store : Action W H H
  unfolding env_int
  init_charge_cache_store = do
    redis_db ← env_int "LAGO_REDIS_CACHE_DB" (pos 0)
    new_redis_db lib (cache_config redis_db)

  pub brokers : List Runes
  brokers = parse_brokers_env (env "LAGO_KAFKA_BOOTSTRAP_SERVERS")

  unfoldable pub server_config : Bool → ServerConfig
  unfolding brokers
  server_config use_telemetry = record {
    scram_algorithm = env "LAGO_KAFKA_SCRAM_ALGORITHM";
    tls = get_env_as_bool lib.getenv (codes "LAGO_KAFKA_TLS") false;
    servers = brokers;
    use_telemetry = use_telemetry;
    user_name = env "LAGO_KAFKA_USERNAME";
    password = env "LAGO_KAFKA_PASSWORD";
  }

  module _ (c : ServerConfig) where
    -- `StartProcessingEvents` from `NewConsumerGroup` on.
    unfoldable pub consume_events : EventProcessor H → Action W H Unit
    consume_events processor = do
      group ← or_log_and_panic "Error starting the event consumer" (
          new_consumer_group lib c (env "LAGO_KAFKA_CONSUMER_GROUP")
            (env "LAGO_KAFKA_RAW_EVENTS_TOPIC"))
      start lib group processor

    -- From the connection to the cache on, which a `defer` closes.
    unfoldable pub with_cache : (H → EventProcessor H) → Action W H Unit
    unfolding consume_events
    with_cache processor = do
      cacher ← or_log_and_panic "Error connecting to the charge cache store" init_charge_cache_store
      closing lib (redis cacher) (consume_events (processor cacher))

    -- From the connection to the flags on.
    unfoldable pub with_flags : (FlagStore H → H → EventProcessor H) → Action W H Unit
    unfolding with_cache
    with_flags processor = do
      flagger ←
          or_log_and_panic "Error connecting to the flag store"
            (init_flag_store "subscription_refreshed")
      closing lib (redis flagger.db) (with_cache (processor flagger))

    -- From the connection to the database on.
    unfoldable pub with_database : ℤ → (H → FlagStore H → H → EventProcessor H) → Action W H Unit
    unfolding with_flags
    with_database max_conns processor = do
      db ←
          or_log_and_panic "Error connecting to the database"
            (new_connection lib (env "DATABASE_URL") (int32 max_conns))
      closing lib (pool db) (with_flags (processor db))

    -- From the producers on.
    unfoldable pub with_brokers : Action W H Unit
    unfolding with_database
    with_brokers = do
      enriched ←
          or_log_and_panic "failed to initialize enriched events producer"
            (init_producer c enriched_topic_env)
      expanded ←
          or_log_and_panic "failed to initialize enriched events expanded producer"
            (init_producer c enriched_expanded_topic_env)
      in_advance ←
          or_log_and_panic "failed to initialize events charged in advance producer"
            (init_producer c in_advance_topic_env)
      dead_letter ←
          or_log_and_panic "failed to initialize events dead letter queue producer"
            (init_producer c dead_letter_topic_env)
      max_conns ←
          or_log_and_panic "Error converting max connections into integer"
            (env_int "LAGO_EVENTS_PROCESSOR_DATABASE_MAX_CONNECTIONS" (pos 200))
      with_database max_conns (λ db flagger cacher. record {
        api_store = db;
        enriched_producer = enriched;
        enriched_expanded_producer = expanded;
        in_advance_producer = in_advance;
        dead_letter_producer = dead_letter;
        flag_store = flagger;
        cache_store = cacher;
      })

  unfoldable pub for_brokers : Bool → List Runes → Action W H Unit
  for_brokers use_telemetry [] =
      λ w. ran (panicked "brokers not found") w (log_error "brokers not found" ∷ [])
  for_brokers use_telemetry (broker ∷ rest) = with_brokers (server_config use_telemetry)

  -- `StartProcessingEvents`
  unfoldable pub start_processing_events : Bool → Action W H Unit
  unfolding for_brokers with_brokers server_config
  start_processing_events use_telemetry = for_brokers use_telemetry brokers
