-- ===== src/Startup/Started.antt =====
-- When the start of the processing gets to the consumer group.
use lago_paiement_engine.Prelude.{◌≡◌, ◌≢◌, refl, Bool, inl, ◌↔◌, List, [], ◌∷◌, String}
use lago_paiement_engine.Prelude.Int.{ℤ, pos}
use lago_paiement_engine.Utils.Env.{Runes}
use lago_paiement_engine.Startup.{
  FlagStore, EventProcessor, pool, redis, Libraries, calls_of, Action, and_then, closing,
  or_log_and_panic,
}
use lago_paiement_engine.Startup.Client.{ServerConfig, new_consumer_group, start}
use lago_paiement_engine.Startup.Connections.{new_connection}
use lago_paiement_engine.Startup.Processing.{
  env_int, init_producer, init_flag_store, init_charge_cache_store, brokers, server_config,
  consume_events, with_cache, with_flags, with_database, with_brokers, for_brokers,
  start_processing_events, enriched_topic_env, enriched_expanded_topic_env, in_advance_topic_env,
  dead_letter_topic_env,
}
use lago_paiement_engine.Startup.Serving.{
  Served, Succeeds, Passes, Serves, log_and_panic_at-Passes, close_after-Serves, and_then-Serves,
}
use lago_paiement_engine.Startup.Passing.{
  init_producer-Passes, env_int-Passes, new_consumer_group-Passes, init_flag_store-Passes,
  init_charge_cache_store-Passes, new_connection-Passes, IsGiven, IsNumber, never,
}

module _ {W H : Type 0} (lib : Libraries W H) where
  -- What the environment must hold for the start.
  pub record IsConfigured : Type 0 where
    pub has_brokers : brokers lib ≢ []
    pub enriched_topic : IsGiven lib enriched_topic_env
    pub enriched_expanded_topic : IsGiven lib enriched_expanded_topic_env
    pub in_advance_topic : IsGiven lib in_advance_topic_env
    pub dead_letter_topic : IsGiven lib dead_letter_topic_env
    pub max_connections : IsNumber lib "LAGO_EVENTS_PROCESSOR_DATABASE_MAX_CONNECTIONS" (pos 200)
    pub store_db : IsNumber lib "LAGO_REDIS_STORE_DB" (pos 0)
    pub cache_db : IsNumber lib "LAGO_REDIS_CACHE_DB" (pos 0)

  -- What is left to ask for from the connection to the cache on, and from each earlier step on.
  abbrev CacheLeft : Type 0
  CacheLeft = IsNumber lib "LAGO_REDIS_CACHE_DB" (pos 0) × (Unit × Unit)

  abbrev FlagsLeft : Type 0
  FlagsLeft = IsNumber lib "LAGO_REDIS_STORE_DB" (pos 0) × CacheLeft

  abbrev NumbersLeft : Type 0
  NumbersLeft =
      IsNumber lib "LAGO_EVENTS_PROCESSOR_DATABASE_MAX_CONNECTIONS" (pos 200) × (Unit × FlagsLeft)

  abbrev TopicsLeft : Type 0
  TopicsLeft =
      IsGiven lib enriched_topic_env
      × (IsGiven lib enriched_expanded_topic_env
          × (IsGiven lib in_advance_topic_env × (IsGiven lib dead_letter_topic_env × NumbersLeft)))

  module _ (c : ServerConfig) where
    -- One more step, and the rest.
    next_step-Serves :
        {P Q : Type 0} {A : Type 0} (message : String) (m : Action W H A) (f : A → Action W H Unit)
        → ((w : W) → Passes P (m w))
        → ((a : A) (w : W) → Serves Q (f a w))
        → (w : W) → Serves (P × Q) (and_then (or_log_and_panic message m w) f)
    next_step-Serves message m f h k w =
        and_then-Serves (or_log_and_panic message m w) f
          (log_and_panic_at-Passes message (m w) (h w)) k

    start-Serves :
        (h : H) (processor : EventProcessor H) (w : W) → Serves Unit (start lib h processor w)
    start-Serves h processor w = record { serves = (λ s. (tt, (tt, tt)), λ b. inl tt) }

    consume_events-Serves :
        (processor : EventProcessor H) (w : W)
        → Serves (Unit × Unit) (consume_events lib c processor w)
    unfolding consume_events
    consume_events-Serves processor =
        next_step-Serves _ (new_consumer_group lib c _ _) _ (new_consumer_group-Passes lib c _ _)
          (λ h w. start-Serves h processor w)

    with_cache-Serves :
        (processor : H → EventProcessor H) (w : W) → Serves CacheLeft (with_cache lib c processor w)
    unfolding with_cache
    with_cache-Serves processor =
        next_step-Serves _ (init_charge_cache_store lib)
          (λ h. closing lib (redis h) (consume_events lib c (processor h)))
          (init_charge_cache_store-Passes lib)
          (λ h w. close_after-Serves lib (redis h) _ (consume_events-Serves (processor h) w))

    with_flags-Serves :
        (processor : FlagStore H → H → EventProcessor H) (w : W)
        → Serves FlagsLeft (with_flags lib c processor w)
    unfolding with_flags
    with_flags-Serves processor =
        next_step-Serves _ (init_flag_store lib _)
          (λ flags. closing lib (redis flags.db) (with_cache lib c (processor flags)))
          (init_flag_store-Passes lib _)
          (λ flags w.
            close_after-Serves lib (redis flags.db) _ (with_cache-Serves (processor flags) w))

    with_database-Serves :
        (n : ℤ) (processor : H → FlagStore H → H → EventProcessor H) (w : W)
        → Serves (Unit × FlagsLeft) (with_database lib c n processor w)
    unfolding with_database
    with_database-Serves n processor =
        next_step-Serves _ (new_connection lib _ _)
          (λ db. closing lib (pool db) (with_flags lib c (processor db)))
          (new_connection-Passes lib _ _)
          (λ db w. close_after-Serves lib (pool db) _ (with_flags-Serves (processor db) w))

    with_brokers-Serves : (w : W) → Serves TopicsLeft (with_brokers lib c w)
    unfolding with_brokers
    with_brokers-Serves =
        next_step-Serves _ (init_producer lib c _) _ (init_producer-Passes lib c _) (λ _.
          next_step-Serves _ (init_producer lib c _) _ (init_producer-Passes lib c _) (λ _.
            next_step-Serves _ (init_producer lib c _) _ (init_producer-Passes lib c _) (λ _.
              next_step-Serves _ (init_producer lib c _) _ (init_producer-Passes lib c _) (λ _.
                next_step-Serves _ (env_int lib _ _) _ (env_int-Passes lib _ _)
                  (λ n. with_database-Serves n _)))))

  -- The processing gets to the consumer group exactly if the environment has a broker, the four
  -- topics to produce to, and an integer or nothing for each of the three numbers, and no call of
  -- the libraries returns an error.
  pub start_processing_events-Serves :
      (use_telemetry : Bool) (w : W)
      → Served (calls_of (start_processing_events lib use_telemetry w))
        ↔ (IsConfigured × Succeeds (calls_of (start_processing_events lib use_telemetry w)))
  unfolding start_processing_events for_brokers
  start_processing_events-Serves use_telemetry w = by_brokers (brokers lib) refl
    where
      to_configured : brokers lib ≢ [] → TopicsLeft → IsConfigured
      to_configured some' t = record {
        has_brokers = some';
        enriched_topic = t.0;
        enriched_expanded_topic = t.1.0;
        in_advance_topic = t.1.1.0;
        dead_letter_topic = t.1.1.1.0;
        max_connections = t.1.1.1.1.0;
        store_db = t.1.1.1.1.1.1.0;
        cache_db = t.1.1.1.1.1.1.1.0;
      }

      of_configured : IsConfigured → TopicsLeft
      of_configured c = (
        c.enriched_topic,
        (
          c.enriched_expanded_topic,
          (
            c.in_advance_topic,
            (c.dead_letter_topic, (c.max_connections, (tt, (c.store_db, (c.cache_db, (tt, tt)))))),
          ),
        ),
      )

      by_brokers :
          (bs : List Runes)
          → brokers lib ≡ bs
          → Served (calls_of (for_brokers lib use_telemetry bs w))
            ↔ (IsConfigured × Succeeds (calls_of (for_brokers lib use_telemetry bs w)))
      by_brokers [] e = (λ s. absurd (never s), λ b. absurd (b.0.has_brokers e))
      by_brokers (broker ∷ rest) e =
          let started = (with_brokers-Serves (server_config lib use_telemetry) w).serves in
          (
            λ s. let f = started.0 s in (to_configured (λ empty. cc (e, empty)) f.0, f.1),
            λ b. started.1 (of_configured b.0, b.1),
          )
