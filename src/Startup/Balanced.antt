-- ===== src/Startup/Balanced.antt =====
-- What the start of the processing opens is closed.
use lago_paiement_engine.Prelude.{
  ◌≡◌, refl, Bool, true, false, Option, none, some, ◌⊎◌, inl, inr, List, [], ◌∷◌, String,
  Bool-cases,
}
use lago_paiement_engine.Prelude.Int.{ℤ, pos}
use lago_paiement_engine.Utils.Result.{Error}
use lago_paiement_engine.Utils.Env.{Runes, NumError, is_empty}
use lago_paiement_engine.Startup.{
  Opt, Check, Opening, FlagStore, EventProcessor, Resource, pool, redis, Libraries, ran, calls_of,
  Outcome, Action, pure, and_then, when, check_answer, open_answer, parse_pool_config, open_gorm,
  ping_redis, instrument_redis, ping_client, pgx_pool, kgo_client, otlp_metric_exporter,
  otlp_trace_exporter, ask, obtain, or_log_and_panic, RedisOptions,
}
use lago_paiement_engine.Startup.Client.{
  ServerConfig, client_opts, consumer_opts, init_telemetry, new_kafka_client, new_producer,
  new_consumer_group,
}
use lago_paiement_engine.Startup.Connections.{
  RedisConfig, redis_options, client_answer, new_redis_db, new_connection,
}
use lago_paiement_engine.Startup.Processing.{
  env, int_or_fail, env_int, producer_of, init_producer, init_flag_store, init_charge_cache_store,
  brokers, server_config, consume_events, with_cache, with_flags, with_database, with_brokers,
  for_brokers, start_processing_events, store_config, cache_config,
}
use lago_paiement_engine.Startup.Runs.{connection_of}
use lago_paiement_engine.Startup.Closing.{
  IsBalanced, Quiet, Balanced, Connects, Connects-pure, and_then-Quiet, and_then-Balanced,
  and_then-Connects, and_then-closing, log_and_panic_at-Quiet, log_and_panic_at-Connects,
}

module _ {W H : Type 0} where
  check_answer-Quiet :
      (c : Check H) (x : Option Error × W) → connection_of c ≡ [] → Quiet (check_answer c x)
  check_answer-Quiet c (none, w) h = record { quiet = (refl, rw h refl) }
  check_answer-Quiet c (some e, w) h = record { quiet = (refl, refl) }

  open_answer-Quiet : (o : Opening H) (x : (Error ⊎ H) × W) → Quiet (open_answer o x)
  open_answer-Quiet o (inl e, w) = record { quiet = (refl, refl) }
  open_answer-Quiet o (inr h, w) = record { quiet = (refl, refl) }

  client_answer-Quiet : (o : RedisOptions) (x : H × W) → Quiet (client_answer o x)
  client_answer-Quiet o (h, w) = record { quiet = (refl, refl) }

  -- A run without calls.
  nothing : {A : Type 0} (o : Outcome A) (w : W) → Quiet {H = H} (ran o w [])
  nothing o w = record { quiet = (refl, refl) }

  when-Quiet :
      (b : Bool) (m : Action W H Unit) → ((w : W) → Quiet (m w)) → (w : W) → Quiet (when b m w)
  when-Quiet true m h w = h w
  when-Quiet false m h w = nothing _ w

  -- The answer to the last step of a connection.
  connection-Connects :
      (resource : H → Resource H) (c : Check H) (h : H) (x : Option Error × W)
      → connection_of c ≡ resource h ∷ []
      → Connects resource (and_then (check_answer c x) (λ _. pure h))
  connection-Connects resource c h (none, w) e = record { connects = (refl, rw e refl) }
  connection-Connects resource c h (some error, w) e = record { connects = (refl, refl) }

module _ {W H : Type 0} (lib : Libraries W H) where
  ask-Quiet : (c : Check H) → connection_of c ≡ [] → (w : W) → Quiet (ask lib c w)
  ask-Quiet c h w = check_answer-Quiet c (lib.check c w) h

  obtain-Quiet : (o : Opening H) (w : W) → Quiet (obtain lib o w)
  obtain-Quiet o w = open_answer-Quiet o (lib.opens o w)

  connection_step-Connects :
      (resource : H → Resource H) (c : H → Check H) (h : H) (w : W)
      → connection_of (c h) ≡ resource h ∷ []
      → Connects resource (and_then (ask lib (c h) w) (λ _. pure h))
  connection_step-Connects resource c h w e =
      connection-Connects resource (c h) h (lib.check (c h) w) e

  new_kafka_client-Quiet :
      (c : ServerConfig) (config : List Opt) (w : W) → Quiet (new_kafka_client lib c config w)
  unfolding new_kafka_client
  new_kafka_client-Quiet c config w =
      and_then-Quiet _ _
        (when-Quiet c.use_telemetry (init_telemetry lib)
          (λ w.
            and_then-Quiet (ask lib otlp_metric_exporter w) _
              (ask-Quiet otlp_metric_exporter refl w) (λ _ w. ask-Quiet otlp_trace_exporter refl w))
          w)
        (λ _ w. obtain-Quiet (kgo_client (client_opts c config)) w)

  pinged :
      {A : Type 0} (h : H) (a : A) (w : W)
      → Quiet (and_then (ask lib (ping_client h) w) (λ _. pure a))
  pinged h a w = and_then-Quiet _ _ (ask-Quiet (ping_client h) refl w) (λ _ w. nothing _ w)

  producer_of-Quiet : (c : ServerConfig) (topic : Runes) (w : W) → Quiet (producer_of lib c topic w)
  unfolding producer_of new_producer
  producer_of-Quiet c topic w =
      and_then-Quiet _ _ (and_then-Quiet _ _ (new_kafka_client-Quiet c [] w) (λ _ w. nothing _ w))
        (λ p w. pinged p.client p w)

  init_producer-Quiet :
      (c : ServerConfig) (name : String) (w : W) → Quiet (init_producer lib c name w)
  unfolding init_producer
  init_producer-Quiet c name w = elim (Bool-cases (is_empty (env lib name))) [
    | inl empty ↦ rw empty (nothing _ w)
    | inr set ↦ rw set (producer_of-Quiet c (env lib name) w)
  ]

  env_int-Quiet : (name : String) (n : ℤ) (w : W) → Quiet (env_int lib name n w)
  unfolding env_int int_or_fail
  env_int-Quiet name n w = by_error (env lib name) _
    where
      by_error : (s : Runes) (x : ℤ × Option NumError) → Quiet (int_or_fail lib s x w)
      by_error s (m, none) = nothing _ w
      by_error s (m, some e) = nothing _ w

  new_consumer_group-Quiet :
      (c : ServerConfig) (group topic : Runes) (w : W)
      → Quiet (new_consumer_group lib c group topic w)
  unfolding new_consumer_group
  new_consumer_group-Quiet c group topic w =
      and_then-Quiet _ _ (new_kafka_client-Quiet c (consumer_opts group topic) w)
        (λ h w. pinged h h w)

  -- Without a tracer, as both stores are configured.
  new_redis_db-Connects :
      (c : RedisConfig) (w : W) → c.use_tracer ≡ false → Connects redis (new_redis_db lib c w)
  unfolding new_redis_db
  new_redis_db-Connects c w e =
      and_then-Connects redis _ _
        (client_answer-Quiet (redis_options c) (lib.new_redis_client (redis_options c) w))
        (λ h w. untraced c.use_tracer e h w)
    where
      untraced :
          (traced : Bool)
          → traced ≡ false
          → (h : H) (w : W)
          → Connects redis (
              and_then
                (ask lib (ping_redis h) w)
                (λ _ w. and_then (when traced (ask lib (instrument_redis h)) w) (λ _. pure h)))
      untraced true e h w = cc
      untraced false e h w = connection_step-Connects redis ping_redis h w refl

  init_flag_store-Connects :
      (name : String) (w : W) → Connects (λ flags. redis flags.db) (init_flag_store lib name w)
  unfolding init_flag_store
  init_flag_store-Connects name w =
      and_then-Connects (λ flags. redis flags.db) _ _
        (env_int-Quiet "LAGO_REDIS_STORE_DB" (pos 0) w)
        (λ db w.
          Connects-pure _ (λ db. record { name = name; db = db })
            (new_redis_db lib (store_config lib db) w)
            (new_redis_db-Connects (store_config lib db) w refl))

  init_charge_cache_store-Connects : (w : W) → Connects redis (init_charge_cache_store lib w)
  unfolding init_charge_cache_store
  init_charge_cache_store-Connects w =
      and_then-Connects redis _ _ (env_int-Quiet "LAGO_REDIS_CACHE_DB" (pos 0) w)
        (λ db w. new_redis_db-Connects (cache_config lib db) w refl)

  new_connection-Connects :
      (url : Runes) (n : ℤ) (w : W) → Connects pool (new_connection lib url n w)
  unfolding new_connection
  new_connection-Connects url n w =
      and_then-Connects pool _ _ (ask-Quiet (parse_pool_config url) refl w) (λ _ w.
        and_then-Connects pool _ _ (obtain-Quiet (pgx_pool url n) w)
          (λ h w. connection_step-Connects pool open_gorm h w refl))

  module _ (c : ServerConfig) where
    consume_events-Balanced :
        (processor : EventProcessor H) (w : W) → Balanced (consume_events lib c processor w)
    unfolding consume_events
    consume_events-Balanced processor w =
        and_then-Balanced _ _ (log_and_panic_at-Quiet _ _ (new_consumer_group-Quiet c _ _ w))
          (λ h w. record { balanced = refl })

    with_cache-Balanced :
        (processor : H → EventProcessor H) (w : W) → Balanced (with_cache lib c processor w)
    unfolding with_cache
    with_cache-Balanced processor w =
        and_then-closing lib redis _ (λ h. consume_events lib c (processor h))
          (log_and_panic_at-Connects redis _ _ (init_charge_cache_store-Connects w))
          (λ h w. consume_events-Balanced (processor h) w)

    with_flags-Balanced :
        (processor : FlagStore H → H → EventProcessor H) (w : W)
        → Balanced (with_flags lib c processor w)
    unfolding with_flags
    with_flags-Balanced processor w =
        and_then-closing lib (λ flags. redis flags.db) _ (λ h. with_cache lib c (processor h))
          (log_and_panic_at-Connects (λ flags. redis flags.db) _ _ (init_flag_store-Connects _ w))
          (λ h w. with_cache-Balanced (processor h) w)

    with_database-Balanced :
        (n : ℤ) (processor : H → FlagStore H → H → EventProcessor H) (w : W)
        → Balanced (with_database lib c n processor w)
    unfolding with_database
    with_database-Balanced n processor w =
        and_then-closing lib pool _ (λ h. with_flags lib c (processor h))
          (log_and_panic_at-Connects pool _ _ (new_connection-Connects _ _ w))
          (λ h w. with_flags-Balanced (processor h) w)

    -- One more step that connects nothing.
    next_step-Balanced :
        {A : Type 0} (message : String) (m : Action W H A) (f : A → Action W H Unit)
        → ((w : W) → Quiet (m w))
        → ((a : A) (w : W) → Balanced (f a w))
        → (w : W) → Balanced (and_then (or_log_and_panic message m w) f)
    next_step-Balanced message m f h k w =
        and_then-Balanced (or_log_and_panic message m w) f
          (log_and_panic_at-Quiet message (m w) (h w)) k

    with_brokers-Balanced : (w : W) → Balanced (with_brokers lib c w)
    unfolding with_brokers
    with_brokers-Balanced =
        next_step-Balanced _ (init_producer lib c _) _ (init_producer-Quiet c _) (λ _.
          next_step-Balanced _ (init_producer lib c _) _ (init_producer-Quiet c _) (λ _.
            next_step-Balanced _ (init_producer lib c _) _ (init_producer-Quiet c _) (λ _.
              next_step-Balanced _ (init_producer lib c _) _ (init_producer-Quiet c _) (λ _.
                next_step-Balanced _ (env_int lib _ _) _ (env_int-Quiet _ _)
                  (λ n. with_database-Balanced n _)))))

  -- However the start of the processing ends (it returns, a step fails, or it panics), the pool
  -- and the Redis clients that were connected without an error are closed, in the opposite order,
  -- and nothing else is.
  pub start_processing_events-IsBalanced :
      (use_telemetry : Bool) (w : W)
      → IsBalanced (calls_of (start_processing_events lib use_telemetry w))
  unfolding start_processing_events for_brokers
  start_processing_events-IsBalanced use_telemetry w = (by_brokers (brokers lib)).balanced
    where
      by_brokers : (bs : List Runes) → Balanced (for_brokers lib use_telemetry bs w)
      by_brokers [] = record { balanced = refl }
      by_brokers (b ∷ bs) = with_brokers-Balanced (server_config lib use_telemetry) w
