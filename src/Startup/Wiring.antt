-- ===== src/Startup/Wiring.antt =====
-- The steps of the start, as the environment configures them.
use lago_paiement_engine.Prelude.{
  ◌≡◌, refl, Bool, true, false, Option, none, some, ◌⊎◌, inl, inr, List, [], ◌∷◌, String,
  Bool-cases,
}
use lago_paiement_engine.Prelude.Int.{ℤ, pos}
use lago_paiement_engine.Utils.Result.{Error}
use lago_paiement_engine.Utils.Env.{Runes, NumError, is_empty}
use lago_paiement_engine.Startup.{
  Opt, seed_brokers, Check, Opening, Producer, EventProcessor, Call, opened, serve, Libraries, Ran,
  Action, pure, and_then, when, check_answer, open_answer, parse_pool_config, open_gorm, ping_redis,
  instrument_redis, ping_client, pgx_pool, kgo_client, otlp_metric_exporter, otlp_trace_exporter,
  ask, RedisOptions,
}
use lago_paiement_engine.Startup.Client.{
  ServerConfig, client_opts, consumer_opts, init_telemetry, new_kafka_client, new_producer,
  new_consumer_group,
}
use lago_paiement_engine.Startup.Connections.{
  RedisConfig, redis_options, client_answer, new_redis_db, new_connection,
}
use lago_paiement_engine.Startup.Processing.{
  env, int_or_fail, env_int, producer_of, init_producer, init_flag_store, init_charge_cache_store,
  brokers, store_config, cache_config, enriched_topic_env, enriched_expanded_topic_env,
  in_advance_topic_env, dead_letter_topic_env,
}
use lago_paiement_engine.Startup.Numbers.{IsInt32}
use lago_paiement_engine.Startup.Contracts.{Holds, and_then-Holds}

abbrev pub Any : {A : Type 0} → A → Type 0
Any a = Unit

module _ {W H : Type 0} (lib : Libraries W H) where
  -- The options begin with the brokers of the environment.
  abbrev pub IsSeeded : List Opt → Type 0
  IsSeeded (seed_brokers servers ∷ opts) = servers ≡ brokers lib
  IsSeeded _ = ⊥

  -- Each producer has the topic of its variable, and the flags have their name.
  pub record IsWired (p : EventProcessor H) : Type 0 where
    pub enriched_topic : p.enriched_producer.topic ≡ env lib enriched_topic_env
    pub enriched_expanded_topic :
        p.enriched_expanded_producer.topic ≡ env lib enriched_expanded_topic_env
    pub in_advance_topic : p.in_advance_producer.topic ≡ env lib in_advance_topic_env
    pub dead_letter_topic : p.dead_letter_producer.topic ≡ env lib dead_letter_topic_env
    pub flag_name : p.flag_store.name ≡ "subscription_refreshed"

  -- A call that is made as the environment says.
  abbrev pub IsConfiguredCall : Call H → Type 0
  IsConfiguredCall (opened (kgo_client opts) a) = IsSeeded opts
  IsConfiguredCall (opened (pgx_pool url n) a) = (url ≡ env lib "DATABASE_URL") × IsInt32 n
  IsConfiguredCall (serve h p) = IsWired p
  IsConfiguredCall _ = Unit

  -- A run whose calls are made so, and whose result satisfies `P`.
  abbrev pub Good : {A : Type 0} → (A → Type 0) → Ran W H A → Type 0
  Good = Holds IsConfiguredCall

  check_answer-Good : (c : Check H) (x : Option Error × W) → Good Any (check_answer c x)
  check_answer-Good c (none, w) = record { holds = (tt, (tt, tt)) }
  check_answer-Good c (some e, w) = record { holds = (tt, tt) }

  ask-Good : (c : Check H) (w : W) → Good Any (ask lib c w)
  ask-Good c w = check_answer-Good c (lib.check c w)

  open_answer-Good :
      (o : Opening H) (x : (Error ⊎ H) × W)
      → ((a : Error ⊎ H) → IsConfiguredCall (opened o a))
      → Good Any (open_answer o x)
  open_answer-Good o (inl e, w) h = record { holds = (h (inl e), tt) }
  open_answer-Good o (inr a, w) h = record { holds = (tt, (h (inr a), tt)) }

  client_answer-Good : (o : RedisOptions) (x : H × W) → Good Any (client_answer o x)
  client_answer-Good o (h, w) = record { holds = (tt, (tt, tt)) }

  pure-Good : {A : Type 0} (P : A → Type 0) (a : A) (w : W) → P a → Good P (pure a w)
  pure-Good P a w h = record { holds = (h, tt) }

  when-Good :
      (b : Bool) (m : Action W H Unit)
      → ((w : W) → Good Any (m w))
      → (w : W) → Good Any (when b m w)
  when-Good true m h w = h w
  when-Good false m h w = pure-Good Any tt w tt

  -- A step about whose result nothing is said.
  step-Good :
      {A B : Type 0} (P : B → Type 0) (r : Ran W H A) (f : A → Action W H B)
      → Good Any r
      → ((a : A) (w : W) → Good P (f a w))
      → Good P (and_then r f)
  step-Good P r f h k = and_then-Holds IsConfiguredCall Any P r f h (λ a w u. k a w)

  new_kafka_client-Good :
      (c : ServerConfig) (config : List Opt) (w : W)
      → c.servers ≡ brokers lib
      → Good Any (new_kafka_client lib c config w)
  unfolding new_kafka_client client_opts
  new_kafka_client-Good c config w e =
      step-Good Any _ _
        (when-Good c.use_telemetry (init_telemetry lib)
          (λ w.
            step-Good Any (ask lib otlp_metric_exporter w) _ (ask-Good otlp_metric_exporter w)
              (λ _ w. ask-Good otlp_trace_exporter w))
          w)
        (λ _ w.
          open_answer-Good (kgo_client (client_opts c config))
            (lib.opens (kgo_client (client_opts c config)) w) (λ a. e))

  producer_of-Good :
      (c : ServerConfig) (topic : Runes) (w : W)
      → c.servers ≡ brokers lib
      → Good (λ p. p.topic ≡ topic) (producer_of lib c topic w)
  unfolding producer_of new_producer
  producer_of-Good c topic w e =
      and_then-Holds IsConfiguredCall (λ (p : Producer H). p.topic ≡ topic) (λ p. p.topic ≡ topic) _
        _
        (step-Good (λ p. p.topic ≡ topic) _ _ (new_kafka_client-Good c [] w e)
          (λ h w. pure-Good (λ p. p.topic ≡ topic) _ w refl))
        (λ p w k.
          step-Good (λ p. p.topic ≡ topic) _ _ (ask-Good (ping_client p.client) w)
            (λ _ w. pure-Good (λ p. p.topic ≡ topic) p w k))

  pub init_producer-Good :
      (c : ServerConfig) (name : String) (w : W)
      → c.servers ≡ brokers lib
      → Good (λ p. p.topic ≡ env lib name) (init_producer lib c name w)
  unfolding init_producer
  init_producer-Good c name w e = elim (Bool-cases (is_empty (env lib name))) [
    | inl empty ↦ rw empty (record { holds = tt })
    | inr set ↦ rw set (producer_of-Good c (env lib name) w e)
  ]

  pub env_int-Good : (name : String) (n : ℤ) (w : W) → Good Any (env_int lib name n w)
  unfolding env_int int_or_fail
  env_int-Good name n w = by_error (env lib name) _
    where
      by_error : (s : Runes) (x : ℤ × Option NumError) → Good Any (int_or_fail lib s x w)
      by_error s (m, none) = pure-Good Any m w tt
      by_error s (m, some e) = record { holds = tt }

  pub new_consumer_group-Good :
      (c : ServerConfig) (group topic : Runes) (w : W)
      → c.servers ≡ brokers lib
      → Good Any (new_consumer_group lib c group topic w)
  unfolding new_consumer_group
  new_consumer_group-Good c group topic w e =
      step-Good Any _ _ (new_kafka_client-Good c (consumer_opts group topic) w e)
        (λ h w. step-Good Any _ _ (ask-Good (ping_client h) w) (λ _ w. pure-Good Any h w tt))

  new_redis_db-Good : (c : RedisConfig) (w : W) → Good Any (new_redis_db lib c w)
  unfolding new_redis_db
  new_redis_db-Good c w =
      step-Good Any _ _
        (client_answer-Good (redis_options c) (lib.new_redis_client (redis_options c) w))
        (λ h w. step-Good Any _ _ (ask-Good (ping_redis h) w) (λ _ w.
          step-Good Any _ _
            (when-Good c.use_tracer (ask lib (instrument_redis h)) (ask-Good (instrument_redis h))
              w)
            (λ _ w. pure-Good Any h w tt)))

  pub init_flag_store-Good :
      (name : String) (w : W) → Good (λ flags. flags.name ≡ name) (init_flag_store lib name w)
  unfolding init_flag_store
  init_flag_store-Good name w =
      step-Good (λ flags. flags.name ≡ name) _ _ (env_int-Good "LAGO_REDIS_STORE_DB" (pos 0) w)
        (λ db w.
          step-Good (λ flags. flags.name ≡ name) _ _ (new_redis_db-Good (store_config lib db) w)
            (λ h w. pure-Good (λ flags. flags.name ≡ name) _ w refl))

  pub init_charge_cache_store-Good : (w : W) → Good Any (init_charge_cache_store lib w)
  unfolding init_charge_cache_store
  init_charge_cache_store-Good w =
      step-Good Any _ _ (env_int-Good "LAGO_REDIS_CACHE_DB" (pos 0) w)
        (λ db w. new_redis_db-Good (cache_config lib db) w)

  pub new_connection-Good :
      (n : ℤ) (w : W) → IsInt32 n → Good Any (new_connection lib (env lib "DATABASE_URL") n w)
  unfolding new_connection
  new_connection-Good n w h =
      step-Good Any _ _ (ask-Good (parse_pool_config (env lib "DATABASE_URL")) w) (λ _ w.
        step-Good Any _ _
          (open_answer-Good (pgx_pool (env lib "DATABASE_URL") n)
            (lib.opens (pgx_pool (env lib "DATABASE_URL") n) w) (λ a. (refl, h)))
          (λ db w. step-Good Any _ _ (ask-Good (open_gorm db) w) (λ _ w. pure-Good Any db w tt)))
