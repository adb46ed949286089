-- ===== src/Startup/Configured.antt =====
-- What the environment says reaches the libraries.
use lago_paiement_engine.Prelude.{◌≡◌, refl, Bool, List, [], ◌∷◌, All, String}
use lago_paiement_engine.Prelude.Int.{ℤ}
use lago_paiement_engine.Utils.Env.{Runes}
use lago_paiement_engine.Startup.{
  Producer, FlagStore, EventProcessor, pool, redis, Libraries, calls_of, Action, and_then, closing,
  or_log_and_panic,
}
use lago_paiement_engine.Startup.Client.{ServerConfig, new_consumer_group, start}
use lago_paiement_engine.Startup.Connections.{new_connection}
use lago_paiement_engine.Startup.Processing.{
  env, env_int, int32, init_producer, init_flag_store, init_charge_cache_store, brokers,
  server_config, consume_events, with_cache, with_flags, with_database, with_brokers, for_brokers,
  start_processing_events, enriched_topic_env, enriched_expanded_topic_env, in_advance_topic_env,
  dead_letter_topic_env,
}
use lago_paiement_engine.Startup.Numbers.{int32-IsInt32}
use lago_paiement_engine.Startup.Contracts.{
  calls-All, log_and_panic_at-Holds, close_after-Holds, and_then-Holds,
}
use lago_paiement_engine.Startup.Wiring.{
  init_producer-Good, env_int-Good, new_consumer_group-Good, init_flag_store-Good,
  init_charge_cache_store-Good, new_connection-Good, Good, Any, IsWired, IsConfiguredCall,
}

module _ {W H : Type 0} (lib : Libraries W H) where
  module _ (c : ServerConfig) (seeded : c.servers ≡ brokers lib) where
    -- One more step, and the rest, which may rely on its result.
    next_step-Good :
        {A : Type 0} (P : A → Type 0) (message : String) (m : Action W H A)
        (f : A → Action W H Unit)
        → ((w : W) → Good lib P (m w))
        → ((a : A) (w : W) → P a → Good lib Any (f a w))
        → (w : W) → Good lib Any (and_then (or_log_and_panic message m w) f)
    next_step-Good P message m f h k w =
        and_then-Holds (IsConfiguredCall lib) P Any (or_log_and_panic message m w) f
          (log_and_panic_at-Holds (IsConfiguredCall lib) P message (m w) (λ s. tt, λ e. tt) (h w)) k

    start-Good :
        (h : H) (p : EventProcessor H) (w : W) → IsWired lib p → Good lib Any (start lib h p w)
    start-Good h p w wired = record { holds = (tt, (wired, tt)) }

    consume_events-Good :
        (p : EventProcessor H) (w : W) → IsWired lib p → Good lib Any (consume_events lib c p w)
    unfolding consume_events
    consume_events-Good p w wired =
        next_step-Good Any _ (new_consumer_group lib c _ _) _
          (λ w. new_consumer_group-Good lib c _ _ w seeded) (λ h w u. start-Good h p w wired) w

    with_cache-Good :
        (p : H → EventProcessor H) (w : W)
        → ((cacher : H) → IsWired lib (p cacher))
        → Good lib Any (with_cache lib c p w)
    unfolding with_cache
    with_cache-Good p w wired =
        next_step-Good Any _ (init_charge_cache_store lib)
          (λ h. closing lib (redis h) (consume_events lib c (p h)))
          (init_charge_cache_store-Good lib)
          (λ h w u.
            close_after-Holds (IsConfiguredCall lib) Any lib (redis h) _ tt
              (consume_events-Good (p h) w (wired h)))
          w

    with_flags-Good :
        (p : FlagStore H → H → EventProcessor H) (w : W)
        → ((flags : FlagStore H) (cacher : H)
            → flags.name ≡ "subscription_refreshed"
            → IsWired lib (p flags cacher))
        → Good lib Any (with_flags lib c p w)
    unfolding with_flags
    with_flags-Good p w wired =
        next_step-Good (λ flags. flags.name ≡ "subscription_refreshed") _ (init_flag_store lib _)
          (λ flags. closing lib (redis flags.db) (with_cache lib c (p flags)))
          (init_flag_store-Good lib _)
          (λ flags w named.
            close_after-Holds (IsConfiguredCall lib) Any lib (redis flags.db) _ tt
              (with_cache-Good (p flags) w (λ h. wired flags h named)))
          w

    with_database-Good :
        (n : ℤ) (p : H → FlagStore H → H → EventProcessor H) (w : W)
        → ((db : H) (flags : FlagStore H) (cacher : H)
            → flags.name ≡ "subscription_refreshed"
            → IsWired lib (p db flags cacher))
        → Good lib Any (with_database lib c n p w)
    unfolding with_database
    with_database-Good n p w wired =
        next_step-Good Any _ (new_connection lib _ _)
          (λ db. closing lib (pool db) (with_flags lib c (p db)))
          (λ w. new_connection-Good lib (int32 n) w (int32-IsInt32 n).0)
          (λ db w u.
            close_after-Holds (IsConfiguredCall lib) Any lib (pool db) _ tt
              (with_flags-Good (p db) w (wired db)))
          w

    producer-Good :
        (name message : String) (f : Producer H → Action W H Unit)
        → ((p : Producer H) (w : W) → p.topic ≡ env lib name → Good lib Any (f p w))
        → (w : W)
        → Good lib Any (and_then (or_log_and_panic message (init_producer lib c name) w) f)
    producer-Good name message f k =
        next_step-Good (λ p. p.topic ≡ env lib name) message (init_producer lib c name) f
          (λ w. init_producer-Good lib c name w seeded) k

    with_brokers-Good : (w : W) → Good lib Any (with_brokers lib c w)
    unfolding with_brokers
    with_brokers-Good = producer-Good enriched_topic_env _ _ (λ p1 w e1.
        producer-Good enriched_expanded_topic_env _ _
          (λ p2 w e2.
            producer-Good in_advance_topic_env _ _
              (λ p3 w e3.
                producer-Good dead_letter_topic_env _ _
                  (λ p4 w e4.
                    next_step-Good Any _ (env_int lib _ _) _ (env_int-Good lib _ _)
                      (λ n w u. with_database-Good n _ w (λ db flags cacher named. record {
                        enriched_topic = e1;
                        enriched_expanded_topic = e2;
                        in_advance_topic = e3;
                        dead_letter_topic = e4;
                        flag_name = named;
                      }))
                      w)
                  w)
              w)
          w)

  -- However the start of the processing ends, the brokers of the environment head the options of
  -- each Kafka client, the pool is opened on `DATABASE_URL` with an `int32`, and the consumer group
  -- is served with producers that have the topics of their variables and the flags' name.
  pub start_processing_events-All-IsConfiguredCall :
      (use_telemetry : Bool) (w : W)
      → All (IsConfiguredCall lib) (calls_of (start_processing_events lib use_telemetry w))
  unfolding start_processing_events for_brokers server_config
  start_processing_events-All-IsConfiguredCall use_telemetry w =
      calls-All (IsConfiguredCall lib) Any _ (by_brokers (brokers lib))
    where
      by_brokers : (bs : List Runes) → Good lib Any (for_brokers lib use_telemetry bs w)
      by_brokers [] = record { holds = (tt, tt) }
      by_brokers (b ∷ bs) = with_brokers-Good (server_config lib use_telemetry) refl w
