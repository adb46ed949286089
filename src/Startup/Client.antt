-- ===== src/Startup/Client.antt =====
-- The Kafka client and the connection of producers and of the consumer group
-- (events-processor/config/kafka/kafka.go, producer.go and consumer.go).
use lago_paiement_engine.Prelude.{Bool, List, [], ◌∷◌, ◌++◌, if◌then◌else◌, codes}
use lago_paiement_engine.Utils.Env.{Runes, runes_eq, is_empty}
use lago_paiement_engine.Startup.{
  Opt, seed_brokers, with_logger, with_hooks, sasl_sha256, sasl_sha512, nil_opt, dial_tls,
  consumer_group, consume_topics, on_partitions_assigned, on_partitions_lost, on_partitions_revoked,
  disable_auto_commit, block_rebalance_on_poll, otlp_metric_exporter, otlp_trace_exporter,
  ping_client, kgo_client, serve, Producer, EventProcessor, Libraries, ran, returned, Action, pure,
  ◌>>=◌, ◌>>◌, when, ask, obtain,
}

-- `ServerConfig`
pub record ServerConfig : Type 0 where
  pub scram_algorithm : Runes
  pub tls : Bool
  pub servers : List Runes
  pub use_telemetry : Bool
  pub user_name : Runes
  pub password : Runes

-- `switch serverConfig.ScramAlgorithm`: the option stays nil for a name that it does not know.
unfoldable pub scram_opt : ServerConfig → Opt
scram_opt c =
    if runes_eq c.scram_algorithm (codes "SCRAM-SHA-256")
    then sasl_sha256 c.user_name c.password
    else if runes_eq c.scram_algorithm (codes "SCRAM-SHA-512")
    then sasl_sha512 c.user_name c.password
    else nil_opt

-- The options that `NewKafkaClient` hands to `kgo.NewClient`.
unfoldable pub client_opts : ServerConfig → List Opt → List Opt
unfolding scram_opt
client_opts c config =
    (seed_brokers c.servers ∷ with_logger ∷ [])
    ++ config
    ++ (if c.use_telemetry then with_hooks ∷ [] else [])
    ++ (if is_empty c.scram_algorithm then [] else scram_opt c ∷ [])
    ++ (if c.tls then dial_tls ∷ [] else [])

-- The name of the consumer group, and the options of `NewConsumerGroup`.
pub consumer_opts : Runes → Runes → List Opt
consumer_opts group topic =
    consumer_group (group ++ (b'_' ∷ topic))
    ∷ consume_topics topic
    ∷ on_partitions_assigned
    ∷ on_partitions_lost
    ∷ on_partitions_revoked
    ∷ disable_auto_commit
    ∷ block_rebalance_on_poll
    ∷ []

module _ {W H : Type 0} (lib : Libraries W H) where
  -- `initMeterProvider` and `initTracerProvider`
  abbrev pub init_telemetry : Action W H Unit
  init_telemetry = do ask lib otlp_metric_exporter; ask lib otlp_trace_exporter

  unfoldable pub new_kafka_client : ServerConfig → List Opt → Action W H H
  unfolding client_opts
  new_kafka_client c config = do
    when c.use_telemetry init_telemetry
    obtain lib (kgo_client (client_opts c config))

  unfoldable pub new_producer : ServerConfig → Runes → Action W H (Producer H)
  unfolding new_kafka_client
  new_producer c topic = do
    client ← new_kafka_client c []
    pure (record { client = client; topic = topic })

  -- `Producer.Ping`
  abbrev pub ping : Producer H → Action W H Unit
  ping p = ask lib (ping_client p.client)

  unfoldable pub new_consumer_group : ServerConfig → Runes → Runes → Action W H H
  unfolding new_kafka_client consumer_opts
  new_consumer_group c group topic = do
    client ← new_kafka_client c (consumer_opts group topic)
    ask lib (ping_client client)
    pure client

  -- `ConsumerGroup.Start`
  abbrev pub start : H → EventProcessor H → Action W H Unit
  start client processor =
      λ w. ran (returned tt) (lib.serves client processor w) (serve client processor ∷ [])
