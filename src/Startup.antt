-- ===== src/Startup.antt =====
-- What the start of the program asks of the libraries, and how its functions end: the shared part
-- of events-processor/processors/main_processor.go, config/kafka/kafka.go, config/redis/redis.go
-- and config/database/database.go, with `LogAndPanic` of utils/error_tracker.go.
pub mod Client
pub mod Connections
pub mod Processing
pub mod Runs
pub mod Closing
pub mod Balanced
pub mod Serving
pub mod Passing
pub mod Started
pub mod Options
pub mod Address
pub mod Numbers
pub mod Main
pub mod NilProvider
pub mod Contracts
pub mod Wiring
pub mod Configured
use lago_paiement_engine.Prelude.{
  Bool, true, false, Option, none, some, List, [], ◌∷◌, ◌++◌, String, ◌⊎◌, inl, inr,
}
use lago_paiement_engine.Prelude.Int.{ℤ}
use lago_paiement_engine.Utils.Result.{Error}
use lago_paiement_engine.Utils.Env.{Runes, NumError}

-- `kgo.Opt`; `nil_opt` is a nil interface.
pub data Opt : Type 0 where
  seed_brokers : List Runes → Opt
  with_logger : Opt
  with_hooks : Opt
  sasl_sha256 sasl_sha512 : Runes → Runes → Opt
  nil_opt : Opt
  dial_tls : Opt
  consumer_group : Runes → Opt
  consume_topics : Runes → Opt
  on_partitions_assigned on_partitions_lost on_partitions_revoked : Opt
  disable_auto_commit block_rebalance_on_poll : Opt

-- `redis.Options`; the timeouts are in seconds.
pub record RedisOptions : Type 0 where
  pub addr : Runes
  pub password : Runes
  pub db : ℤ
  pub dial_timeout : ℤ
  pub read_timeout : ℤ
  pub write_timeout : ℤ
  pub pool_size : ℤ
  pub pool_timeout : ℤ
  pub insecure_tls : Bool

module _ (H : Type 0) where
  -- `Producer`
  pub record Producer : Type 0 where
    pub client : H
    pub topic : Runes

  -- `FlagStore`
  pub record FlagStore : Type 0 where
    pub name : String
    pub db : H

  -- What `NewEventProcessor` is given: the services with their stores and producers.
  pub record EventProcessor : Type 0 where
    pub api_store : H
    pub enriched_producer : Producer
    pub enriched_expanded_producer : Producer
    pub in_advance_producer : Producer
    pub dead_letter_producer : Producer
    pub flag_store : FlagStore
    pub cache_store : H

  -- The calls that return an error or nothing. `H` holds what a library opens.
  pub data Check : Type 0 where
    otlp_metric_exporter otlp_trace_exporter : Check
    ping_client : H → Check
    parse_pool_config : Runes → Check
    open_gorm : H → Check
    ping_redis : H → Check
    instrument_redis : H → Check
    -- `resource.New` with the name of the service and the environment.
    otel_resource : Runes → Runes → Check
    shut_down_exporter : H → Check
    sentry_init : Runes → Runes → Check

  -- The calls that return an error or what they open.
  pub data Opening : Type 0 where
    kgo_client : List Opt → Opening
    pgx_pool : Runes → ℤ → Opening
    -- `otlptrace.New`: whether the connection is secure, and the endpoint.
    otel_exporter : Bool → Runes → Opening

  -- The calls that return nothing.
  pub data Notice : Type 0 where
    set_otel_provider : H → Notice
    -- `ddtracer.Start` with the name of the service, the environment and the address of the agent.
    start_datadog : Runes → Runes → Runes → Notice
    stop_datadog : Notice
    flush_sentry : Notice

  -- What was opened to be closed at the end.
  pub data Resource : Type 0 where
    pool redis : H → Resource

  -- A call with its answer.
  pub data Call : Type 0 where
    checked : Check → Option Error → Call
    opened : Opening → Error ⊎ H → Call
    redis_client : RedisOptions → H → Call
    notified : Notice → Call
    close : Resource → Call
    -- `ConsumerGroup.Start` on the client, with the processor of its records; it ends when the
    -- context is cancelled.
    serve : H → EventProcessor → Call
    log_error : String → Call
    capture_error : Error → Call

-- The libraries, in a world that each call may change.
pub record Libraries (W H : Type 0) : Type 0 where
  pub getenv : Runes → Runes
  -- The error that `strconv.Atoi` returns for a text.
  pub num_error : Runes → NumError → Error
  pub check : Check H → W → Option Error × W
  pub opens : Opening H → W → (Error ⊎ H) × W
  pub new_redis_client : RedisOptions → W → H × W
  pub notify : Notice H → W → W
  pub close_resource : Resource H → W → W
  pub serves : H → EventProcessor H → W → W

-- How a function ends: it returns, it returns an error, or it panics with a text.
pub data Outcome (A : Type 0) : Type 0 where
  returned : A → Outcome A
  failed : Error → Outcome A
  panicked : String → Outcome A

-- The end, the world after it, and the calls that were made.
pub data Ran (W H A : Type 0) : Type 0 where
  ran : Outcome A → W → List (Call H) → Ran W H A

module _ {W H A : Type 0} where
  abbrev pub outcome_of : Ran W H A → Outcome A
  outcome_of (ran o w calls) = o

  abbrev pub calls_of : Ran W H A → List (Call H)
  calls_of (ran o w calls) = calls

abbrev pub Action : Type 0 → Type 0 → Type 0 → Type 0
Action W H A = W → Ran W H A

module _ {W H A : Type 0} where
  abbrev pub pure : A → Action W H A
  pure a w = ran (returned a) w []

  -- `return nil, err`
  abbrev pub fail : Error → Action W H A
  fail e w = ran (failed e) w []

  abbrev pub after_calls : List (Call H) → Ran W H A → Ran W H A
  after_calls calls (ran o w made) = ran o w (calls ++ made)

module _ {W H : Type 0} where
  module _ {A B : Type 0} where
    -- An error or a panic ends the caller too: `if err != nil { return nil, err }`.
    abbrev pub and_then : Ran W H A → (A → Action W H B) → Ran W H B
    and_then (ran (returned a) w calls) f = after_calls calls (f a w)
    and_then (ran (failed e) w calls) f = ran (failed e) w calls
    and_then (ran (panicked s) w calls) f = ran (panicked s) w calls

    infixl 5 ◌>>=◌ ◌>>◌
    abbrev pub ◌>>=◌ : Action W H A → (A → Action W H B) → Action W H B
    m >>= f = λ w. and_then (m w) f

    abbrev pub ◌>>◌ : Action W H A → Action W H B → Action W H B
    m >> k = m >>= λ _. k

  abbrev pub when : Bool → Action W H Unit → Action W H Unit
  when true m = m
  when false m = pure tt

  module _ {A : Type 0} where
    -- `if err != nil { utils.LogAndPanic(logger, err, message) }`
    abbrev pub log_and_panic_at : String → Ran W H A → Ran W H A
    log_and_panic_at message (ran (returned a) w calls) = ran (returned a) w calls
    log_and_panic_at message (ran (failed e) w calls) =
        ran (panicked e.message) w (calls ++ log_error message ∷ capture_error e ∷ [])
    log_and_panic_at message (ran (panicked s) w calls) = ran (panicked s) w calls

    abbrev pub or_log_and_panic : String → Action W H A → Action W H A
    or_log_and_panic message m = λ w. log_and_panic_at message (m w)

module _ {W H : Type 0} where
  abbrev pub check_answer : Check H → Option Error × W → Ran W H Unit
  check_answer c (none, w) = ran (returned tt) w (checked c none ∷ [])
  check_answer c (some e, w) = ran (failed e) w (checked c (some e) ∷ [])

  abbrev pub open_answer : Opening H → (Error ⊎ H) × W → Ran W H H
  open_answer o (inl e, w) = ran (failed e) w (opened o (inl e) ∷ [])
  open_answer o (inr h, w) = ran (returned h) w (opened o (inr h) ∷ [])

module _ {W H : Type 0} (lib : Libraries W H) where
  abbrev pub ask : Check H → Action W H Unit
  ask c = λ w. check_answer c (lib.check c w)

  abbrev pub obtain : Opening H → Action W H H
  obtain o = λ w. open_answer o (lib.opens o w)

  abbrev pub tell : Notice H → Action W H Unit
  tell n = λ w. ran (returned tt) (lib.notify n w) (notified n ∷ [])

  abbrev pub close_after : {A : Type 0} → Resource H → Ran W H A → Ran W H A
  close_after r (ran o w calls) = ran o (lib.close_resource r w) (calls ++ close r ∷ [])

  -- `defer` of a close, before the rest of the function: however the rest ends, it is closed.
  abbrev pub closing : {A : Type 0} → Resource H → Action W H A → Action W H A
  closing r m = λ w. close_after r (m w)
