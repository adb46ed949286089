-- ===== src/Lib.antt =====
-- The events processor of Lago (events-processor/, in Go): it consumes batches of raw usage events
-- from Kafka, enriches each with its billable metric, subscription and charges, produces the
-- enriched events, and commits the batch.
--
-- How the parts interact. A partition consumer (config/kafka/consumer.go) hands a polled batch to
-- `ProcessEvents` (processors/events_processor/processor.go), which starts a goroutine for each
-- record. The goroutine decodes the event and calls `processEvent`: the enrichment
-- (enrichment_service.go) reads the database (models/) and expands the event into one for each
-- charge; the producers (event_producer_service.go) send them from goroutines of their own, and put
-- what cannot be sent into the dead letter queue; the subscription is flagged for a refresh
-- (subscription_refresh_service.go) and the cached usage of its charges expires (cache_service.go,
-- models/charge_cache.go). The records that count as processed go back to the consumer, which
-- chooses what to commit.
--
-- Files, and the code that they model (paths below events-processor/):
--   Prelude               shared names, lists, texts and integers; no code
--   Kafka/Commit          config/kafka/consumer.go: `findMaxCommitableRecord` and the choice in
--                         `processRecordsAndCommit`; Key, Loops, Bounds, Safety, Later and Handed
--                         hold the proofs
--   Kafka/Group           config/kafka/consumer.go: the goroutines of a consumer group as a step
--                         relation; Update, Valid and Owned hold the proofs; Poll is `pollRecords`,
--                         and Loop the loop `poll` over it
--   Utils/Result          utils/result.go
--   Utils/ErrorTracker    utils/error_tracker.go: the captures
--   Utils/Env             utils/env.go; Brokers, Numbers and Reading hold the proofs
--   Utils/Time            utils/time.go: `ToTime`, `ToFloat64Timestamp`; Conversion holds proofs,
--                         Format is `Format(time.RFC3339)`, Calendar the dates that `time.Parse`
--                         counts by, Custom the JSON of `CustomTime`, with its proofs in Reading,
--                         Trimming and RoundTrip
--   Utils/Float           the operations of `float64`, a parameter
--   Utils/Value           the dynamic values of JSON and `fmt.Sprintf("%v")`
--   Utils/Json            what `encoding/json` does with dynamic values; Keys and RoundTrip hold the
--                         proofs
--   Models/Event          models/event.go; Json is what `json.Unmarshal` of a record does with its
--                         tags, and Encoding `json.Marshal` of a dead letter; Build, Typed, Reading
--                         and RoundTrip hold the proofs
--   Models/BillableMetric, Models/Subscription, Models/ApiStore
--                         models/billable_metrics.go, models/subscriptions.go, and the queries of
--                         models/flat_filters.go over a parameter for the database
--   Models/FlatFilter, Models/Matching, Models/Column
--                         models/flat_filters.go: the filters, `MatchingFilter`, and the columns'
--                         `Scan` and `Value`
--   Models/ChargeCache    models/charge_cache.go
--   Models/Stores         models/stores.go: the commands to Redis
--   Processors/Enricher, Processors/Charges, Processors/Enrichment
--                         processors/events_processor/enrichment_service.go, and the helpers on
--                         results at the end of processor.go; Grouping, Pricing, Expansion,
--                         Nonempty, Order, First, Returns and Panics hold the proofs
--   Processors/Effect, Processors/Producer
--                         processors/events_processor/event_producer_service.go
--   Processors/Interleaving
--                         the runs of the goroutines of an `errgroup`
--   Processors/Calls      the commands and captures that effects stand for
--   Processors/Services   subscription_refresh_service.go, cache_service.go and models/stores.go
--   Processors/Processor  processors/events_processor/processor.go; Outcome, Returns, Enriched,
--                         Sent, Refreshed, Ends and Batch hold the proofs
--   Partition             one partition of the topic of raw events: `consume` of
--                         config/kafka/consumer.go with `ProcessEvents` as its callback; Batches,
--                         Settled and Ends hold the proofs
--   Kafka/Producer        config/kafka/producer.go: `Produce`
--   Startup               what the start asks of the libraries, and `LogAndPanic` of
--                         utils/error_tracker.go
--   Startup/Client        config/kafka/kafka.go, and the connections of producer.go and consumer.go
--   Startup/Connections   config/redis/redis.go and config/database/database.go
--   Startup/Processing    processors/main_processor.go
--   Startup/Main          main.go
--   Startup/Runs, Closing, Balanced, Serving, Passing, Started, Contracts, Wiring, Configured,
--   NilProvider, Options, Address, Numbers
--                         the proofs about the start
--   Tracing/Span          config/tracing/tracing.go, and the spans and tracers of empty_tracer.go,
--                         otel_tracer.go and datadog_tracer.go
--   Tracing/Provider      config/tracing/tracer.go, and the providers of the three files
--   Tracing/Global        config/tracing/tracer.go: `InitTracer` and `GetTracer`
--   Tracing/Writes, Tags, Attributes, Backends, Choice
--                         the proofs about tracing
--   Tests                 sample data, and the theorems at it
--
-- How state and operations are read. A function keeps its name, in this spelling:
-- `findMaxCommitableRecord` is `find_max_commitable_record`. A function that can panic returns an
-- `Option`, and `none` is the panic. What an operation does to the outside is a list of `Effect`s,
-- one list for each goroutine; only the order within a list is fixed, and a run of the goroutines
-- takes the next effect of any of them. The records that
-- `ProcessEvents` returns are those that count as processed, in any order. A Go map is its list of
-- entries; where the program ranges over a map and the order could matter, the order is a
-- parameter with the law that each entry is visited once. The map of properties is shared by an
-- event and its enriched copy, so a write goes to both. A Go error is its message.
--
-- Parameters. `Floats` (the operations of `float64`), `Enricher` (JSON, the expression library, the
-- database), `Outside` (JSON, the producers' and Redis' answers, the clock) and `Libraries` (the
-- clients of Kafka, Redis and Postgres, and tracing) stand for code that is not part of the
-- repository; `Codec` has what `encoding/json` does with the characters of strings and numbers.
-- Within one batch an answer is a function of its arguments.
--
-- Bounds. Offsets are natural numbers; theorems that compare them with `math.MaxInt64` say so.
-- Instants are whole nanoseconds without a bound; `time.Since` saturates as in Go. The only fuel
-- is that of printing a decimal number: n + 1 steps for n, and each step divides by ten.
--
-- A consumer group is a state with one step for each thing that one of its goroutines or callbacks
-- does; any order of steps is a run. The Kafka client assigns only partitions that are not
-- assigned, takes away only those that are, and runs one callback at a time.
--
-- A partition is a state, too: a fetch takes all records of the log from the position on up to some
-- offset; a commit either fails or acknowledges the highest offset of its records, and never with a
-- nil record; a restart, which is a crash or a rebalance, drops the batch and reads on from the
-- committed offset.
--
-- The start of the program is an action: from a world, which stands for all that the libraries keep,
-- to the end (a return, an error or a panic), the world after it, and the list of the calls that were
-- made, each with its answer. The environment does not change. A deferred close is made however the
-- rest of the function ends. A call of a library returns, with its answer: a panic inside of one, as
-- that of a client that is handed a nil option, is not modelled. A run of `ConsumerGroup.Start` is one call, which ends when the context
-- is cancelled; what happens meanwhile is the consumer group of Kafka/Group.
--
-- A span is what the libraries of tracing are told about it. The program starts spans only with tags.
-- `Outside` has the answers of the producers as Booleans, which are those of Kafka/Producer.
--
-- A document of JSON is a tree; the step between the tree and its characters is left out, and so are
-- the trees of an enriched event and of the columns. In the processing, the decoding of a record is
-- the parameter `unmarshal` of `Outside`, and Models/Event/Json is what it does with the tree.
--
-- Times are printed and parsed in UTC. `Format` is modelled from the first of March of the year 0
-- on, since the dates are counted from there.
--
-- Not modelled: the goroutine of `main` that waits for a signal, and logging, but for the messages
-- before a panic.
pub mod Prelude
pub mod Kafka
pub mod Utils
pub mod Models
pub mod Processors
pub mod Partition
pub mod Startup
pub mod Tracing
pub mod Tests
