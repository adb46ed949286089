-- ===== src/Kafka/Producer.antt =====
-- A producer of messages to one topic (`Produce` of events-processor/config/kafka/producer.go).
-- `Outside.pushes` is the `pushed` of its answers.
use lago_paiement_engine.Prelude.{
  Bool, true, false, Option, none, some, List, [], ◌∷◌, ◌++◌, String,
}
use lago_paiement_engine.Utils.Result.{Error}
use lago_paiement_engine.Utils.Env.{Runes}
use lago_paiement_engine.Utils.Float.{Floats}
use lago_paiement_engine.Tracing.Span.{Entries, SpanCall, Tracer, end_span, start_span, perform}
use lago_paiement_engine.Processors.Effect.{ProducerMessage}

-- `kgo.Record`, as `Produce` fills it.
pub record ProducedRecord : Type 0 where
  pub topic : Runes
  pub key : Option String
  pub value : Option String

abbrev pub record_of : Runes → ProducerMessage → ProducedRecord
record_of topic msg = record { topic = topic; key = msg.key; value = msg.value }

-- What `Produce` returns, the errors that it captures, and the calls about its span.
pub record Produced : Type 0 where
  pub pushed : Bool
  pub captured : List Error
  pub span_calls : List SpanCall

-- `produce_sync` is `ProduceSync` with `FirstErr`; `tracer` is the global tracer.
module _ (fl : Floats) (range : Entries → Entries) {Context : Type 0}
    (otel_context datadog_context : Runes → Context → String → Context) (tracer : Tracer)
    (produce_sync : ProducedRecord → Option Error) where
  after_produce : Option Error → List SpanCall → Produced
  after_produce none calls = record { pushed = true; captured = []; span_calls = calls }
  after_produce (some e) calls = record { pushed = false; captured = e ∷ []; span_calls = calls }

  pub produce : Context → Runes → ProducerMessage → Produced
  unfolding after_produce
  produce ctx topic msg =
      let (span, started) =
        start_span fl range otel_context datadog_context tracer ctx "Producer.Produce" [] in
      after_produce (produce_sync (record_of topic msg))
        (started ++ perform fl range otel_context datadog_context span end_span)
