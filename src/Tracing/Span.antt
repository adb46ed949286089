-- ===== src/Tracing/Span.antt =====
-- Spans and their options (events-processor/config/tracing/tracing.go, empty_tracer.go,
-- otel_tracer.go and datadog_tracer.go). A Go map is its list of entries; `range` is the order in
-- which the program meets them.
use lago_paiement_engine.Prelude.{
  Bool, true, Option, none, some, List, [], ◌∷◌, ◌++◌, map, String, str_eq, if◌then◌else◌,
}
use lago_paiement_engine.Prelude.Int.{ℤ}
use lago_paiement_engine.Utils.Result.{Error}
use lago_paiement_engine.Utils.Env.{Runes}
use lago_paiement_engine.Utils.Float.{Float64, Floats}
use lago_paiement_engine.Utils.Value.{
  Value, nil, bool, int, int64, float64, string, list, object, sprint_v,
}

-- `map[string]any`
abbrev pub Entries : Type 0
Entries = List (String × Value)

-- `m[key] = value`
abbrev pub put : String → Value → Entries → Entries
put k v [] = (k, v) ∷ []
put k v ((j, u) ∷ m) = if str_eq j k then (k, v) ∷ m else (j, u) ∷ put k v m

-- `SpanConfig`; `none` is a nil map. No code sets the parent.
pub record SpanConfig : Type 0 where
  pub tags : Option Entries
  pub attributes : Option Entries

abbrev pub SpanOption : Type 0
SpanOption = SpanConfig → SpanConfig

abbrev pub made : Option Entries → Entries
made none = []
made (some m) = m

abbrev pub with_tag : String → Value → SpanOption
with_tag key value cfg = record cfg { tags = some (put key value (made cfg.tags)) }

-- `&SpanConfig{}`, and the loop over the options.
abbrev pub configured : SpanConfig → List SpanOption → SpanConfig
configured cfg [] = cfg
configured cfg (opt ∷ opts) = configured (opt cfg) opts

abbrev pub span_config : List SpanOption → SpanConfig
span_config opts = configured (record { tags = none; attributes = none }) opts

-- `attribute.Value`, by the function that makes it.
pub data AttributeValue : Type 0 where
  string_value : String → AttributeValue
  int_value int64_value : ℤ → AttributeValue
  float64_value : Float64 → AttributeValue
  bool_value : Bool → AttributeValue

-- The calls of the tracing libraries about one span.
pub data SpanCall : Type 0 where
  otel_start : Runes → String → SpanCall
  otel_set_attributes : List (String × AttributeValue) → SpanCall
  otel_record_error : Error → SpanCall
  otel_set_error_status : String → SpanCall
  otel_end : SpanCall
  datadog_start : Runes → String → SpanCall
  datadog_set_tag : String → Value → SpanCall
  datadog_finish : SpanCall

-- `OTelTracer`, `DatadogTracer` and `EmptyTracer`.
pub data Tracer : Type 0 where
  otel_tracer datadog_tracer : Runes → Tracer
  empty_tracer : Tracer

-- A span with its context.
pub data Span (Context : Type 0) : Type 0 where
  otel_span datadog_span empty_span : Context → Span Context

-- The calls of the `Span` interface that do something.
pub data SpanOp : Type 0 where
  set_attribute : String → Value → SpanOp
  set_attributes : Entries → SpanOp
  set_error : Error → SpanOp
  end_span : SpanOp

abbrev pub datadog_tag : String × Value → SpanCall
datadog_tag (key, value) = datadog_set_tag key value

module _ (fl : Floats) where
  -- `convertToOTelAttribute`, as far as the value goes.
  abbrev pub attribute_value : Value → AttributeValue
  attribute_value (string s) = string_value s
  attribute_value (int n) = int_value n
  attribute_value (int64 n) = int64_value n
  attribute_value (float64 f) = float64_value f
  attribute_value (bool b) = bool_value b
  attribute_value nil = string_value (sprint_v fl nil)
  attribute_value (list xs) = string_value (sprint_v fl (list xs))
  attribute_value (object fs) = string_value (sprint_v fl (object fs))

  abbrev pub convert_to_otel_attribute : String × Value → String × AttributeValue
  convert_to_otel_attribute (key, value) = (key, attribute_value value)

  abbrev pub otel_tag : String × Value → SpanCall
  otel_tag e = otel_set_attributes (convert_to_otel_attribute e ∷ [])

module _ (fl : Floats) (range : Entries → Entries) where
  -- The methods of `OTelSpan`.
  abbrev pub otel_op : SpanOp → List SpanCall
  otel_op (set_attribute key value) = otel_tag fl (key, value) ∷ []
  otel_op (set_attributes m) =
      otel_set_attributes (map (convert_to_otel_attribute fl) (range m)) ∷ []
  otel_op (set_error e) = otel_record_error e ∷ otel_set_error_status e.message ∷ []
  otel_op end_span = otel_end ∷ []

  -- The methods of `DatadogSpan`.
  abbrev pub datadog_op : SpanOp → List SpanCall
  datadog_op (set_attribute key value) = datadog_set_tag key value ∷ []
  datadog_op (set_attributes m) = map datadog_tag (range m)
  datadog_op (set_error e) =
      datadog_set_tag "error" (bool true)
      ∷ datadog_set_tag "error.msg" (string e.message)
      ∷ datadog_set_tag "error.type" (string "error")
      ∷ []
  datadog_op end_span = datadog_finish ∷ []

  abbrev pub otel_attributes : Option Entries → List SpanCall
  otel_attributes none = []
  otel_attributes (some m) = otel_set_attributes (map (convert_to_otel_attribute fl) (range m)) ∷ []

  abbrev pub otel_tags : Option Entries → List SpanCall
  otel_tags none = []
  otel_tags (some m) = map (otel_tag fl) (range m)

  abbrev pub datadog_tags : Option Entries → List SpanCall
  datadog_tags none = []
  datadog_tags (some m) = map datadog_tag (range m)

  -- The calls of the two `StartSpan` on their libraries.
  abbrev pub otel_start_span : Runes → String → SpanConfig → List SpanCall
  otel_start_span name operation config =
      otel_start name operation ∷ otel_attributes config.attributes ++ otel_tags config.tags

  abbrev pub datadog_start_span : Runes → String → SpanConfig → List SpanCall
  datadog_start_span service operation config =
      datadog_start service operation ∷ datadog_tags config.tags ++ datadog_tags config.attributes

  module _ {Context : Type 0}
      (otel_context datadog_context : Runes → Context → String → Context) where
    -- `StartSpan`: the span, and the calls that it makes.
    unfoldable pub start_span :
        Tracer → Context → String → List SpanOption → Span Context × List SpanCall
    start_span (otel_tracer name) ctx operation opts = (
      otel_span (otel_context name ctx operation),
      otel_start_span name operation (span_config opts),
    )
    start_span (datadog_tracer service) ctx operation opts = (
      datadog_span (datadog_context service ctx operation),
      datadog_start_span service operation (span_config opts),
    )
    start_span empty_tracer ctx operation opts = (empty_span ctx, [])

    -- A call of a method of the span.
    unfoldable pub perform : Span Context → SpanOp → List SpanCall
    perform (otel_span ctx) op = otel_op op
    perform (datadog_span ctx) op = datadog_op op
    perform (empty_span ctx) op = []

    -- `GetContext`
    pub get_context : Span Context → Context
    get_context (otel_span ctx) = ctx
    get_context (datadog_span ctx) = ctx
    get_context (empty_span ctx) = ctx
