-- ===== src/Tracing/Attributes.antt =====
-- The attributes of a span, whatever library stands behind it.
use lago_paiement_engine.Prelude.{
  ◌≡◌, refl, ap, sym, ◌∙◌, Option, none, some, ◌⊎◌, List, [], ◌∷◌, ◌++◌, String, All, collect,
  collect-append,
}
use lago_paiement_engine.Utils.Value.{Value}
use lago_paiement_engine.Tracing.Span.{
  Entries, AttributeValue, SpanCall, otel_set_attributes, datadog_set_tag, SpanOp, set_attribute,
  set_attributes, set_error, end_span,
}
use lago_paiement_engine.Tracing.Writes.{or_else, option_map, last, IsMap, last-append}

-- What an operation of a span writes to its attributes.
abbrev pub op_writes : SpanOp → Entries
op_writes (set_attribute key value) = (key, value) ∷ []
op_writes (set_attributes m) = m
op_writes (set_error e) = []
op_writes end_span = []

-- What a span that starts with tags has under a key, after some operations.
abbrev pub attribute_of : Entries → List SpanOp → String → Option Value
attribute_of tags ops k = last k (tags ++ collect op_writes ops)

-- What OpenTelemetry and Datadog are told to hold.
abbrev pub otel_writes : SpanCall → List (String × AttributeValue)
otel_writes (otel_set_attributes kvs) = kvs
otel_writes _ = []

abbrev pub datadog_writes : SpanCall → Entries
datadog_writes (datadog_set_tag key value) = (key, value) ∷ []
datadog_writes _ = []

abbrev pub otel_attribute : List SpanCall → String → Option AttributeValue
otel_attribute calls k = last k (collect otel_writes calls)

abbrev pub datadog_attribute : List SpanCall → String → Option Value
datadog_attribute calls k = last k (collect datadog_writes calls)

-- The maps that the operations are given are maps.
abbrev pub HasMaps : SpanOp → Type 0
HasMaps (set_attributes m) = IsMap m
HasMaps _ = Unit

-- The keys that `DatadogSpan.SetError` writes.
abbrev pub IsErrorKey : String → Type 0
IsErrorKey k = (k ≡ "error") ⊎ (k ≡ "error.msg") ⊎ (k ≡ "error.type")

-- Reading the writes of a run of operations, from the reading of each.
module _ {V : Type 0} (writes : SpanCall → List (String × V)) (p : SpanOp → List SpanCall)
    (f : Value → V) (k : String) where
  option_map-or_else :
      (a b : Option Value) → option_map f (or_else a b) ≡ or_else (option_map f a) (option_map f b)
  option_map-or_else none b = refl
  option_map-or_else (some v) b = refl

  -- The writes of the calls, after earlier ones.
  pub after_earlier :
      (earlier : Entries) (done : List SpanCall) (ops : List SpanOp)
      → last k (collect writes done) ≡ option_map f (last k earlier)
      → last k (collect writes (collect p ops)) ≡ option_map f (last k (collect op_writes ops))
      → last k (collect writes (done ++ collect p ops))
        ≡ option_map f (last k (earlier ++ collect op_writes ops))
  after_earlier earlier done ops h e =
      ap (last k) (collect-append writes done (collect p ops))
      ∙ last-append k (collect writes done) (collect writes (collect p ops))
      ∙ (rw (h, e) (sym (option_map-or_else (last k (collect op_writes ops)) (last k earlier))))
      ∙ sym (ap (option_map f) (last-append k earlier (collect op_writes ops)))

  pub ops-refine :
      ((op : SpanOp)
        → HasMaps op
        → last k (collect writes (p op)) ≡ option_map f (last k (op_writes op)))
      → (ops : List SpanOp) → All HasMaps ops
      → last k (collect writes (collect p ops)) ≡ option_map f (last k (collect op_writes ops))
  ops-refine each [] h = refl
  ops-refine each (op ∷ ops) h =
      after_earlier (op_writes op) (p op) ops (each op h.0) (ops-refine each ops h.1)
