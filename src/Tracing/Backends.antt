-- ===== src/Tracing/Backends.antt =====
-- OpenTelemetry and Datadog hold the attributes that the program gives a span.
use mathlib.Core.List.{append-nil, Permᴰ}
use lago_paiement_engine.Prelude.{
  ◌≡◌, ◌≢◌, refl, ap, sym, ◌∙◌, false, Option, none, some, inl, inr, List, [], ◌∷◌, ◌++◌, map,
  String, str_eq, eq_iff, Bool-cases, All, Shuffle, collect,
}
use lago_paiement_engine.Utils.Env.{Runes}
use lago_paiement_engine.Utils.Float.{Floats}
use lago_paiement_engine.Utils.Value.{Value}
use lago_paiement_engine.Tracing.Span.{
  Entries, made, span_config, AttributeValue, otel_tracer, datadog_tracer, SpanOp, set_attribute,
  set_attributes, set_error, end_span, attribute_value, convert_to_otel_attribute, otel_op,
  otel_tag, datadog_op, datadog_tag, otel_tags, otel_start_span, datadog_tags, datadog_start_span,
  start_span, perform,
}
use lago_paiement_engine.Tracing.Tags.{tag_options, tagged-IsMap, lookup-tagged, span_config-tags}
use lago_paiement_engine.Tracing.Attributes.{
  op_writes, attribute_of, otel_writes, datadog_writes, otel_attribute, datadog_attribute, HasMaps,
  IsErrorKey, after_earlier, ops-refine,
}
use lago_paiement_engine.Tracing.Writes.{
  or_else, option_map, last, lookup, IsMap, last-Shuffle, last-map,
}

pub Shuffle-refl : {A : Type 0} (xs : List A) → Shuffle xs xs
Shuffle-refl [] = Permᴰ.nil
Shuffle-refl (x ∷ xs) = Permᴰ.cons refl (Shuffle-refl xs)

option_map-id : (o : Option Value) → option_map (λ v. v) o ≡ o
option_map-id none = refl
option_map-id (some v) = refl

or_else-none : {V : Type 0} (o : Option V) → or_else o none ≡ o
or_else-none none = refl
or_else-none (some v) = refl

-- Each entry of a map is met once, in any order.
abbrev pub IsRange : (Entries → Entries) → Type 0
IsRange range = (m : Entries) → IsMap m → Shuffle (range m) m

module _ (fl : Floats) (range : Entries → Entries) (ranges : IsRange range) (k : String) where
  last-range : (m : Entries) → IsMap m → last k (range m) ≡ last k m
  last-range m h =
      last-Shuffle k m (range m) h (ranges m h) ∙ sym (last-Shuffle k m m h (Shuffle-refl m))

  -- What the tags of the options come to.
  tags-last : (tags : Entries) → lookup k (made (span_config (tag_options tags)).tags) ≡ last k tags
  tags-last tags =
      ap (lookup k) (span_config-tags tags).0 ∙ lookup-tagged k [] tags ∙ or_else-none (last k tags)

  tags-IsMap : (tags : Entries) → IsMap (made (span_config (tag_options tags)).tags)
  tags-IsMap tags = rw (span_config-tags tags).0 (tagged-IsMap [] tags tt)

  abbrev convert : Value → AttributeValue
  convert = attribute_value fl

  otel_entries :
      (m : Entries) → last k (map (convert_to_otel_attribute fl) m) ≡ option_map convert (last k m)
  otel_entries m = last-map convert k m

  otel_op-writes :
      (op : SpanOp)
      → HasMaps op
      → last k (collect otel_writes (otel_op fl range op))
        ≡ option_map convert (last k (op_writes op))
  otel_op-writes (set_attribute j v) h = otel_entries ((j, v) ∷ [])
  otel_op-writes (set_attributes m) h =
      ap (last k) (append-nil (map (convert_to_otel_attribute fl) (range m)))
      ∙ otel_entries (range m)
      ∙ ap (option_map convert) (last-range m h)
  otel_op-writes (set_error e) h = refl
  otel_op-writes end_span h = refl

  otel_tag-writes :
      (m : Entries)
      → collect otel_writes (map (otel_tag fl) m) ≡ map (convert_to_otel_attribute fl) m
  otel_tag-writes [] = refl
  otel_tag-writes (e ∷ m) = ap (◌∷◌ (convert_to_otel_attribute fl e)) (otel_tag-writes m)

  otel_tags-writes :
      (tags : Option Entries)
      → IsMap (made tags)
      → last k (collect otel_writes (otel_tags fl range tags))
        ≡ option_map convert (lookup k (made tags))
  otel_tags-writes none h = refl
  otel_tags-writes (some m) h =
      ap (last k) (otel_tag-writes (range m))
      ∙ otel_entries (range m)
      ∙ ap (option_map convert) (last-Shuffle k m (range m) h (ranges m h))

  otel_start-writes :
      (name : Runes) (operation : String) (tags : Entries)
      → last k (
          collect otel_writes
            (otel_start_span fl range name operation (span_config (tag_options tags))))
        ≡ option_map convert (last k tags)
  otel_start-writes name operation tags = rw (span_config-tags tags).1 (
      otel_tags-writes (span_config (tag_options tags)).tags (tags-IsMap tags)
      ∙ ap (option_map convert) (tags-last tags))

  datadog_tag-writes : (m : Entries) → collect datadog_writes (map datadog_tag m) ≡ m
  datadog_tag-writes [] = refl
  datadog_tag-writes ((j, v) ∷ m) = ap (◌∷◌ (j, v)) (datadog_tag-writes m)

  other_key : (j : String) → k ≢ j → str_eq j k ≡ false
  other_key j h = elim (Bool-cases (str_eq j k)) [
    | inl same ↦ absurd (h (sym ((eq_iff j k).0 same)))
    | inr differ ↦ differ
  ]

  -- An error writes only to its own keys.
  datadog_op-writes :
      (IsErrorKey k → ⊥)
      → (op : SpanOp) → HasMaps op
      → last k (collect datadog_writes (datadog_op fl range op))
        ≡ option_map (λ v. v) (last k (op_writes op))
  datadog_op-writes other (set_attribute j v) h = sym (option_map-id (last k ((j, v) ∷ [])))
  datadog_op-writes other (set_attributes m) h =
      ap (last k) (datadog_tag-writes (range m)) ∙ last-range m h ∙ sym (option_map-id (last k m))
  datadog_op-writes other (set_error e) h =
      rw
        (
          other_key "error" (λ e. other (inl e)),
          other_key "error.msg" (λ e. other (inr (inl e))),
          other_key "error.type" (λ e. other (inr (inr e))),
        )
        refl
  datadog_op-writes other end_span h = refl

  datadog_tags-writes :
      (tags : Option Entries)
      → IsMap (made tags)
      → last k (collect datadog_writes (datadog_tags fl range tags)) ≡ lookup k (made tags)
  datadog_tags-writes none h = refl
  datadog_tags-writes (some m) h =
      ap (last k) (datadog_tag-writes (range m)) ∙ last-Shuffle k m (range m) h (ranges m h)

  datadog_start-writes :
      (service : Runes) (operation : String) (tags : Entries)
      → last k (
          collect datadog_writes
            (datadog_start_span fl range service operation (span_config (tag_options tags))))
        ≡ option_map (λ v. v) (last k tags)
  datadog_start-writes service operation tags = rw (span_config-tags tags).1 (
      ap (λ calls. last k (collect datadog_writes calls))
        (append-nil (datadog_tags fl range (span_config (tag_options tags)).tags))
      ∙ datadog_tags-writes (span_config (tag_options tags)).tags (tags-IsMap tags)
      ∙ tags-last tags
      ∙ sym (option_map-id (last k tags)))

  module _ {Context : Type 0}
      (otel_context datadog_context : Runes → Context → String → Context) where
    -- A span of OpenTelemetry that is started with tags has, after any operations on it, the last
    -- value that they or the tags gave to a key, converted; in whatever order maps are ranged over.
    pub otel_span-Refines :
        (name : Runes) (ctx : Context) (operation : String) (tags : Entries) (ops : List SpanOp)
        → All HasMaps ops
        → let (span, started) =
            start_span fl range otel_context datadog_context
              (otel_tracer name)
              ctx
              operation
              (tag_options tags) in
          otel_attribute
            (started ++ collect (perform fl range otel_context datadog_context span) ops)
            k
          ≡ option_map (attribute_value fl) (attribute_of tags ops k)
    unfolding start_span perform
    otel_span-Refines name ctx operation tags ops h =
        after_earlier otel_writes (otel_op fl range) convert k tags
          (otel_start_span fl range name operation (span_config (tag_options tags))) ops
          (otel_start-writes name operation tags)
          (ops-refine otel_writes (otel_op fl range) convert k otel_op-writes ops h)

    -- A span of Datadog that is started with tags has, after any operations on it, the last value
    -- that they or the tags gave to a key, where the key is none of the three that stand for an
    -- error; in whatever order maps are ranged over.
    pub datadog_span-Refines :
        (service : Runes) (ctx : Context) (operation : String) (tags : Entries) (ops : List SpanOp)
        → (IsErrorKey k → ⊥)
        → All HasMaps ops
        → let (span, started) =
            start_span fl range otel_context datadog_context
              (datadog_tracer service)
              ctx
              operation
              (tag_options tags) in
          datadog_attribute
            (started ++ collect (perform fl range otel_context datadog_context span) ops)
            k
          ≡ attribute_of tags ops k
    unfolding start_span perform
    datadog_span-Refines service ctx operation tags ops other h =
        after_earlier datadog_writes (datadog_op fl range) (λ v. v) k tags
          (datadog_start_span fl range service operation (span_config (tag_options tags))) ops
          (datadog_start-writes service operation tags)
          (ops-refine datadog_writes (datadog_op fl range) (λ v. v) k (datadog_op-writes other) ops
            h)
        ∙ option_map-id (attribute_of tags ops k)
