-- ===== src/Tests/Data.antt =====
-- Sample data: a batch of records, filters, events, and concrete surroundings of the program.
use mathlib.Core.List.{Permᴰ}
use lago_paiement_engine.Prelude.{
  ℕ, ◌-◌, ◌*◌, ◌/◌, ◌==◌, Bool, true, false, not, none, some, List, [], ◌∷◌, String, inl, inr,
  Shuffle, str_eq, if◌then◌else◌,
}
use lago_paiement_engine.Prelude.Int.{pos, pos_part}
use lago_paiement_engine.Utils.Float.{Floats}
use lago_paiement_engine.Utils.Value.{Value, int, string, decimal_text}
use lago_paiement_engine.Utils.Time.{Time}
use lago_paiement_engine.Models.BillableMetric.{BillableMetric}
use lago_paiement_engine.Models.Subscription.{Subscription}
use lago_paiement_engine.Models.FlatFilter.{FlatFilter}
use lago_paiement_engine.Models.Event.{Event, EnrichedEvent}
use lago_paiement_engine.Models.ApiStore.{ApiStore}
use lago_paiement_engine.Kafka.Commit.{Record}
use lago_paiement_engine.Processors.Enricher.{Charges, Enricher}
use lago_paiement_engine.Processors.Effect.{Channel, Outside}

-- A float that stands for a whole number is stored as that number.
abbrev pub whole_floats : Floats
whole_floats = record {
  parse_float = λ s.
      if str_eq s "7"
      then inr (record { bits = 7 })
      else inl (record { message = "invalid syntax" });
  of_int64 = λ n. record { bits = pos_part n };
  to_int64 = λ f. pos f.bits;
  sub = λ a b. record { bits = a.bits - b.bits };
  mul = λ a b. record { bits = a.bits * b.bits };
  div = λ a b. record { bits = a.bits / b.bits };
  trunc = λ f. f;
  format_f = λ f. decimal_text (pos f.bits);
  format_v = λ f. decimal_text (pos f.bits);
}

abbrev pub at_second : ℕ → Time
at_second n = record { nanos = pos (n * 1000000000) }

abbrev pub filter_of : String → String → String → FlatFilter
filter_of charge key value = record {
  organization_id = "org";
  billable_metric_code = "calls";
  plan_id = "plan";
  charge_id = charge;
  charge_updated_at = at_second 1;
  charge_filter_id = some "filter";
  charge_filter_updated_at = some (at_second 1);
  filters = some (some ((key, value ∷ []) ∷ []));
  pricing_group_keys = none;
  pay_in_advance = true;
}

abbrev pub filter_eu : FlatFilter
filter_eu = filter_of "charge_1" "region" "eu"

abbrev pub filter_us : FlatFilter
filter_us = filter_of "charge_1" "region" "us"

abbrev pub filter_other : FlatFilter
filter_other = filter_of "charge_2" "kind" "call"

abbrev pub properties_us : List (String × Value)
properties_us = ("region", string "us") ∷ []

abbrev pub event_us : Event
event_us = record {
  organization_id = "org";
  external_subscription_id = "ext";
  transaction_id = "tx";
  code = "calls";
  properties = some properties_us;
  precise_total_amount_cents = "";
  source = "http";
  timestamp = int (pos 5);
  source_metadata = none;
  ingested_at = at_second 10;
}

abbrev pub subscription_1 : Subscription
subscription_1 = record {
  id = "sub";
  external_id = "ext";
  plan_id = "plan";
  created_at = at_second 1;
  updated_at = at_second 1;
  started_at = some (at_second 1);
  terminated_at = none;
}

abbrev pub enriched_us : EnrichedEvent
enriched_us = record {
  initial_event = event_us;
  billable_metric = none;
  subscription = some subscription_1;
  flat_filter = none;
  organization_id = "org";
  external_subscription_id = "ext";
  subscription_id = "sub";
  plan_id = "plan";
  transaction_id = "tx";
  code = "calls";
  aggregation_type = "count";
  properties = some properties_us;
  precise_total_amount_cents = "";
  source = "http";
  value = some "1";
  timestamp = record { bits = 5 };
  timestamp_str = "5";
  time = at_second 5;
  charge_id = none;
  charge_updated_at = none;
  charge_filter_id = none;
  charge_filter_updated_at = none;
  grouped_by = [];
}

abbrev pub metric : BillableMetric
metric = record {
  id = "bm";
  organization_id = "org";
  code = "calls";
  aggregation_type = 1;
  field_name = "total";
  expression = "1 + 1";
  created_at = at_second 1;
  updated_at = at_second 1;
  deleted_at = none;
}

-- A database that times out on billable metrics, and has one subscription and three filters.
abbrev pub slow_store : ApiStore
slow_store = record {
  record_not_found = "record not found";
  first_billable_metric = λ organization_id code. inl (record { message = "timeout" });
  find_subscription = λ organization_id external_id timestamp. inr (some subscription_1);
  find_flat_filters = λ plan_id code. inr (filter_eu ∷ filter_other ∷ filter_us ∷ []);
}

-- A database that has a metric without an expression, and the filters of two charges.
abbrev pub count_metric : BillableMetric
count_metric = record metric { aggregation_type = 0; expression = "" }

abbrev pub full_store : ApiStore
full_store = record slow_store {
  first_billable_metric = λ organization_id code. inr count_metric;
  find_flat_filters = λ plan_id code. inr (filter_us ∷ filter_other ∷ []);
}

pub same_order : (m : Charges) → Shuffle m m
same_order [] = Permᴰ.nil
same_order (e ∷ m) = Permᴰ.cons (λ i. e) (same_order m)

abbrev pub enricher : Enricher
enricher = record {
  floats = whole_floats;
  marshal = λ ev. inr ev.transaction_id;
  evaluate = λ expression json. some expression;
  api_store = slow_store;
  range = λ m. m;
  range-Shuffle = same_order;
}

abbrev pub full_enricher : Enricher
full_enricher = record enricher { api_store = full_store }

-- At 20 seconds; an event is read from an empty value, and other values are not read; only
-- messages in advance are not pushed.
abbrev pub outside : Outside
outside = record {
  unmarshal = λ value. elim value [
    | [] ↦ inr event_us
    | x ∷ xs ↦ inl (record { message = "invalid character" })
  ];
  marshal_enriched = λ ev. inr ev.transaction_id;
  marshal_failed = λ failed. inr failed.error_code;
  pushes = λ channel message. elim channel [ Channel.in_advance ↦ false | _ ↦ true ];
  topic = λ channel. "events";
  flag_error = λ value. none;
  expire_error = λ key. none;
  now = at_second 20;
}

abbrev pub record_at : ℕ → Record
record_at n = record { key = b'k' ∷ []; value = []; offset = n }

-- Of the records at 10, 11 and 12 all but the one at 11 are done; that at 12 first.
abbrev pub batch : List Record
batch = record_at 10 ∷ record_at 11 ∷ record_at 12 ∷ []

abbrev pub done_records : List Record
done_records = record_at 12 ∷ record_at 10 ∷ []

abbrev pub done : Record → Bool
done r = not (r.offset == 11)

abbrev pub done_order : Shuffle done_records (record_at 10 ∷ record_at 12 ∷ [])
done_order = Permᴰ.swap (λ i. record_at 12) (λ i. record_at 10)

-- A record that cannot be read.
abbrev pub unreadable_at : ℕ → Record
unreadable_at n = record { key = b'k' ∷ []; value = b'?' ∷ []; offset = n }
