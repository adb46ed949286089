-- ===== src/Models/BillableMetric.antt =====
-- Billable metrics (events-processor/models/billable_metrics.go).
use lago_paiement_engine.Prelude.{ℕ, Option, String, ◌==◌, if◌then◌else◌}
use lago_paiement_engine.Utils.Result.{pointer_zero}
use lago_paiement_engine.Utils.Time.{Time}

-- `AggregationType` is an `int`; the constants are numbered by `iota`, which skips 4.
abbrev pub aggregation_type_count : ℕ
aggregation_type_count = 0

unfoldable pub aggregation_type_string : ℕ → String
aggregation_type_string t =
    if t == 0
    then "count"
    else if t == 1
    then "sum"
    else if t == 2
    then "max"
    else if t == 3
    then "unique_count"
    else if t == 5
    then "weighted_sum"
    else if t == 6
    then "latest"
    else if t == 7
    then "custom"
    else ""

pub record BillableMetric : Type 0 where
  pub id : String
  pub organization_id : String
  pub code : String
  pub aggregation_type : ℕ
  pub field_name : String
  pub expression : String
  pub created_at : Time
  pub updated_at : Time
  pub deleted_at : Option Time
