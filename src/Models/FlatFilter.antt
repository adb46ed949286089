-- ===== src/Models/FlatFilter.antt =====
-- Charge filters (events-processor/models/flat_filters.go).
use lago_paiement_engine.Prelude.{Bool, Option, none, some, List, [], String, length, ltb, map}
use lago_paiement_engine.Utils.Result.{slice_zero}
use lago_paiement_engine.Utils.Time.{Time}

-- A `map[string][]string`, by its entries in the order of an iteration; `none` is a nil map.
abbrev pub FlatFilterValues : Type 0
FlatFilterValues = Option (List (String × List String))

pub record FlatFilter : Type 0 where
  pub organization_id : String
  pub billable_metric_code : String
  pub plan_id : String
  pub charge_id : String
  pub charge_updated_at : Time
  pub charge_filter_id : Option String
  pub charge_filter_updated_at : Option Time
  pub filters : Option FlatFilterValues
  pub pricing_group_keys : Option (List String)
  pub pay_in_advance : Bool

-- The entries of a map behind a pointer; there are none behind a nil pointer or in a nil map.
abbrev pub entries : Option FlatFilterValues → List (String × List String)
entries none = []
entries (some none) = []
entries (some (some m)) = m

-- `Keys`; the caller reads only its length, so a nil slice is the empty one.
pub keys : Option FlatFilterValues → List String
keys filters = map (λ e. e.0) (entries filters)

unfoldable pub has_filters : FlatFilter → Bool
has_filters ff = ltb 0 (length (entries ff.filters))

unfoldable pub to_default_filter : FlatFilter → FlatFilter
to_default_filter ff = record {
  organization_id = ff.organization_id;
  billable_metric_code = ff.billable_metric_code;
  plan_id = ff.plan_id;
  charge_id = ff.charge_id;
  charge_updated_at = ff.charge_updated_at;
  charge_filter_id = none;
  charge_filter_updated_at = none;
  filters = none;
  pricing_group_keys = none;
  pay_in_advance = ff.pay_in_advance;
}
