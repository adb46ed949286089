-- ===== src/Models/ApiStore.antt =====
-- The reads of the application's database (events-processor/models: stores.go and the `Fetch`
-- methods of billable_metrics.go, subscriptions.go and flat_filters.go). What gorm and the
-- database answer is a parameter.
use lago_paiement_engine.Prelude.{
  ◌⊎◌, inl, inr, Option, none, some, List, String, str_eq, if◌then◌else◌,
}
use lago_paiement_engine.Utils.Result.{
  Error, pointer_zero, slice_zero, Result, success_result, failed_result_of, non_capturable,
  non_retryable,
}
use lago_paiement_engine.Utils.Time.{Time}
use lago_paiement_engine.Models.BillableMetric.{BillableMetric}
use lago_paiement_engine.Models.Subscription.{Subscription}
use lago_paiement_engine.Models.FlatFilter.{FlatFilter}

pub record ApiStore : Type 0 where
  -- The text of `gorm.ErrRecordNotFound`.
  pub record_not_found : String
  -- `First(&bm, "organization_id = ? AND code = ?", …)`: an error, or the row.
  pub first_billable_metric : String → String → Error ⊎ BillableMetric
  -- The query of `FetchSubscription`, limited to one row: an error, or the row if there is one.
  pub find_subscription : String → String → Time → Error ⊎ Option Subscription
  -- `Find(&filters, "plan_id = ? AND billable_metric_code = ?", …)`
  pub find_flat_filters : String → String → Error ⊎ List FlatFilter

module _ (store : ApiStore) where
  -- `failedBillabmeMetricResult` and `failedSubscriptionResult`, which are the same but for the type.
  failed_fetch_result : {A : Type 0} → Error → Result (Option A)
  failed_fetch_result e =
      if str_eq e.message store.record_not_found
      then non_retryable (non_capturable (failed_result_of (some e)))
      else failed_result_of (some e)

  billable_metric_result : Error ⊎ BillableMetric → Result (Option BillableMetric)
  billable_metric_result (inl e) = failed_fetch_result e
  billable_metric_result (inr bm) = success_result (some bm)

  unfoldable pub fetch_billable_metric : String → String → Result (Option BillableMetric)
  unfolding failed_fetch_result billable_metric_result
  fetch_billable_metric organization_id code =
      billable_metric_result (store.first_billable_metric organization_id code)

  abbrev not_found : Error
  not_found = record { message = store.record_not_found }

  -- Without a row `sub` keeps an empty ID.
  subscription_result : Error ⊎ Option Subscription → Result (Option Subscription)
  subscription_result (inl e) = failed_fetch_result e
  subscription_result (inr none) = failed_fetch_result not_found
  subscription_result (inr (some sub)) =
      if str_eq sub.id "" then failed_fetch_result not_found else success_result (some sub)

  unfoldable pub fetch_subscription : String → String → Time → Result (Option Subscription)
  unfolding failed_fetch_result subscription_result
  fetch_subscription organization_id external_id timestamp =
      subscription_result (store.find_subscription organization_id external_id timestamp)

  flat_filters_result : Error ⊎ List FlatFilter → Result (List FlatFilter)
  flat_filters_result (inl e) = failed_result_of (some e)
  flat_filters_result (inr filters) = success_result filters

  unfoldable pub fetch_flat_filters : String → String → Result (List FlatFilter)
  unfolding flat_filters_result
  fetch_flat_filters plan_id billable_metric_code =
      flat_filters_result (store.find_flat_filters plan_id billable_metric_code)
