-- ===== src/Processors/Services.antt =====
-- The refresh of subscriptions and the expiry of cached charge usage (events-processor/processors/
-- events_processor: subscription_refresh_service.go and cache_service.go; models/stores.go).
use lago_paiement_engine.Prelude.{
  Bool, true, Option, none, some, List, [], ◌∷◌, ◌++◌, String, concat,
}
use lago_paiement_engine.Utils.Result.{Error, bool_zero, Result, success_result, failed_result_of}
use lago_paiement_engine.Models.FlatFilter.{FlatFilter}
use lago_paiement_engine.Models.Event.{EnrichedEvent}
use lago_paiement_engine.Models.ChargeCache.{cache_key}
use lago_paiement_engine.Processors.Effect.{Effect, flag, expire_key, capture_error, Outside}

-- The value that `FlagSubscriptionRefresh` adds to the set of flags.
abbrev pub refresh_value : EnrichedEvent → String
refresh_value event = concat (event.organization_id ∷ ":" ∷ event.subscription_id ∷ [])

module _ (out : Outside) where
  unfoldable pub flag_result : Option Error → Result Bool
  flag_result none = success_result true
  flag_result (some e) = failed_result_of (some e)

  -- `FlagSubscriptionRefresh`, over `FlagStore.Flag`.
  unfoldable pub flag_subscription_refresh : EnrichedEvent → Result Bool × List Effect
  unfolding flag_result
  flag_subscription_refresh event =
      (flag_result (out.flag_error (refresh_value event)), flag (refresh_value event) ∷ [])

  unfoldable pub expire_answer : Option Error → List Effect
  expire_answer none = []
  expire_answer (some e) = capture_error (some e) ∷ []

  -- `Expire` over `CacheStore.ExpireKey`, with the capture of an error by `ExpireCache`.
  unfoldable pub expire_filter : Option FlatFilter → String → List Effect
  expire_filter none subscription_id = []
  expire_filter (some filter) subscription_id =
      let key = cache_key filter subscription_id in
      expire_key key ∷ expire_answer (out.expire_error key)

  unfoldable pub expire_cache : List EnrichedEvent → List Effect
  unfolding expire_answer expire_filter
  expire_cache [] = []
  expire_cache (event ∷ events) =
      expire_filter event.flat_filter event.subscription_id ++ expire_cache events
