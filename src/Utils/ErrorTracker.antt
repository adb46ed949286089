-- ===== src/Utils/ErrorTracker.antt =====
-- What Sentry is told about errors (events-processor/utils/error_tracker.go; `AnyResult` of
-- utils/result.go as the capture of an error reads it).
use lago_paiement_engine.Prelude.{
  Option, none, List, [], ◌∷◌, String, ◌⊎◌, inl, inr, str_eq, if◌then◌else◌,
}
use lago_paiement_engine.Utils.Result.{Error, Result, error_code, error_message}

pub record AnyResult : Type 0 where
  pub error : Option Error
  pub error_code : String
  pub error_message : String

abbrev pub any_result {ℓ} : {A : Type ℓ} → Result A → AnyResult
any_result r = record { error = r.err; error_code = error_code r; error_message = error_message r }

module _ (E : Type 0) where
  -- An exception, which may be nil, with the calls of `SetExtra` of its scope.
  pub record Capture : Type 0 where
    pub exception : Option Error
    pub extras : List (String × (String ⊎ Option E))

module _ {E : Type 0} where
  -- `none` is a nil value.
  pub capture_error_result_with_extra : AnyResult → String → Option E → Capture E
  capture_error_result_with_extra r key value = record {
    exception = r.error;
    extras =
        ("error_code", inl r.error_code)
        ∷ ("error_message", inl r.error_message)
        ∷ (if str_eq key "" then [] else (key, inr value) ∷ []);
  }

  pub capture_error_result : AnyResult → Capture E
  capture_error_result r = capture_error_result_with_extra r "" none

  pub capture_error : Option Error → Capture E
  capture_error e = record { exception = e; extras = [] }
