-- ===== src/Utils/Result.antt =====
-- Results with their flags (events-processor/utils/result.go). A Go `error` is its message; the
-- zero value that a failed result carries is an instance of `Zero`.
use lago_paiement_engine.Prelude.{Bool, true, false, Option, none, some, List, [], String}

pub record Error : Type 0 where
  pub message : String

-- The zero value of a Go type.
pub record Zero {ℓ} (A : Type ℓ) : Type ℓ where
  pub zero_value : A

instance abbrev pub bool_zero : Zero Bool
bool_zero = record { zero_value = false }

-- A nil pointer.
instance abbrev pub pointer_zero {ℓ} : {A : Type ℓ} → Zero (Option A)
pointer_zero = record { zero_value = none }

-- A nil slice.
instance abbrev pub slice_zero {ℓ} : {A : Type ℓ} → Zero (List A)
slice_zero = record { zero_value = [] }

pub record ErrorDetails : Type 0 where
  pub code : String
  pub message : String

pub record Result {ℓ} (A : Type ℓ) : Type ℓ where
  pub value : A
  pub err : Option Error
  pub details : Option ErrorDetails
  pub retryable : Bool
  pub capture : Bool

abbrev is_nil {ℓ} : {A : Type ℓ} → Option A → Bool
is_nil none = true
is_nil (some a) = false

module _ {ℓ} {A : Type ℓ} where
  abbrev pub success : Result A → Bool
  success r = is_nil r.err

  abbrev pub failure : Result A → Bool
  failure r = elim (r.err) [ none ↦ false | some e ↦ true ]

  -- `none` is a panic.
  value_or_panic : Result A → Option A
  value_or_panic r = elim (failure r) [ true ↦ none | false ↦ some r.value ]

  pub error_msg : Result A → String
  error_msg r = elim (r.err) [ none ↦ "" | some e ↦ e.message ]

  abbrev pub add_error_details : String → String → Result A → Result A
  add_error_details code message r = record r {
    details = some (record { code = code; message = message });
  }

  abbrev pub non_retryable : Result A → Result A
  non_retryable r = record r { retryable = false }

  abbrev pub non_capturable : Result A → Result A
  non_capturable r = record r { capture = false }

  abbrev pub error_code : Result A → String
  error_code r = elim (r.details) [ none ↦ "" | some d ↦ d.code ]

  abbrev pub error_message : Result A → String
  error_message r = elim (r.details) [ none ↦ "" | some d ↦ d.message ]

  abbrev pub success_result : A → Result A
  success_result v = record {
    value = v;
    err = none;
    details = none;
    retryable = false;
    capture = false;
  }

  -- `FailedResult(err)`, where `err` may be nil.
  abbrev pub failed_result_of : ⦃z : Zero A⦄ → Option Error → Result A
  failed_result_of ⦃z⦄ e = record {
    value = z.zero_value;
    err = e;
    details = none;
    retryable = true;
    capture = true;
  }
