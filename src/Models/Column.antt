-- ===== src/Models/Column.antt =====
-- The JSONB columns of the filters: `Scan` and `Value` of `FlatFilterValues` and of
-- `PricingGroupKeys` (events-processor/models/flat_filters.go), which are the same but for the
-- type. A column is nil or a value of `A`.
use lago_paiement_engine.Prelude.{
  ◌≡◌, refl, ap, subst, Option, none, some, List, [], ◌∷◌, String, concat, Bytes, ◌⊎◌, inl, inr,
}
use lago_paiement_engine.Utils.Result.{Error}

-- What the driver of the database takes or gives; a value of another type is its type's name.
pub data DriverValue : Type 0 where
  null : DriverValue
  bytes : Bytes → DriverValue
  text : Bytes → DriverValue
  other : String → DriverValue

-- `json.Unmarshal` into a fresh variable, whose nil stands for `null`, and `json.Marshal`.
module _ {A : Type 0} (unmarshal : Bytes → Error ⊎ Option A) (marshal : A → Error ⊎ Bytes) where
  decoded : Option A → Error ⊎ Option A → Option A × Option Error
  decoded old (inl e) = (old, some e)
  decoded old (inr result) = (result, none)

  -- `Scan`: the column, which keeps its value on an error, and the error.
  pub scan : Option A → DriverValue → Option A × Option Error
  unfolding decoded
  scan old null = (none, none)
  scan old (bytes v) = decoded old (unmarshal v)
  scan old (text v) = decoded old (unmarshal v)
  scan old (other name) = (
    old,
    some (record { message = concat ("cannot scan " ∷ name ∷ " into FlatFilterValues" ∷ []) }),
  )

  encoded : Error ⊎ Bytes → Error ⊎ DriverValue
  encoded (inl e) = inl e
  encoded (inr json) = inr (bytes json)

  -- `Value`
  unfoldable pub driver_value : Option A → Error ⊎ DriverValue
  unfolding encoded
  driver_value none = inr null
  driver_value (some a) = encoded (marshal a)

  encoded-scan :
      (a : A) (old : Option A) (json : Error ⊎ Bytes) (d : DriverValue)
      → ((b : Bytes) → json ≡ inr b → unmarshal b ≡ inr (some a))
      → encoded json ≡ inr d
      → scan old d ≡ (some a, none)
  unfolding encoded scan
  encoded-scan a old (inl e) d law h = cc
  encoded-scan a old (inr b) d law h =
      subst (λ x. scan old x ≡ (some a, none)) (same d h) (ap (decoded old) (law b refl))
    where
      same : (d : DriverValue) → encoded (inr b) ≡ inr d → bytes b ≡ d
      same d h = cc

  -- `Scan` reads back what `Value` gives, whatever the column held, where the decoding of JSON
  -- reads back what the encoding gives.
  pub scan-driver_value :
      ((a : A) (json : Bytes) → marshal a ≡ inr json → unmarshal json ≡ inr (some a))
      → (v old : Option A) (d : DriverValue) → driver_value v ≡ inr d
      → scan old d ≡ (v, none)
  unfolding driver_value scan
  scan-driver_value law (some a) old d h = encoded-scan a old (marshal a) d (law a) h
  scan-driver_value law none old d h = subst (λ x. scan old x ≡ (none, none)) (null_eq d h) refl
    where
      null_eq : (d : DriverValue) → driver_value none ≡ inr d → null ≡ d
      null_eq d h = cc

-- The column `pricing_group_keys`, over the JSON of a list of texts.
module _ (unmarshal : Bytes → Error ⊎ Option (List String))
    (marshal : List String → Error ⊎ Bytes) where
  abbrev pub scan_pricing_group_keys :
      Option (List String) → DriverValue → Option (List String) × Option Error
  scan_pricing_group_keys fm value = scan unmarshal marshal fm value

  abbrev pub pricing_group_keys_value : Option (List String) → Error ⊎ DriverValue
  pricing_group_keys_value fm = driver_value unmarshal marshal fm
