-- ===== src/Models/ChargeCache.antt =====
-- The keys of the charge usage cache (events-processor/models/charge_cache.go).
use lago_paiement_engine.Prelude.{Option, some, List, [], ◌∷◌, ◌++◌, String, join}
use lago_paiement_engine.Utils.Time.{Time}
use lago_paiement_engine.Utils.Time.Format.{format_rfc3339}
use lago_paiement_engine.Models.FlatFilter.{FlatFilter}

abbrev cache_key_version : String
cache_key_version = "1"

-- The parts for the filter of a charge, where both are set.
filter_parts : Option String → Option Time → List String
filter_parts (some id) (some updated_at) = id ∷ format_rfc3339 updated_at ∷ []
filter_parts _ _ = []

key_parts : FlatFilter → String → List String
unfolding filter_parts
key_parts ff sub_id =
    ("charge-usage"
      ∷ cache_key_version
      ∷ ff.charge_id
      ∷ sub_id
      ∷ format_rfc3339 ff.charge_updated_at
      ∷ [])
    ++ filter_parts ff.charge_filter_id ff.charge_filter_updated_at

-- The key that `Expire` expires.
pub cache_key : FlatFilter → String → String
unfolding key_parts
cache_key ff sub_id = join "/" (key_parts ff sub_id)
