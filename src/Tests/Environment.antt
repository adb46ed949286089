-- ===== src/Tests/Environment.antt =====
-- The environment, at sample texts, and an expression without properties to write to.
use lago_paiement_engine.Prelude.{◌≡◌, ◌≢◌, ◌↔◌, refl, none, [], ◌∷◌, inr, All}
use lago_paiement_engine.Utils.Env.{Runes, is_space, parse_brokers_env}
use lago_paiement_engine.Utils.Env.Brokers.{IsBroker, join_commas, parse_brokers_env-join}
use lago_paiement_engine.Processors.Enrichment.{evaluate_expression}
use lago_paiement_engine.Processors.Enrichment.Panics.{HasValue, evaluate_expression-none}
use lago_paiement_engine.Tests.Data.{enricher, enriched_us, metric}

-- "a, b"
abbrev two_brokers : Runes
two_brokers = b'a' ∷ b',' ∷ b' ' ∷ b'b' ∷ []

letters : All IsBroker ((b'a' ∷ []) ∷ (b'b' ∷ []) ∷ [])
unfolding is_space
letters = (((refl, tt), refl, refl), (((refl, tt), refl, refl), tt))

parse_brokers_env-join_example :
    parse_brokers_env (join_commas ((b'a' ∷ []) ∷ (b'b' ∷ []) ∷ []))
    ≡ (b'a' ∷ []) ∷ (b'b' ∷ []) ∷ []
parse_brokers_env-join_example = parse_brokers_env-join b'a' [] ((b'b' ∷ []) ∷ []) letters

evaluate_expression-none_example : (evaluate_expression enricher enriched_us metric ≡ none) ↔ (
    (metric.expression ≢ "")
    × (enriched_us.properties ≡ none)
    × HasValue enricher enriched_us metric (inr "tx"))
evaluate_expression-none_example = evaluate_expression-none enricher enriched_us metric
