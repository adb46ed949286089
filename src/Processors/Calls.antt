-- ===== src/Processors/Calls.antt =====
-- The calls of the libraries that the effects of the processing stand for: the commands to Redis
-- (events-processor/models/stores.go) and what Sentry is told (utils/error_tracker.go).
use lago_paiement_engine.Prelude.{Option, some, List, [], ◌∷◌, ◌++◌, String, ◌≡◌}
use lago_paiement_engine.Utils.Result.{Error}
use lago_paiement_engine.Utils.ErrorTracker.{Capture, capture_error_result_with_extra}
use lago_paiement_engine.Utils.ErrorTracker
use lago_paiement_engine.Models.Event.{Event}
use lago_paiement_engine.Models.Stores.{RedisCommand, FlagStore}
use lago_paiement_engine.Models.Stores
use lago_paiement_engine.Processors.Effect.{
  Effect, capture_error, capture_error_result, flag, expire_key, Outside,
}

-- The captures, with the event as the extra value.
abbrev pub captures_of : List Effect → List (Capture Event)
captures_of [] = []
captures_of (capture_error e ∷ es) = ErrorTracker.capture_error e ∷ captures_of es
captures_of (capture_error_result e code message event ∷ es) =
    capture_error_result_with_extra
      (record { error = e; error_code = code; error_message = message }) "event" (some event)
    ∷ captures_of es
captures_of (e ∷ es) = captures_of es

-- The answers are given for the commands that the stores send.
module _ (answer : RedisCommand → Option Error) (store : FlagStore) where
  abbrev pub command_of : Effect → List RedisCommand
  command_of (flag value) = (Stores.flag answer store value).1
  command_of (expire_key key) = (Stores.expire_key answer key).1
  command_of e = []

  abbrev pub commands_of : List Effect → List RedisCommand
  commands_of [] = []
  commands_of (e ∷ es) = command_of e ++ commands_of es

  -- The stores pass on the answers of Redis.
  pub record IsAnswered (out : Outside) : Type 0 where
    pub flagged : (value : String) → out.flag_error value ≡ (Stores.flag answer store value).0
    pub expired : (key : String) → out.expire_error key ≡ (Stores.expire_key answer key).0.err
