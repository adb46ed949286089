-- ===== src/Models/Stores.antt =====
-- The commands that the stores send to Redis (events-processor/models/stores.go).
use lago_paiement_engine.Prelude.{ℕ, ◌*◌, Bool, true, Option, none, some, List, [], ◌∷◌, String}
use lago_paiement_engine.Utils.Result.{Error, bool_zero, Result, success_result, failed_result_of}

pub data RedisCommand : Type 0 where
  -- The name of the set, and the member that is added.
  sadd : String → String → RedisCommand
  -- The key, and the nanoseconds that it has left.
  expire : String → ℕ → RedisCommand

pub record FlagStore : Type 0 where
  pub name : String

-- A `time.Duration`.
abbrev pub expiration_time : ℕ
expiration_time = 5 * 1000000000

-- `answer` is what Redis answers to a command.
module _ (answer : RedisCommand → Option Error) where
  -- `FlagStore.Flag`: the error that is returned, and the commands.
  abbrev pub flag : FlagStore → String → Option Error × List RedisCommand
  flag store value = (answer (sadd store.name value), sadd store.name value ∷ [])

  abbrev expire_result : Option Error → Result Bool
  expire_result none = success_result true
  expire_result (some e) = failed_result_of (some e)

  -- `CacheStore.ExpireKey`
  abbrev pub expire_key : String → Result Bool × List RedisCommand
  expire_key key =
      (expire_result (answer (expire key expiration_time)), expire key expiration_time ∷ [])
