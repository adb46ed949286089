-- ===== src/Processors/Effect.antt =====
-- What the processing of an event does to the outside: messages to Kafka, captured errors, flags
-- and expired keys in Redis; and how the outside answers.
use lago_paiement_engine.Prelude.{Bool, Option, String, ◌⊎◌, Bytes}
use lago_paiement_engine.Utils.Result.{Error}
use lago_paiement_engine.Utils.Time.{Time}
use lago_paiement_engine.Models.Event.{Event, EnrichedEvent, FailedEvent}

-- The four producers of an `EventProducerService`.
pub data Channel : Type 0 where
  enriched enriched_expanded in_advance dead_letter : Channel

-- `kafka.ProducerMessage`; `none` is a nil slice.
pub record ProducerMessage : Type 0 where
  pub key : Option String
  pub value : Option String

pub data Effect : Type 0 where
  produce : Channel → ProducerMessage → Effect
  -- `utils.CaptureError`; the error may be nil.
  capture_error : Option Error → Effect
  -- `utils.CaptureErrorResultWithExtra`: the error, its code and message, and the event.
  capture_error_result : Option Error → String → String → Event → Effect
  flag : String → Effect
  expire_key : String → Effect

-- The outside during one batch. JSON encoding and decoding, the producers' and stores' answers.
pub record Outside : Type 0 where
  pub unmarshal : Bytes → Error ⊎ Event
  pub marshal_enriched : EnrichedEvent → Error ⊎ String
  pub marshal_failed : FailedEvent → Error ⊎ String
  -- `Produce`: whether the message was pushed.
  pub pushes : Channel → ProducerMessage → Bool
  pub topic : Channel → String
  pub flag_error : String → Option Error
  pub expire_error : String → Option Error
  pub now : Time
