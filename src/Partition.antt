-- ===== src/Partition.antt =====
-- One partition of the topic of raw events, from its log to the offset that the consumer group has
-- committed (`consume` and `processRecordsAndCommit` of events-processor/config/kafka/consumer.go,
-- with `ProcessEvents` of events-processor/processors/events_processor/processor.go as the
-- callback). The broker and its client are the premises of the steps.
pub mod Batches
pub mod Settled
pub mod Ends
use lago_paiement_engine.Prelude.{
  ℕ, suc, ◌<◌, ◌≤◌, ◌≡◌, ◌⊎◌, Bool, true, false, not, ◌||◌, Option, none, some, List, [], ◌∷◌, ◌==◌,
  length, All, Some,
}
use lago_paiement_engine.Kafka.Commit.{Record, max_int64, commitable_records}
use lago_paiement_engine.Kafka.Commit.Safety.{IsDistinct}
use lago_paiement_engine.Processors.Enricher.{Enricher}
use lago_paiement_engine.Processors.Effect.{Outside}
use lago_paiement_engine.Processors.Processor.{Handled, handle_record}
use lago_paiement_engine.Processors.Processor.Batch.{IsProcessEvents}

-- A batch that the client has fetched: the offset from which it was read, and its records.
pub record Batch : Type 0 where
  pub start : ℕ
  pub records : List Record

-- A batch that was processed to its end, with what the outside answered meanwhile.
pub record Finished : Type 0 where
  pub out : Outside
  pub env : Enricher
  pub records : List Record

-- The first offset that is not committed; the offset that the client fetches next; the batch that
-- the consumer works on; and the batches that are finished, the last one first.
pub record Partition : Type 0 where
  pub committed : ℕ
  pub position : ℕ
  pub batch : Option Batch
  pub finished : List Finished

-- The records of the log from one offset up to another.
pub record IsFetch (log : List Record) (start end : ℕ) (records : List Record) : Type 0 where
  pub after_start : All (λ r. start ≤ r.offset) records
  pub below : All (λ r. r.offset < end) records
  pub complete : All (λ r. start ≤ r.offset → r.offset < end → Some (λ x. x ≡ r) records) log
  pub distinct : IsDistinct records
  pub small : All (λ r. r.offset < max_int64) records

-- A commit acknowledges all offsets up to the highest of its records. No nil record can be
-- committed.
abbrev pub AtMost : ℕ → Option Record → Type 0
AtMost offset none = ⊥
AtMost offset (some m) = m.offset ≤ offset

abbrev pub HasOffset : ℕ → Option Record → Type 0
HasOffset offset none = ⊥
HasOffset offset (some m) = m.offset ≡ offset

abbrev pub IsAcknowledged : List (Option Record) → ℕ → Type 0
IsAcknowledged records offset = Some (HasOffset offset) records × All (AtMost offset) records

-- The offset after `CommitRecords`: as before where it fails, or behind what is acknowledged.
pub data IsCommit (before : ℕ) (records : List (Option Record)) (after : ℕ) : Type 0 where
  fails : after ≡ before → IsCommit before records after
  succeeds :
      (offset : ℕ)
      → after ≡ suc offset
      → IsAcknowledged records offset
      → IsCommit before records after

-- The goroutine of the record ends without a panic.
abbrev pub IsHandled : Outside → Enricher → Record → Type 0
IsHandled out env r = (h : Handled) × (handle_record out env r ≡ some h)

abbrev pub finish : Batch → Outside → Enricher → List Record → ℕ → Partition → Partition
finish b out env processed after p = record p {
  committed = after;
  batch = none;
  finished = record { out = out; env = env; records = b.records } ∷ p.finished;
}

-- One step.
pub data Step (log : List Record) (p : Partition) : Partition → Type 0 where
  fetch :
      (end : ℕ) (records : List Record)
      → p.batch ≡ none
      → p.position ≤ end
      → IsFetch log p.position end records
      → Step log p (record p {
        batch = some (record { start = p.position; records = records });
        position = end;
      })
  -- `processRecordsAndCommit`
  process_and_commit :
      (b : Batch) (out : Outside) (env : Enricher) (processed : List Record) (after : ℕ)
      → p.batch ≡ some b
      → All (IsHandled out env) b.records
      → IsProcessEvents out env b.records processed
      → IsCommit p.committed (commitable_records processed b.records) after
      → Step log p (finish b out env processed after p)
  -- A crash, or a rebalance: the partition is read again from what is committed.
  restart : Step log p (record p { batch = none; position = p.committed })

-- A partition of which nothing is read.
abbrev pub unread : Partition
unread = record { committed = 0; position = 0; batch = none; finished = [] }

pub data Steps (log : List Record) (p : Partition) : Partition → Type 0 where
  stay : Steps log p p
  next_step : {q r : Partition} → Steps log p q → Step log q r → Steps log p r
