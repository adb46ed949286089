-- ===== src/Partition/Ends.antt =====
-- How the records end that the committed offset leaves behind.
use lago_paiement_engine.Prelude.{◌<◌, ◌≡◌, inl, inr, List, [], ◌∷◌, Some}
use lago_paiement_engine.Kafka.Commit.{Record}
use lago_paiement_engine.Processors.Processor.Ends.{Ends, is_processed-Ends}
use lago_paiement_engine.Partition.{Finished, Partition, Steps, unread}
use lago_paiement_engine.Partition.Settled.{IsLeft, Processes, committed-IsLeft}

-- The record belongs to the batch, and came to an end there.
abbrev pub EndsIn : Record → Finished → Type 0
EndsIn r f = Some (λ x. x ≡ r) f.records × Ends f.out f.env r

IsLeft-map :
    (P Q : Finished → Type 0) (r : Record) (fs : List Finished)
    → ((f : Finished) → P f → Q f)
    → IsLeft P r fs
    → IsLeft Q r fs
IsLeft-map P Q r [] g h = h
IsLeft-map P Q r (f ∷ fs) g (inl h) = inl (g f h)
IsLeft-map P Q r (f ∷ fs) g (inr (inl h)) = inr (inl h)
IsLeft-map P Q r (f ∷ fs) g (inr (inr h)) = inr (inr (IsLeft-map P Q r fs g h))

-- Whatever the client fetches next, and however often it restarts: if the committed offset lies
-- behind a record of the log, then either the record was in a batch that was processed to its end,
-- and there its event could not be read, or the processing of the event succeeded, or it failed
-- other than with a retryable error less than twelve hours after the event was ingested and one
-- dead letter about the event was handed to the producer; or the record was handled in a batch, and
-- after it another one was processed of which all records are above it and at least one counted as
-- processed.
pub committed-Ends :
    (log : List Record) {p : Partition} (r : Record)
    → Some (λ x. x ≡ r) log
    → Steps log unread p
    → r.offset < p.committed
    → IsLeft (EndsIn r) r p.finished
committed-Ends log {p} r there steps lt =
    IsLeft-map (Processes r) (EndsIn r) r p.finished
      (λ f (h : Processes r f). (h.0, is_processed-Ends f.out f.env r h.1))
      (committed-IsLeft log r there steps lt)
