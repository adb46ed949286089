-- ===== src/Partition/Settled.antt =====
-- Which records of the log the committed offset leaves behind.
use lago_paiement_engine.Prelude.{
  ℕ, suc, ◌<◌, ◌≤◌, ◌≡◌, ◌⊎◌, true, none, some, List, [], ◌∷◌, ltb, All, All-map, All_at, All-zip,
  All-of, Some, Bool-cases, inl, inr, arith, subst, sym,
}
use lago_paiement_engine.Kafka.Commit.{Record, commitable_records}
use lago_paiement_engine.Processors.Enricher.{Enricher}
use lago_paiement_engine.Processors.Effect.{Outside}
use lago_paiement_engine.Processors.Processor.{is_processed}
use lago_paiement_engine.Processors.Processor.Batch.{IsProcessEvents}
use lago_paiement_engine.Partition.{
  Batch, Finished, Partition, IsFetch, IsCommit, fails, succeeds, IsAcknowledged, IsHandled, Step,
  fetch, process_and_commit, restart, Steps, stay, next_step, unread,
}
use lago_paiement_engine.Partition.Batches.{
  IsAcknowledged-lt, IsAcknowledged-is_processed, IsAcknowledged-Some,
}

-- The record belongs to the batch, and its goroutine ended without a panic.
abbrev pub Handles : Record → Finished → Type 0
Handles r f = Some (λ x. x ≡ r) f.records × IsHandled f.out f.env r

-- A later batch: all its records are above the record, and some of them counted as processed.
abbrev pub Overtakes : Record → Finished → Type 0
Overtakes r f =
    All (λ x. r.offset < x.offset) f.records
    × Some (λ x. is_processed f.out f.env x ≡ true) f.records

-- How the committed offset comes to lie behind a record: the last batch or an earlier one
-- satisfies `Q`, or it overtakes a batch before it in which the record was handled.
abbrev pub IsLeft : (Finished → Type 0) → Record → List Finished → Type 0
IsLeft Q r [] = ⊥
IsLeft Q r (f ∷ fs) = Q f ⊎ ((Overtakes r f × Some (Handles r) fs) ⊎ IsLeft Q r fs)

-- The record belongs to the batch, and counted as processed.
abbrev pub Processes : Record → Finished → Type 0
Processes r f = Some (λ x. x ≡ r) f.records × (is_processed f.out f.env r ≡ true)

abbrev IsSettled : List Finished → Record → Type 0
IsSettled fs r = Some (Handles r) fs

module _ (log : List Record) where
  abbrev Covered : List Finished → ℕ → Type 0
  Covered fs n = All (λ r. r.offset < n → IsSettled fs r) log

  abbrev Left : List Finished → ℕ → Type 0
  Left fs n = All (λ r. r.offset < n → IsLeft (Processes r) r fs) log

  -- What holds of a batch while it is processed.
  record IsRead (p : Partition) (b : Batch) : Type 0 where
    before : Covered p.finished b.start
    fetched : IsFetch log b.start p.position b.records

  record IsSound (p : Partition) : Type 0 where
    behind : Covered p.finished p.committed
    left : Left p.finished p.committed
    idle : p.batch ≡ none → Covered p.finished p.position
    busy : (b : Batch) → p.batch ≡ some b → IsRead p b

  Covered-cons : (f : Finished) (fs : List Finished) (n : ℕ) → Covered fs n → Covered (f ∷ fs) n
  Covered-cons f fs n h = All-map log (λ r (k : r.offset < n → IsSettled fs r) lt. inr (k lt)) h

  Left-cons : (f : Finished) (fs : List Finished) (n : ℕ) → Left fs n → Left (f ∷ fs) n
  Left-cons f fs n h =
      All-map log (λ r (k : r.offset < n → IsLeft (Processes r) r fs) lt. inr (inr (k lt))) h

  -- A record below the batch, or one of the batch.
  by_batch :
      (P : Record → Type 0) (fs : List Finished) (start end n : ℕ) (records : List Record)
      → IsFetch log start end records
      → Covered fs start
      → n ≤ end
      → ((r : Record) → r.offset < start → IsSettled fs r → P r)
      → ((r : Record) → Some (λ x. x ≡ r) records → r.offset < n → P r)
      → All (λ r. r.offset < n → P r) log
  by_batch P fs start end n records fetched before le below in_batch =
      All-zip log
        (λ r (k : r.offset < start → IsSettled fs r)
            (there : start ≤ r.offset → r.offset < end → Some (λ x. x ≡ r) records) lt.
          elim (Bool-cases (ltb r.offset start)) [
            | inl low ↦ below r (ground arith) (k (ground arith))
            | inr high ↦ in_batch r (there (ground arith) (omega arith)) lt
          ])
        before fetched.complete

  module _ (p : Partition) (b : Batch) (read : IsRead p b) (out : Outside) (env : Enricher)
      (processed : List Record) (handled : All (IsHandled out env) b.records)
      (order : IsProcessEvents out env b.records processed) where
    abbrev this : Finished
    this = record { out = out; env = env; records = b.records }

    Covered-up_to : (n : ℕ) → n ≤ p.position → Covered (this ∷ p.finished) n
    Covered-up_to n le =
        by_batch (IsSettled (this ∷ p.finished)) p.finished b.start p.position n b.records
          read.fetched read.before le (λ r lt k. inr k)
          (λ r there lt. inl (there, All_at (IsHandled out env) b.records handled there))

    overtaken : (r : Record) → r.offset < b.start → All (λ x. r.offset < x.offset) b.records
    overtaken r lt =
        All-map b.records (λ x (le : b.start ≤ x.offset). omega (arith, lt, le))
          read.fetched.after_start

    Left-up_to :
        (offset : ℕ)
        → suc offset ≤ p.position
        → IsAcknowledged (commitable_records processed b.records) offset
        → Left (this ∷ p.finished) (suc offset)
    Left-up_to offset le h =
        by_batch (λ r. IsLeft (Processes r) r (this ∷ p.finished)) p.finished b.start p.position
          (suc offset) b.records read.fetched read.before le
          (λ r lt k. inr (
            inl (
              (
                overtaken r lt,
                IsAcknowledged-Some out env processed b.records order offset read.fetched.distinct
                    read.fetched.small h,
              ),
              k,
            )))
          (λ r there lt. inl (
            there,
            IsAcknowledged-is_processed out env processed b.records order r offset
                read.fetched.distinct read.fetched.small h there (omega arith),
          ))

    commit_sound :
        (after : ℕ)
        → IsSound p
        → IsCommit p.committed (commitable_records processed b.records) after
        → Covered (this ∷ p.finished) after × Left (this ∷ p.finished) after
    commit_sound after s (fails same) =
        subst (λ n. Covered (this ∷ p.finished) n × Left (this ∷ p.finished) n) (sym same)
          (
            Covered-cons this p.finished p.committed s.behind,
            Left-cons this p.finished p.committed s.left,
          )
    commit_sound after s (succeeds offset e h) =
        let le : suc offset ≤ p.position =
          IsAcknowledged-lt out env processed b.records order p.position offset read.fetched.small
            read.fetched.below h in
        subst (λ n. Covered (this ∷ p.finished) n × Left (this ∷ p.finished) n) (sym e)
          (Covered-up_to (suc offset) le, Left-up_to offset le h)

  Step-IsSound : {p q : Partition} → Step log p q → IsSound p → IsSound q
  Step-IsSound {p} (fetch end records none' le h) s = record {
    behind = s.behind;
    left = s.left;
    idle = λ e. cc e;
    busy = λ b e. subst (IsRead _) (cc e) (record { before = s.idle none'; fetched = h });
  }
  Step-IsSound {p} (process_and_commit b out env processed after e handled order c) s =
      let both = commit_sound p b (s.busy b e) out env processed handled order after s c in
      record {
        behind = both.0;
        left = both.1;
        idle = λ _.
            Covered-up_to p b (s.busy b e) out env processed handled order p.position (omega arith);
        busy = λ b' e'. cc e';
      }
  Step-IsSound restart s = record {
    behind = s.behind;
    left = s.left;
    idle = λ _. s.behind;
    busy = λ b e. cc e;
  }

  unread-IsSound : IsSound unread
  unread-IsSound = record {
    behind = All-of log (λ r lt. absurd (omega arith));
    left = All-of log (λ r lt. absurd (omega arith));
    idle = λ _. All-of log (λ r lt. absurd (omega arith));
    busy = λ b e. cc e;
  }

  Steps-IsSound : {p : Partition} → Steps log unread p → IsSound p
  Steps-IsSound stay = unread-IsSound
  Steps-IsSound (next_step steps step) = Step-IsSound step (Steps-IsSound steps)

module _ (log : List Record) {p : Partition} (r : Record) (there : Some (λ x. x ≡ r) log) where
  -- Besides, it counted as processed in one of them, or was overtaken.
  pub committed-IsLeft :
      Steps log unread p → r.offset < p.committed → IsLeft (Processes r) r p.finished
  committed-IsLeft steps =
      All_at (λ x. x.offset < p.committed → IsLeft (Processes x) x p.finished) log
        (Steps-IsSound log steps).left there
