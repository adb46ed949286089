-- ===== src/Kafka/Group/Poll.antt =====
-- A poll of the consumer group: `pollRecords` of events-processor/config/kafka/consumer.go.
use lago_paiement_engine.Prelude.{
  ℕ, ◌≡◌, refl, sym, subst, ◌↔◌, inl, inr, Bool, true, false, ◌||◌, Option, none, some, List, [],
  ◌∷◌, ◌++◌, All, All-append, All-map, Some, if◌then◌else◌, Bool-cases,
}
use lago_paiement_engine.Utils.Result.{Error}
use lago_paiement_engine.Kafka.Commit.{Record}
use lago_paiement_engine.Kafka.Group.{TopicPartition, Group}

-- An error of a fetch: `context.Canceled` and `context.DeadlineExceeded`, or another.
pub data FetchError : Type 0 where
  canceled deadline_exceeded : FetchError
  other_error : Error → FetchError

-- What a poll returns: whether the client is closed, the errors, and the records by partition.
pub record Fetches : Type 0 where
  pub client_closed : Bool
  pub errors : List FetchError
  pub partitions : List (TopicPartition × List Record)

-- The end of `pollRecords`: a panic, `false`, or `true` with what is sent to which consumer.
pub data Poll : Type 0 where
  panics : Error → Poll
  stops : Poll
  continues : List (ℕ × List Record) → Poll

-- `EachError`: the error that panics, or whether there was an error of the context.
pub data Errors : Type 0 where
  fatal : Error → Errors
  no_fatal : Bool → Errors

pub each_error : Bool → List FetchError → Errors
each_error has_context_error [] = no_fatal has_context_error
each_error has_context_error (canceled ∷ errors) = each_error true errors
each_error has_context_error (deadline_exceeded ∷ errors) = each_error true errors
each_error has_context_error (other_error e ∷ errors) = fatal e

-- The body of the loop over the partitions; `received` says whether the consumer receives the
-- records before the context is done.
abbrev sent : Bool → Option ℕ → List Record → List (ℕ × List Record)
sent received none records = []
sent false (some i) records = []
sent true (some i) records = (i, records) ∷ []

module _ (g : Group) (received : TopicPartition → Bool) where
  pub each_partition : List (TopicPartition × List Record) → List (ℕ × List Record)
  each_partition [] = []
  each_partition ((tp, records) ∷ partitions) =
      sent (received tp) (g.consumers tp) records ++ each_partition partitions

  after_errors : Bool → List (TopicPartition × List Record) → Errors → Poll
  unfolding each_partition
  after_errors context_done partitions (fatal e) = panics e
  after_errors context_done partitions (no_fatal has_context_error) =
      if has_context_error || context_done then stops else continues (each_partition partitions)

  -- `pollRecords`; `context_done` says whether the context is done after the errors were read.
  pub poll_records : Bool → Fetches → Poll
  unfolding each_error after_errors
  poll_records context_done fetches =
      if fetches.client_closed
      then stops
      else after_errors context_done fetches.partitions (each_error false fetches.errors)

-- An error that is not of the context.
abbrev pub IsFatal : FetchError → Type 0
IsFatal (other_error e) = Unit
IsFatal _ = ⊥

-- A panic.
abbrev pub IsPanic : Poll → Type 0
IsPanic (panics e) = Unit
IsPanic _ = ⊥

abbrev pub IsContinue : Poll → Type 0
IsContinue (continues batches) = Unit
IsContinue _ = ⊥

abbrev pub batches_of : Poll → List (ℕ × List Record)
batches_of (continues bs) = bs
batches_of _ = []

-- What the loop over the errors finds.
abbrev Found : Bool → List FetchError → Errors → Type 0
Found before errors (fatal e) = Some IsFatal errors
Found before errors (no_fatal seen) =
    (Some IsFatal errors → ⊥) × ((seen ≡ false) ↔ ((before ≡ false) × (errors ≡ [])))

Found-true :
    (e : FetchError) (before : Bool) (errors : List FetchError) (r : Errors)
    → (IsFatal e → ⊥)
    → Found true errors r
    → Found before (e ∷ errors) r
Found-true e before errors (fatal x) harmless h = inr h
Found-true e before errors (no_fatal seen) harmless h = (
  λ s. elim s [ inl s ↦ harmless s | inr s ↦ h.0 s ],
  (λ unseen. cc ((h.1.0 unseen).0), λ both. cc (both.1)),
)

each_error-Found :
    (before : Bool) (errors : List FetchError) → Found before errors (each_error before errors)
unfolding each_error
each_error-Found before [] = (λ s. s, (λ e. (e, refl), λ both. both.0))
each_error-Found before (canceled ∷ errors) =
    Found-true canceled before errors (each_error true errors) (λ s. s)
      (each_error-Found true errors)
each_error-Found before (deadline_exceeded ∷ errors) =
    Found-true deadline_exceeded before errors (each_error true errors) (λ s. s)
      (each_error-Found true errors)
each_error-Found before (other_error e ∷ errors) = inl tt

module _ (g : Group) (received : TopicPartition → Bool) where
  -- The batch is the one of a partition whose consumer it goes to.
  abbrev pub IsRouted : List (TopicPartition × List Record) → ℕ × List Record → Type 0
  IsRouted partitions batch =
      Some (λ p. (g.consumers p.0 ≡ some batch.0) × (p.1 ≡ batch.1)) partitions

  sent-IsRouted :
      (tp : TopicPartition) (records : List Record)
      (partitions : List (TopicPartition × List Record)) (got : Bool) (o : Option ℕ)
      → g.consumers tp ≡ o
      → All (IsRouted ((tp, records) ∷ partitions)) (sent got o records)
  sent-IsRouted tp records partitions got none e = tt
  sent-IsRouted tp records partitions false (some i) e = tt
  sent-IsRouted tp records partitions true (some i) e = (inl (e, refl), tt)

  each_partition-IsRouted :
      (partitions : List (TopicPartition × List Record))
      → All (IsRouted partitions) (each_partition g received partitions)
  unfolding each_partition
  each_partition-IsRouted [] = tt
  each_partition-IsRouted ((tp, records) ∷ partitions) =
      All-append (IsRouted ((tp, records) ∷ partitions))
        (sent (received tp) (g.consumers tp) records) (each_partition g received partitions)
        (sent-IsRouted tp records partitions (received tp) (g.consumers tp) refl)
        (All-map (each_partition g received partitions) (λ b (r : IsRouted partitions b). inr r)
          (each_partition-IsRouted partitions))

  -- What is known of the end of a poll, by the errors that were found.
  abbrev pub IsPollOf : Bool → Fetches → Poll → Type 0
  IsPollOf context_done fetches r =
      (IsPanic r ↔ ((fetches.client_closed ≡ false) × Some IsFatal fetches.errors))
      × (IsContinue r
          ↔ ((fetches.client_closed ≡ false) × (fetches.errors ≡ []) × (context_done ≡ false)))
      × All (IsRouted fetches.partitions) (batches_of r)

  no_fatal_here : (errors : List FetchError) → errors ≡ [] → Some IsFatal errors → ⊥
  no_fatal_here errors e s = rw e at s

  or_false : (a b : Bool) → (a || b) ≡ false → (a ≡ false) × (b ≡ false)
  or_false true b h = cc h
  or_false false b h = (refl, h)

  open_client :
      (context_done : Bool) (fetches : Fetches) (r : Errors)
      → fetches.client_closed ≡ false
      → Found false fetches.errors r
      → IsPollOf context_done fetches (after_errors g received context_done fetches.partitions r)
  unfolding after_errors
  open_client context_done fetches (fatal e) open' f =
      ((λ p. (open', f), λ b. tt), (λ p. absurd p, λ b. no_fatal_here fetches.errors b.1 f), tt)
  open_client context_done fetches (no_fatal seen) open' f =
      elim (Bool-cases (seen || context_done)) [
        | inl stop ↦ rw stop (
          (λ p. absurd p, λ b. f.0 b.1),
          (λ p. absurd p, λ b. both (f.1.1 (refl, b.1)) b.2 stop),
          tt,
        )
        | inr go ↦
            let none' = or_false seen context_done go in
            rw go (
              (λ p. absurd p, λ b. f.0 b.1),
              (λ p. (open', (f.1.0 none'.0).1, none'.1), λ b. tt),
              each_partition-IsRouted fetches.partitions,
            )
      ]
    where
      both : seen ≡ false → context_done ≡ false → (seen || context_done) ≡ true → ⊥
      both a b c = cc (a, b, c)

  -- A poll panics exactly if the client is open and some error is not of the context; it goes on
  -- exactly if the client is open, there is no error and the context is not done; and each batch
  -- that is sent is that of a partition whose consumer gets it.
  pub poll_records-IsPollOf :
      (context_done : Bool) (fetches : Fetches)
      → IsPollOf context_done fetches (poll_records g received context_done fetches)
  unfolding poll_records after_errors
  poll_records-IsPollOf context_done fetches = elim (Bool-cases fetches.client_closed) [
    | inl closed ↦ rw closed ((λ p. absurd p, λ b. cc (b.0)), (λ p. absurd p, λ b. cc (b.0)), tt)
    | inr open' ↦ subst (IsPollOf context_done fetches) (sym (polled open')) (
        open_client context_done fetches (each_error false fetches.errors) open'
          (each_error-Found false fetches.errors))
  ]
    where
      polled :
          fetches.client_closed ≡ false
          → poll_records g received context_done fetches
            ≡ after_errors g received context_done fetches.partitions
                (each_error false fetches.errors)
      polled e = rw e refl
