-- ===== src/Kafka/Group/Loop.antt =====
-- The loop over the polls: `poll` of events-processor/config/kafka/consumer.go.
use lago_paiement_engine.Prelude.{
  ℕ, ◌≡◌, refl, ap, ◌∙◌, sym, ◌↔◌, Bool, false, List, [], ◌∷◌, ◌++◌, All, Some, if◌then◌else◌, inl,
  inr, Bool-cases,
}
use lago_paiement_engine.Utils.Result.{Error}
use lago_paiement_engine.Kafka.Commit.{Record}
use lago_paiement_engine.Kafka.Group.{TopicPartition, Group}
use lago_paiement_engine.Kafka.Group.Poll.{
  Fetches, Poll, panics, stops, continues, poll_records, IsFatal, IsPanic, IsContinue, batches_of,
  poll_records-IsPollOf,
}

-- What a round of the loop meets: whether the context is done when it begins, the consumers and
-- who of them receives, whether the context is done after the poll, and what the poll returns.
pub record Round : Type 0 where
  pub done : Bool
  pub group : Group
  pub received : TopicPartition → Bool
  pub context_done : Bool
  pub fetches : Fetches

-- After the rounds the loop goes on, or it has ended before.
pub data LoopEnd : Type 0 where
  goes_on returned : LoopEnd
  panicked : Error → LoopEnd

pub record Polled : Type 0 where
  pub batches : List (ℕ × List Record)
  pub end : LoopEnd

-- The `select`, whose default is taken only if the context is not done.
pub poll_round : Round → Poll
poll_round r = if r.done then stops else poll_records r.group r.received r.context_done r.fetches

abbrev pub after_round : Poll → Polled → Polled
after_round (panics e) rest = record { batches = []; end = panicked e }
after_round stops rest = record { batches = []; end = returned }
after_round (continues batches) rest = record { batches = batches ++ rest.batches; end = rest.end }

-- `poll`, for so many rounds.
pub poll : List Round → Polled
unfolding poll_round
poll [] = record { batches = []; end = goes_on }
poll (r ∷ rounds) = after_round (poll_round r) (poll rounds)

-- The context is not done, the client is open, and there is no error.
abbrev pub IsOpen : Round → Type 0
IsOpen r =
    (r.done ≡ false)
    × (r.fetches.client_closed ≡ false)
    × (r.fetches.errors ≡ [])
    × (r.context_done ≡ false)

-- The poll of an open client returns an error that is not of the context.
abbrev pub IsBroken : Round → Type 0
IsBroken r = (r.done ≡ false) × (r.fetches.client_closed ≡ false) × Some IsFatal r.fetches.errors

abbrev pub EndsAt : List Round → LoopEnd → Type 0
EndsAt [] goes_on = Unit
EndsAt [] end = ⊥
EndsAt (r ∷ rounds) goes_on = ⊥
EndsAt (r ∷ rounds) returned = (IsOpen r → ⊥) × (IsBroken r → ⊥)
EndsAt (r ∷ rounds) (panicked e) = IsBroken r

abbrev pub batches_from : List Round → List (ℕ × List Record)
batches_from [] = []
batches_from (r ∷ rounds) = batches_of (poll_round r) ++ batches_from rounds

poll_round_iff :
    (r : Round) → (IsContinue (poll_round r) ↔ IsOpen r) × (IsPanic (poll_round r) ↔ IsBroken r)
unfolding poll_round
poll_round_iff r = elim (Bool-cases r.done) [
  | inl over ↦ rw over ((λ c. absurd c, λ o. cc (o.0)), (λ c. absurd c, λ o. cc (o.0)))
  | inr on ↦
      let (panic, continue, routed) =
        poll_records-IsPollOf r.group r.received r.context_done r.fetches in
      rw on (
        (λ c. let k = continue.0 c in (refl, k.0, k.1, k.2), λ o. continue.1 (o.1, o.2, o.3)),
        (λ c. let k = panic.0 c in (refl, k.0, k.1), λ o. panic.1 (o.1, o.2)),
      )
]

-- What `poll` has done after some rounds.
abbrev pub IsRun : List Round → Polled → Type 0
IsRun rounds p =
    (before : List Round) × (after : List Round) × (rounds ≡ before ++ after)
    × All IsOpen before
    × (p.batches ≡ batches_from before)
    × EndsAt after p.end

after_round-IsRun :
    (r : Round) (rounds : List Round) (rest : Polled) (x : Poll)
    → poll_round r ≡ x
    → (IsContinue x ↔ IsOpen r)
    → (IsPanic x ↔ IsBroken r)
    → IsRun rounds rest
    → IsRun (r ∷ rounds) (after_round x rest)
after_round-IsRun r rounds rest (panics e) h c p run = ([], r ∷ rounds, refl, tt, refl, p.0 tt)
after_round-IsRun r rounds rest stops h c p run =
    ([], r ∷ rounds, refl, tt, refl, (λ o. c.1 o, λ b. p.1 b))
after_round-IsRun r rounds rest (continues batches) h c p (before, after, e, open', same, at_end) =
    (
      r ∷ before,
      after,
      ap (λ l. r ∷ l) e,
      (c.0 tt, open'),
      ap (λ l. batches ++ l) same ∙ ap (λ x. batches_of x ++ batches_from before) (sym h),
      at_end,
    )

-- The loop over the polls goes on exactly as long as the context is not done, the client is open
-- and the polls return no error, and sends the batches of these polls, in their order. It ends at
-- the first other round: with a panic if the context is not done when the round begins, the client
-- is open and one of the errors is not of the context, and by returning if not.
pub poll-IsRun : (rounds : List Round) → IsRun rounds (poll rounds)
unfolding poll
poll-IsRun [] = ([], [], refl, tt, refl, tt)
poll-IsRun (r ∷ rounds) =
    let (continue, panic) = poll_round_iff r in
    after_round-IsRun r rounds (poll rounds) (poll_round r) refl continue panic (poll-IsRun rounds)
