-- ===== src/Tests/Group.antt =====
-- A consumer group that is assigned a partition, gets a batch, and loses the partition.
use lago_paiement_engine.Prelude.{
  ℕ, ◌≡◌, ◌≢◌, some, refl, true, false, List, [], ◌∷◌, inl, inr, Bool-cases, arith, ◌==◌, sym,
}
use lago_paiement_engine.Kafka.Group.{
  TopicPartition, selecting, processing, returned, Consumer, Group, assigned, lost, set_phase,
  assign, lose, lost_returns, deliver, commit, quits, new_consumer_group, stay, next_step,
}
use lago_paiement_engine.Kafka.Group.Valid.{IsOwned, IsReachable}
use lago_paiement_engine.Kafka.Group.Owned.{
  commit-IsOwned, lost-IsReturned, one_consumer, Returns, awaited-Returns,
}
use lago_paiement_engine.Kafka.Group.Poll.{Fetches, poll_records, IsPollOf, poll_records-IsPollOf}
use lago_paiement_engine.Kafka.Group.Loop.{Round, poll, IsRun, poll-IsRun}
use lago_paiement_engine.Tests.Data.{batch}

abbrev tp : TopicPartition
tp = record { topic = "events-raw"; partition = 3 }

abbrev unused : Consumer
unused = record { topic_partition = tp; quit = false; phase = returned }

abbrev busy : Group
busy = set_phase 0 (processing batch) (assigned tp (new_consumer_group unused))

busy-IsReachable : IsReachable unused busy
busy-IsReachable =
    next_step (next_step stay (assign tp (λ i. refl) refl)) (deliver tp 0 batch refl refl)

abbrev losing : Group
losing = lost tp 0 busy

losing-IsReachable : IsReachable unused losing
losing-IsReachable = next_step busy-IsReachable (lose tp 0 refl)

abbrev quitted : Group
quitted = set_phase 0 returned (set_phase 0 selecting losing)

abbrev idle : Group
idle = record quitted { awaited = λ i. false }

all_returned : (i : ℕ) → quitted.awaited i ≡ true → (quitted.started i).phase ≡ returned
all_returned i a = elim (Bool-cases (i == 0)) [
  | inl same ↦ rw same refl
  | inr differ ↦ absurd (true-ne (sym (rw differ at a)))
]
  where
    true-ne : true ≡ false → ⊥
    true-ne e = cc

idle-IsReachable : IsReachable unused idle
idle-IsReachable =
    next_step
      (next_step (next_step losing-IsReachable (commit 0 batch (omega arith) refl))
        (quits 0 (omega arith) refl refl))
      (lost_returns all_returned)

commit-IsOwned_example : IsOwned busy 0
commit-IsOwned_example = commit-IsOwned unused busy busy-IsReachable 0 batch (omega arith) refl

lost-IsReturned_example : (idle.started 0).phase ≡ returned
lost-IsReturned_example =
    lost-IsReturned unused idle idle-IsReachable tp 0 (λ i. refl) refl (omega arith) refl

abbrev first : ℕ
first = 0

one_consumer_example : first ≡ first
one_consumer_example =
    one_consumer unused busy busy-IsReachable 0 0 (λ i. refl) (omega arith) (omega arith) (λ e. cc)
      (λ e. cc) refl

awaited-Returns_example :
    ((tp' : TopicPartition) → losing.consumers tp' ≢ some 0) × Returns losing 0
awaited-Returns_example = awaited-Returns unused losing losing-IsReachable 0 refl

abbrev fetched : Fetches
fetched = record { client_closed = false; errors = []; partitions = (tp, batch) ∷ [] }

poll_records-IsPollOf_example :
    IsPollOf busy (λ tp. true) false fetched (poll_records busy (λ tp. true) false fetched)
poll_records-IsPollOf_example = poll_records-IsPollOf busy (λ tp. true) false fetched

-- A poll of one batch, and then the end of the context.
abbrev rounds : List Round
rounds =
    record {
      done = false;
      group = busy;
      received = λ tp. true;
      context_done = false;
      fetches = fetched;
    }
    ∷ record {
      done = true;
      group = busy;
      received = λ tp. true;
      context_done = true;
      fetches = fetched;
    }
    ∷ []

poll-IsRun_example : IsRun rounds (poll rounds)
poll-IsRun_example = poll-IsRun rounds
