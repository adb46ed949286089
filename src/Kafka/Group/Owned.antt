-- ===== src/Kafka/Group/Owned.antt =====
-- Which goroutines of a consumer group may commit, and that they come to an end.
use lago_paiement_engine.Prelude.{
  ℕ, ◌<◌, ◌≡◌, ◌≢◌, inl, inr, refl, ap, ◌∙◌, sym, true, false, none, some, List,
}
use lago_paiement_engine.Kafka.Commit.{Record}
use lago_paiement_engine.Kafka.Group.{
  TopicPartition, Phase, selecting, processing, returned, Consumer, Group, set_phase, commit, quits,
  Step,
}
use lago_paiement_engine.Kafka.Group.Update.{at_here, some_eq}
use lago_paiement_engine.Kafka.Group.Valid.{IsOwned, IsReachable, IsReachable-IsValid}

-- What a goroutine does by itself, while the context is not cancelled: it ends the commit of the
-- batch that it has, or returns because its quit channel is closed.
pub data OwnStep (i : ℕ) (g : Group) : Group → Type 0 where
  commits :
      (records : List Record)
      → i < g.next
      → (g.started i).phase ≡ processing records
      → OwnStep i g (set_phase i selecting g)
  leaves :
      i < g.next
      → (g.started i).phase ≡ selecting
      → (g.started i).quit ≡ true
      → OwnStep i g (set_phase i returned g)

-- These are steps of the group.
pub OwnStep-Step : {i : ℕ} {g h : Group} → OwnStep i g h → Step g h
OwnStep-Step {i} (commits records h busy) = commit i records h busy
OwnStep-Step {i} (leaves h ready told) = quits i h ready told

pub data OwnSteps (i : ℕ) (g : Group) : Group → Type 0 where
  none_left : OwnSteps i g g
  and_then : {h k : Group} → OwnSteps i g h → OwnStep i h k → OwnSteps i g k

-- Steps of its own after which the goroutine has returned.
abbrev pub Returns : Group → ℕ → Type 0
Returns g i = (h : Group) × OwnSteps i g h × ((h.started i).phase ≡ returned)

module _ (unused : Consumer) (g : Group) (reachable : IsReachable unused g) where
  -- In whatever order a new group's partitions are assigned, lost, served and shut down, a
  -- goroutine that is to commit a batch is the one that the map of consumers has for its
  -- partition, or a callback `lost` waits for it.
  pub commit-IsOwned :
      (i : ℕ) (records : List Record)
      → i < g.next
      → (g.started i).phase ≡ processing records
      → IsOwned g i
  commit-IsOwned i records h busy =
      (IsReachable-IsValid unused g reachable).owned i h (λ e. cc (busy, e))

  ended : (i : ℕ) → ((g.started i).phase ≢ returned → ⊥) → (g.started i).phase ≡ returned
  ended i h = by_phase (g.started i).phase h
    where
      by_phase : (p : Phase) → (p ≢ returned → ⊥) → p ≡ returned
      by_phase selecting h = absurd (h (λ e. cc))
      by_phase (processing rs) h = absurd (h (λ e. cc))
      by_phase returned h = refl

  -- In every state that a new group can reach: while no callback `lost` waits, every goroutine
  -- that was started for a partition which the map of consumers does not have has returned.
  pub lost-IsReturned :
      (tp : TopicPartition) (i : ℕ)
      → ((j : ℕ) → g.awaited j ≡ false)
      → g.consumers tp ≡ none
      → i < g.next
      → (g.started i).topic_partition ≡ tp
      → (g.started i).phase ≡ returned
  lost-IsReturned tp i idle gone h same = ended i λ live.
      elim ((IsReachable-IsValid unused g reachable).owned i h live) [
        | inl e ↦ absurd (clash e)
        | inr a ↦ absurd (contradiction a)
      ]
    where
      clash : g.consumers (g.started i).topic_partition ≡ some i → ⊥
      clash e = none-ne (sym gone ∙ ap g.consumers (sym same) ∙ e)
        where
          none-ne : none ≡ some i → ⊥
          none-ne e = cc

      contradiction : g.awaited i ≡ true → ⊥
      contradiction a = cc (a, idle i)

  -- In every state that a new group can reach: while no callback `lost` waits, two goroutines of
  -- one partition that have not returned are the same.
  pub one_consumer :
      (i j : ℕ)
      → ((k : ℕ) → g.awaited k ≡ false)
      → i < g.next
      → j < g.next
      → (g.started i).phase ≢ returned
      → (g.started j).phase ≢ returned
      → (g.started i).topic_partition ≡ (g.started j).topic_partition
      → i ≡ j
  one_consumer i j idle hi hj live_i live_j same =
      some_eq (sym (mapped i hi live_i) ∙ ap g.consumers same ∙ mapped j hj live_j)
    where
      mapped :
          (k : ℕ)
          → k < g.next
          → (g.started k).phase ≢ returned
          → g.consumers (g.started k).topic_partition ≡ some k
      mapped k h live = elim ((IsReachable-IsValid unused g reachable).owned k h live) [
        | inl e ↦ e
        | inr a ↦ absurd (contradiction a)
      ]
        where
          contradiction : g.awaited k ≡ true → ⊥
          contradiction a = cc (a, idle k)

  ends_here :
      (i : ℕ)
      → i < g.next
      → (g.started i).quit ≡ true
      → (p : Phase) → (g.started i).phase ≡ p
      → Returns g i
  ends_here i h told selecting e = (
    set_phase i returned g,
    and_then none_left (leaves h e told),
    ap (λ (c : Consumer). c.phase)
        (at_here i (record (g.started i) { phase = returned }) g.started),
  )
  ends_here i h told returned e = (g, none_left, e)
  ends_here i h told (processing rs) e =
      let g' = set_phase i selecting g in
      let here = at_here i (record (g.started i) { phase = selecting }) g.started in
      (
        set_phase i returned g',
        and_then (and_then none_left (commits rs h e)) (
            leaves h (ap (λ (c : Consumer). c.phase) here)
              (ap (λ (c : Consumer). c.quit) here ∙ told)),
        ap (λ (c : Consumer). c.phase)
            (at_here i (record (g'.started i) { phase = returned }) g'.started),
      )

  -- In every state that a new group can reach, a goroutine that a callback `lost` waits for can be
  -- sent no more batches, since the map of consumers has it for no partition; and there are steps
  -- of its own after which it has returned, without the context being cancelled: the end of the
  -- commit of the batch that it has, if it has one, and the return by its closed quit channel.
  pub awaited-Returns :
      (i : ℕ) → g.awaited i ≡ true → ((tp : TopicPartition) → g.consumers tp ≢ some i) × Returns g i
  awaited-Returns i a =
      let valid = IsReachable-IsValid unused g reachable in
      let q = valid.quitting i a in
      (λ tp. valid.gone tp i a, ends_here i q.0 q.1 (g.started i).phase refl)
