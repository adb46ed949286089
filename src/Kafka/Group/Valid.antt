-- ===== src/Kafka/Group/Valid.antt =====
-- What holds of a consumer group at all times, and that every step preserves it.
use lago_paiement_engine.Prelude.{
  ℕ, suc, ◌<◌, ◌≡◌, ◌≢◌, ◌⊎◌, inl, inr, refl, ap, ◌∙◌, sym, subst, true, false, none, some, ◌==◌,
  ==_iff, Bool-cases, arith,
}
use lago_paiement_engine.Kafka.Group.{
  TopicPartition, Phase, selecting, processing, returned, Consumer, Group, put, at, assigned, lost,
  set_phase, is_member, graceful_shutdown, Step, assign, lose, lost_returns, deliver, commit, quits,
  stops, cancel, shut_down, new_consumer_group, Steps, stay, next_step,
}
use lago_paiement_engine.Kafka.Group.Update.{
  at-elim, at_other, put-elim, put_other, put_here, some_eq,
}

-- The consumer is the one that the map has for its partition, or `lost` waits for it.
abbrev pub IsOwned : Group → ℕ → Type 0
IsOwned g i = (g.consumers (g.started i).topic_partition ≡ some i) ⊎ (g.awaited i ≡ true)

-- What holds of the group at all times.
pub record IsValid (g : Group) : Type 0 where
  pub owned : (i : ℕ) → i < g.next → (g.started i).phase ≢ returned → IsOwned g i
  pub mapped :
      (tp : TopicPartition) (i : ℕ)
      → g.consumers tp ≡ some i
      → (i < g.next) × ((g.started i).topic_partition ≡ tp)
  pub quitting : (i : ℕ) → g.awaited i ≡ true → (i < g.next) × ((g.started i).quit ≡ true)
  pub gone : (tp : TopicPartition) (i : ℕ) → g.awaited i ≡ true → g.consumers tp ≢ some i

new-IsValid : (unused : Consumer) → IsValid (new_consumer_group unused)
new-IsValid unused = record {
  owned = λ i h. absurd (omega (arith, h));
  mapped = λ tp i h. cc;
  quitting = λ i h. cc;
  gone = λ tp i h e. cc h;
}

-- A step of one goroutine that is not there after its end.
set_phase-IsValid :
    (g : Group) (i : ℕ) (phase : Phase)
    → IsValid g
    → (phase ≢ returned → (g.started i).phase ≢ returned)
    → IsValid (set_phase i phase g)
set_phase-IsValid g i phase v alive =
    let after = at i (record (g.started i) { phase = phase }) g.started in
    let topic : (j : ℕ) → (after j).topic_partition ≡ (g.started j).topic_partition =
      at-elim (λ j c. c.topic_partition ≡ (g.started j).topic_partition) i _ g.started refl
        (λ j ne. refl) in
    let quit' : (j : ℕ) → (after j).quit ≡ (g.started j).quit =
      at-elim (λ j c. c.quit ≡ (g.started j).quit) i _ g.started refl (λ j ne. refl) in
    let before : (j : ℕ) → (after j).phase ≢ returned → (g.started j).phase ≢ returned =
      at-elim (λ j c. c.phase ≢ returned → (g.started j).phase ≢ returned) i _ g.started alive
        (λ j ne l. l) in
    record {
      owned = λ j h live. elim (v.owned j h (before j live)) [
        | inl e ↦ inl (ap g.consumers (topic j) ∙ e)
        | inr a ↦ inr a
      ];
      mapped = λ tp j h. let m = v.mapped tp j h in (m.0, topic j ∙ m.1);
      quitting = λ j h. let q = v.quitting j h in (q.0, quit' j ∙ q.1);
      gone = v.gone;
    }

assigned-IsValid :
    (g : Group) (tp : TopicPartition) → IsValid g → g.consumers tp ≡ none → IsValid (assigned tp g)
assigned-IsValid g tp v free = record {
  owned =
      at-elim
        (λ j c.
          j < suc g.next
          → c.phase ≢ returned
          → (put tp (some g.next) g.consumers c.topic_partition ≡ some j) ⊎ (g.awaited j ≡ true))
        g.next _ g.started (λ h live. inl (put_here tp (some g.next) g.consumers))
        (λ j ne h live. older j ne h (v.owned j (ground arith) live));
  mapped =
      put-elim (λ k o. (i : ℕ) → o ≡ some i → (i < suc g.next) × ((started' i).topic_partition ≡ k))
        tp _ g.consumers (λ i e. fresh i (some_eq e))
        (λ k ne i e.
          let m = v.mapped k i e in
          (omega (arith, m.0), ap (λ c. c.topic_partition) (kept i m.0) ∙ m.1));
  quitting =
      λ i a. let q = v.quitting i a in (omega (arith, q.0), ap (λ c. c.quit) (kept i q.0) ∙ q.1);
  gone =
      put-elim (λ k o. (i : ℕ) → g.awaited i ≡ true → o ≢ some i) tp (some g.next) g.consumers
        (λ i a e. absurd (not_next i (v.quitting i a).0 (some_eq e))) (λ k ne i a. v.gone k i a);
}
  where
    not_next : (i : ℕ) → i < g.next → g.next ≡ i → ⊥
    not_next i h e = omega (arith, h, e)

    started' : ℕ → Consumer
    started' = (assigned tp g).started

    fresh : (i : ℕ) → g.next ≡ i → (i < suc g.next) × ((started' i).topic_partition ≡ tp)
    fresh i e =
        subst (λ j. (j < suc g.next) × ((started' j).topic_partition ≡ tp)) e
          (omega arith, rw ((==_iff g.next g.next).1 refl) refl)

    kept : (i : ℕ) → i < g.next → started' i ≡ g.started i
    kept i h = at_other g.next _ g.started i (λ e. absurd (omega (arith, h, e)))

    older :
        (j : ℕ)
        → (j == g.next) ≡ false
        → j < suc g.next
        → IsOwned g j
        → (put tp (some g.next) g.consumers (g.started j).topic_partition ≡ some j)
          ⊎ (g.awaited j ≡ true)
    older j ne h (inl e) =
        inl (put_other tp (some g.next) g.consumers _ (λ same. cc (free, e, same)) ∙ e)
    older j ne h (inr a) = inr a

lost-IsValid :
    (g : Group) (tp : TopicPartition) (i : ℕ)
    → IsValid g
    → g.consumers tp ≡ some i
    → IsValid (lost tp i g)
lost-IsValid g tp i v has = record {
  owned = λ j h live. elim (Bool-cases (j == i)) [
    | inl same ↦ inr (rw same refl)
    | inr differ ↦ other_owned j differ h live
  ];
  mapped =
      put-elim (λ k o. (j : ℕ) → o ≡ some j → (j < g.next) × ((started' j).topic_partition ≡ k)) tp
        none g.consumers (λ j e. absurd (none-ne j e))
        (λ k ne j e. let m = v.mapped k j e in (m.0, topic j ∙ m.1));
  quitting =
      at-elim (λ j b. b ≡ true → (j < g.next) × ((started' j).quit ≡ true)) i true g.awaited
        (λ e. ((v.mapped tp i has).0, rw ((==_iff i i).1 refl) refl))
        (λ j differ a. let q = v.quitting j a in (q.0, rw differ q.1));
  gone =
      put-elim (λ k o. (j : ℕ) → at i true g.awaited j ≡ true → o ≢ some j) tp none g.consumers
        (λ j a e. none-ne j e)
        (λ k ne.
          at-elim (λ j b. b ≡ true → g.consumers k ≢ some j) i true g.awaited
            (λ a e. ne (sym (v.mapped k i e).1 ∙ (v.mapped tp i has).1))
            (λ j differ a. v.gone k j a));
}
  where
    started' : ℕ → Consumer
    started' = (lost tp i g).started

    none-ne : (j : ℕ) → none ≡ some j → ⊥
    none-ne j e = cc

    topic : (j : ℕ) → (started' j).topic_partition ≡ (g.started j).topic_partition
    topic =
        at-elim (λ j c. c.topic_partition ≡ (g.started j).topic_partition) i _ g.started refl
          (λ j ne. refl)

    other_owned :
        (j : ℕ)
        → (j == i) ≡ false
        → j < g.next
        → (started' j).phase ≢ returned
        → IsOwned (lost tp i g) j
    other_owned j differ h live = rw differ (elim (v.owned j h (rw differ at live)) [
      | inl e ↦ inl (put_other tp none g.consumers _ (λ same. absurd (clash same e)) ∙ e)
      | inr a ↦ inr a
    ])
      where
        clash :
            (g.started j).topic_partition ≡ tp
            → g.consumers (g.started j).topic_partition ≡ some j
            → ⊥
        clash same e = cc (differ, (==_iff j i).1 (some_eq (sym e ∙ ap g.consumers same ∙ has)))

lost_returns-IsValid :
    (g : Group)
    → IsValid g
    → ((i : ℕ) → g.awaited i ≡ true → (g.started i).phase ≡ returned)
    → IsValid (record g { awaited = λ i. false })
lost_returns-IsValid g v ended = record {
  owned = λ i h live. elim (v.owned i h live) [ inl e ↦ inl e | inr a ↦ absurd (live (ended i a)) ];
  mapped = v.mapped;
  quitting = λ i e. cc;
  gone = λ tp i e. absurd (ff e);
}
  where
    ff : false ≡ true → ⊥
    ff e = cc

graceful_shutdown-IsValid : (g : Group) → IsValid g → IsValid (graceful_shutdown g)
graceful_shutdown-IsValid g v = record {
  owned = λ i h live. elim (Bool-cases (is_member (g.consumers (g.started i).topic_partition) i)) [
    | inl member ↦ rw member (v.owned i h (rw member at live))
    | inr other ↦ rw other (v.owned i h (rw other at live))
  ];
  mapped = λ tp i h. let m = v.mapped tp i h in (m.0, topic i ∙ m.1);
  quitting = λ i a. let q = v.quitting i a in (q.0, quits' i q.1);
  gone = v.gone;
}
  where
    topic :
        (i : ℕ) → ((graceful_shutdown g).started i).topic_partition ≡ (g.started i).topic_partition
    topic i = elim (Bool-cases (is_member (g.consumers (g.started i).topic_partition) i)) [
      | inl member ↦ rw member refl
      | inr other ↦ rw other refl
    ]

    quits' : (i : ℕ) → (g.started i).quit ≡ true → ((graceful_shutdown g).started i).quit ≡ true
    quits' i q = elim (Bool-cases (is_member (g.consumers (g.started i).topic_partition) i)) [
      | inl member ↦ rw member refl
      | inr other ↦ rw other q
    ]

Step-IsValid : {g h : Group} → IsValid g → Step g h → IsValid h
Step-IsValid {g} v (assign tp alone free) = assigned-IsValid g tp v free
Step-IsValid {g} v (lose tp i has) = lost-IsValid g tp i v has
Step-IsValid {g} v (lost_returns ended) = lost_returns-IsValid g v ended
Step-IsValid {g} v (deliver tp i records has ready) =
    set_phase-IsValid g i (processing records) v (λ l e. cc (ready, e))
Step-IsValid {g} v (commit i records h busy) =
    set_phase-IsValid g i selecting v (λ l e. cc (busy, e))
Step-IsValid {g} v (quits i h ready told) = set_phase-IsValid g i returned v (λ l. absurd (l refl))
Step-IsValid {g} v (stops i h ready told) = set_phase-IsValid g i returned v (λ l. absurd (l refl))
Step-IsValid {g} v cancel = record {
  owned = v.owned;
  mapped = v.mapped;
  quitting = v.quitting;
  gone = v.gone;
}
Step-IsValid {g} v (shut_down told) = graceful_shutdown-IsValid g v

Steps-IsValid : {g h : Group} → IsValid g → Steps g h → IsValid h
Steps-IsValid v stay = v
Steps-IsValid v (next_step ss s) = Step-IsValid (Steps-IsValid v ss) s

-- What a new group can become.
abbrev pub IsReachable : Consumer → Group → Type 0
IsReachable unused = Steps (new_consumer_group unused)

pub IsReachable-IsValid : (unused : Consumer) (g : Group) → IsReachable unused g → IsValid g
IsReachable-IsValid unused g r = Steps-IsValid (new-IsValid unused) r
