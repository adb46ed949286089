-- ===== src/Startup/Serving.antt =====
-- When a run gets to the start of the consumer group. It models no code.
use lago_paiement_engine.Prelude.{
  inl, inr, ◌↔◌, List, [], ◌∷◌, ◌++◌, All, Some, All-append, String, All-append_left,
  All-append_right, Some-append, Some-append_left, Some-append_right,
}
use lago_paiement_engine.Startup.{
  Call, close, Resource, Libraries, Ran, ran, returned, failed, panicked, calls_of, Action,
  after_calls, and_then, log_and_panic_at, close_after,
}
use lago_paiement_engine.Startup.Runs.{IsSuccess, IsServe}

module _ {H : Type 0} where
  abbrev pub Served : List (Call H) → Type 0
  Served calls = Some IsServe calls

  -- No call got an error.
  abbrev pub Succeeds : List (Call H) → Type 0
  Succeeds calls = All IsSuccess calls

  neither : (xs ys : List (Call H)) → (Served xs → ⊥) → (Served ys → ⊥) → Served (xs ++ ys) → ⊥
  neither xs ys hx hy s = elim (Some-append IsServe xs ys s) [ inl e ↦ hx e | inr e ↦ hy e ]

module _ {W H A : Type 0} where
  -- The run returns if `P` holds and no call gets an error, and starts no group.
  abbrev pub ReturnsIf : Type 0 → Ran W H A → Type 0
  ReturnsIf P (ran (returned a) w calls) = P × Succeeds calls × (Served calls → ⊥)
  ReturnsIf P (ran (failed e) w calls) = (P → Succeeds calls → ⊥) × (Served calls → ⊥)
  ReturnsIf P (ran (panicked s) w calls) = (P → Succeeds calls → ⊥) × (Served calls → ⊥)

  pub record Passes (P : Type 0) (r : Ran W H A) : Type 0 where
    pub passes : ReturnsIf P r

  -- The run starts the group exactly if `P` holds and no call gets an error.
  pub record Serves (P : Type 0) (r : Ran W H A) : Type 0 where
    pub serves : Served (calls_of r) ↔ (P × Succeeds (calls_of r))

  pub Passes-iff : {P Q : Type 0} (r : Ran W H A) → (P → Q) → (Q → P) → Passes P r → Passes Q r
  Passes-iff (ran (returned a) w calls) f g h = record {
    passes = (f h.passes.0, h.passes.1, h.passes.2);
  }
  Passes-iff (ran (failed e) w calls) f g h = record {
    passes = (λ q. h.passes.0 (g q), h.passes.1);
  }
  Passes-iff (ran (panicked s) w calls) f g h = record {
    passes = (λ q. h.passes.0 (g q), h.passes.1);
  }

  after_calls-Serves :
      {P Q : Type 0} (calls : List (Call H)) (r : Ran W H A)
      → P × Succeeds calls × (Served calls → ⊥)
      → Serves Q r
      → Serves (P × Q) (after_calls calls r)
  after_calls-Serves {P} {Q} calls (ran o w made) h k = record { serves = (forth, back) }
    where
      forth : Served (calls ++ made) → (P × Q) × Succeeds (calls ++ made)
      forth s = elim (Some-append IsServe calls made s) [
        | inl early ↦ absurd (h.2 early)
        | inr late ↦
            let f = k.serves.0 late in ((h.0, f.0), All-append IsSuccess calls made h.1 f.1)
      ]

      back : (P × Q) × Succeeds (calls ++ made) → Served (calls ++ made)
      back b =
          Some-append_right IsServe calls made
            (k.serves.1 (b.0.1, All-append_right IsSuccess calls made b.1))

  never-Serves :
      {P : Type 0} (r : Ran W H A)
      → (P → Succeeds (calls_of r) → ⊥) × (Served (calls_of r) → ⊥)
      → Serves P r
  never-Serves r h = record { serves = (λ s. absurd (h.1 s), λ b. absurd (h.0 b.0 b.1)) }

  pub log_and_panic_at-Passes :
      {P : Type 0} (message : String) (r : Ran W H A)
      → Passes P r
      → Passes P (log_and_panic_at message r)
  log_and_panic_at-Passes message (ran (returned a) w calls) h = h
  log_and_panic_at-Passes message (ran (panicked s) w calls) h = h
  log_and_panic_at-Passes message (ran (failed e) w calls) h = record {
    passes = (
      λ p all. h.passes.0 p (All-append_left IsSuccess calls _ all),
      λ s. elim (Some-append IsServe calls _ s) [
        | inl early ↦ h.passes.1 early
        | inr (inr (inr late)) ↦ late
        | inr (inr (inl late)) ↦ late
        | inr (inl late) ↦ late
      ],
    );
  }

  pub close_after-Serves :
      {P : Type 0} (lib : Libraries W H) (resource : Resource H) (r : Ran W H A)
      → Serves P r
      → Serves P (close_after lib resource r)
  close_after-Serves {P} lib resource (ran o w calls) h = record { serves = (forth, back) }
    where
      forth : Served (calls ++ close resource ∷ []) → P × Succeeds (calls ++ close resource ∷ [])
      forth s = elim (Some-append IsServe calls (close resource ∷ []) s) [
        | inl early ↦
            let f = h.serves.0 early in
            (f.0, All-append IsSuccess calls (close resource ∷ []) f.1 (tt, tt))
        | inr (inl late) ↦ absurd late
        | inr (inr late) ↦ absurd late
      ]

      back : P × Succeeds (calls ++ close resource ∷ []) → Served (calls ++ close resource ∷ [])
      back b =
          Some-append_left IsServe calls (close resource ∷ [])
            (h.serves.1 (b.0, All-append_left IsSuccess calls (close resource ∷ []) b.1))

  after_calls-Passes :
      {P Q R : Type 0} (calls : List (Call H)) (r : Ran W H A)
      → (P → Q → R)
      → (R → Q)
      → P × Succeeds calls × (Served calls → ⊥)
      → Passes Q r
      → Passes R (after_calls calls r)
  after_calls-Passes calls (ran (returned a) w made) both part h k = record {
    passes = (
      both h.0 k.passes.0,
      All-append IsSuccess calls made h.1 k.passes.1,
      neither calls made h.2 k.passes.2,
    );
  }
  after_calls-Passes calls (ran (failed e) w made) both part h k = record {
    passes = (
      λ r all. k.passes.0 (part r) (All-append_right IsSuccess calls made all),
      neither calls made h.2 k.passes.1,
    );
  }
  after_calls-Passes calls (ran (panicked s) w made) both part h k = record {
    passes = (
      λ r all. k.passes.0 (part r) (All-append_right IsSuccess calls made all),
      neither calls made h.2 k.passes.1,
    );
  }

module _ {W H A B : Type 0} where
  pub and_then-Serves :
      {P Q : Type 0} (r : Ran W H A) (f : A → Action W H B)
      → Passes P r
      → ((a : A) (w : W) → Serves Q (f a w))
      → Serves (P × Q) (and_then r f)
  and_then-Serves (ran (returned a) w calls) f h k =
      after_calls-Serves calls (f a w) h.passes (k a w)
  and_then-Serves (ran (failed e) w calls) f h k =
      never-Serves _ (λ p all. h.passes.0 p.0 all, h.passes.1)
  and_then-Serves (ran (panicked s) w calls) f h k =
      never-Serves _ (λ p all. h.passes.0 p.0 all, h.passes.1)

  and_then-Passes :
      {P Q R : Type 0} (r : Ran W H A) (f : A → Action W H B)
      → (P → Q → R)
      → (R → P)
      → (R → Q)
      → Passes P r
      → ((a : A) (w : W) → Passes Q (f a w))
      → Passes R (and_then r f)
  and_then-Passes (ran (returned a) w calls) f both left right h k =
      after_calls-Passes calls (f a w) both right h.passes (k a w)
  and_then-Passes (ran (failed e) w calls) f both left right h k = record {
    passes = (λ r all. h.passes.0 (left r) all, h.passes.1);
  }
  and_then-Passes (ran (panicked s) w calls) f both left right h k = record {
    passes = (λ r all. h.passes.0 (left r) all, h.passes.1);
  }

  -- A step that only asks, before the rest.
  pub step-Passes :
      {P : Type 0} (r : Ran W H A) (f : A → Action W H B)
      → Passes Unit r
      → ((a : A) (w : W) → Passes P (f a w))
      → Passes P (and_then r f)
  step-Passes r f h k = and_then-Passes r f (λ u p. p) (λ p. tt) (λ p. p) h k

  -- A rest that only asks.
  pub rest-Passes :
      {P : Type 0} (r : Ran W H A) (f : A → Action W H B)
      → Passes P r
      → ((a : A) (w : W) → Passes Unit (f a w))
      → Passes P (and_then r f)
  rest-Passes r f h k = and_then-Passes r f (λ p u. p) (λ p. p) (λ p. tt) h k
