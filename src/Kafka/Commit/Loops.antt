-- ===== src/Kafka/Commit/Loops.antt =====
-- What the loops of `findMaxCommitableRecord` compute.
use lago_paiement_engine.Prelude.{
  ℕ, ◌≤◌, ◌<◌, ◌≡◌, ◌⊎◌, refl, ap, ◌∙◌, Bool, true, false, inl, inr, List, [], ◌∷◌, Option, none,
  some, not, ◌&&◌, ◌||◌, arith, ltb, Bool-cases, All, Some,
}
use lago_paiement_engine.Kafka.Commit.{
  Record, record_key, KeySet, has_key, min_step, min_unprocessed, above, max_step, max_below,
}

abbrev pub Missing : KeySet → Record → Type 0
Missing done r = has_key (record_key r) done ≡ false

-- The loop never raises the minimum once a missing record is found.
min_unprocessed-le :
    (done : KeySet) (rs : List Record) (lowest : ℕ)
    → (min_unprocessed done rs (lowest, true)).0 ≤ lowest
unfolding min_unprocessed min_step
min_unprocessed-le done [] lowest = omega arith
min_unprocessed-le done (r ∷ rs) lowest =
    ground (arith, min_unprocessed-le done rs lowest, min_unprocessed-le done rs r.offset)

min_step-le :
    (done : KeySet) (rs : List Record) (r : Record) (lowest : ℕ) (found : Bool)
    → Missing done r
    → (min_unprocessed done rs (min_step done r (lowest, found))).0 ≤ r.offset
unfolding min_step
min_step-le done rs r lowest found h =
    ground (arith, min_unprocessed-le done rs lowest, min_unprocessed-le done rs r.offset)

-- No missing record lies below the minimum.
pub min_unprocessed-All :
    (done : KeySet) (rs : List Record) (s : ℕ × Bool)
    → All (λ r. Missing done r → (min_unprocessed done rs s).0 ≤ r.offset) rs
unfolding min_unprocessed
min_unprocessed-All done [] s = tt
min_unprocessed-All done (r ∷ rs) (lowest, found) = (
  min_step-le done rs r lowest found,
  min_unprocessed-All done rs (min_step done r (lowest, found)),
)

min_step_cases :
    (done : KeySet) (r : Record) (s : ℕ × Bool)
    → (min_step done r s ≡ s) ⊎ (Missing done r × ((min_step done r s).0 ≡ r.offset))
unfolding min_step
min_step_cases done r (lowest, found) =
    elim (Bool-cases (not (has_key (record_key r) done) && (not found || ltb r.offset lowest))) [
      | inl lower ↦ inr (ground arith, rw lower)
      | inr skip ↦ inl (rw skip)
    ]

-- The minimum is a missing record's offset, or it is the value that the loop began with.
pub min_unprocessed_attained :
    (done : KeySet) (rs : List Record) (s : ℕ × Bool)
    → ((min_unprocessed done rs s).0 ≡ s.0)
      ⊎ Some (λ r. Missing done r × ((min_unprocessed done rs s).0 ≡ r.offset)) rs
unfolding min_unprocessed
min_unprocessed_attained done [] s = inl refl
min_unprocessed_attained done (r ∷ rs) s =
    elim (min_unprocessed_attained done rs (min_step done r s)) [
      | inl e ↦ elim (min_step_cases done r s) [
        | inl same ↦ inl (e ∙ ap (λ (t : ℕ × Bool). t.0) same)
        | inr (missing, here) ↦ inr (inl (missing, e ∙ here))
      ]
      | inr later ↦ inr (inr later)
    ]

abbrev pub Reaches : Option Record → ℕ → Type 0
Reaches none offset = ⊥
Reaches (some m) offset = offset ≤ m.offset

max_step_cases :
    (bound : ℕ) (r : Record) (best : Option Record)
    → (max_step bound r best ≡ best) ⊎ ((max_step bound r best ≡ some r) × (r.offset < bound))
unfolding max_step
max_step_cases bound r best = elim (Bool-cases (ltb r.offset bound && above best r.offset)) [
  | inl take ↦ inr (rw take, ground arith)
  | inr skip ↦ inl (rw skip)
]

-- What the third loop returns is what it began with, or an element below the bound.
pub max_below_attained :
    (bound : ℕ) (rs : List Record) (best : Option Record)
    → (max_below bound rs best ≡ best)
      ⊎ Some (λ r. (max_below bound rs best ≡ some r) × (r.offset < bound)) rs
unfolding max_below
max_below_attained bound [] best = inl refl
max_below_attained bound (r ∷ rs) best =
    elim (max_below_attained bound rs (max_step bound r best)) [
      | inl e ↦ elim (max_step_cases bound r best) [
        | inl same ↦ inl (e ∙ same)
        | inr (taken, low) ↦ inr (inl (e ∙ taken, low))
      ]
      | inr later ↦ inr (inr later)
    ]

max_step-Reaches :
    (bound : ℕ) (r : Record) (best : Option Record) (offset : ℕ)
    → Reaches best offset
    → Reaches (max_step bound r best) offset
unfolding max_step above
max_step-Reaches bound r none offset h = absurd h
max_step-Reaches bound r (some b) offset h =
    elim (Bool-cases (ltb r.offset bound && ltb b.offset r.offset)) [
      | inl take ↦ rw take (ground arith)
      | inr skip ↦ rw skip h
    ]

max_below-Reaches :
    (bound : ℕ) (rs : List Record) (best : Option Record) (offset : ℕ)
    → Reaches best offset
    → Reaches (max_below bound rs best) offset
unfolding max_below
max_below-Reaches bound [] best offset h = h
max_below-Reaches bound (r ∷ rs) best offset h =
    max_below-Reaches bound rs (max_step bound r best) offset
      (max_step-Reaches bound r best offset h)

max_step_here :
    (bound : ℕ) (r : Record) (best : Option Record)
    → r.offset < bound
    → Reaches (max_step bound r best) r.offset
unfolding max_step above
max_step_here bound r none h = ground arith
max_step_here bound r (some b) h = elim (Bool-cases (ltb b.offset r.offset)) [
  | inl take ↦ ground arith
  | inr skip ↦ ground arith
]

pub max_below-All :
    (bound : ℕ) (rs : List Record) (best : Option Record)
    → All (λ r. r.offset < bound → Reaches (max_below bound rs best) r.offset) rs
unfolding max_below
max_below-All bound [] best = tt
max_below-All bound (r ∷ rs) best = (
  λ h. max_below-Reaches bound rs (max_step bound r best) r.offset (max_step_here bound r best h),
  max_below-All bound rs (max_step bound r best),
)
