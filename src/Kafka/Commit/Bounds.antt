-- ===== src/Kafka/Commit/Bounds.antt =====
-- `findMaxCommitableRecord` returns the highest record below all that is not processed.
use lago_paiement_engine.Prelude.{
  ℕ, ◌≤◌, ◌<◌, ◌≡◌, ◌⊎◌, sym, true, false, inl, inr, List, [], ◌∷◌, Option, none, some, arith,
  Bool-cases, All, All-map, All-Some, All-zip, Some-elim, Some, Some-map,
}
use lago_paiement_engine.Kafka.Commit.{
  Record, record_key, bytes_eq, has_key, processed_map, max_int64, min_unprocessed, max_below,
  find_max_commitable_record,
}
use lago_paiement_engine.Kafka.Commit.Loops.{
  Missing, Reaches, min_unprocessed-All, min_unprocessed_attained, max_below_attained,
  max_below-All,
}
use lago_paiement_engine.Kafka.Commit.Key.{record_key-injective, bytes_eq_iff}

-- The record with this key and offset is among the processed ones.
abbrev pub IsProcessed : List Record → Record → Type 0
IsProcessed processed r = Some (λ p. (p.key ≡ r.key) × (p.offset ≡ r.offset)) processed

-- Every record of the batch that is not processed has a higher offset.
abbrev pub IsSafe : List Record → List Record → ℕ → Type 0
IsSafe processed records offset =
    All (λ r. (IsProcessed processed r → ⊥) → offset < r.offset) records

-- The processed record of the highest safe offset, or none if no processed record is safe.
abbrev pub IsMaxCommitable : List Record → List Record → Option Record → Type 0
IsMaxCommitable processed records none = All (λ p. IsSafe processed records p.offset → ⊥) processed
IsMaxCommitable processed records (some m) =
    Some (λ p. p ≡ m) processed
    × IsSafe processed records m.offset
    × All (λ p. IsSafe processed records p.offset → p.offset ≤ m.offset) processed

has_key→IsProcessed :
    (r : Record) (processed : List Record)
    → has_key (record_key r) (processed_map processed) ≡ true
    → IsProcessed processed r
unfolding has_key processed_map
has_key→IsProcessed r [] h = cc
has_key→IsProcessed r (p ∷ ps) h = elim (Bool-cases (bytes_eq (record_key p) (record_key r))) [
  | inl same ↦ inl ((record_key-injective p r).0 ((bytes_eq_iff _ _).0 same))
  | inr other ↦ inr (has_key→IsProcessed r ps (rw other at h))
]

IsProcessed→has_key :
    (r : Record) (processed : List Record)
    → IsProcessed processed r
    → has_key (record_key r) (processed_map processed) ≡ true
unfolding has_key processed_map
IsProcessed→has_key r [] h = absurd h
IsProcessed→has_key r (p ∷ ps) (inl same) =
    rw ((bytes_eq_iff (record_key p) (record_key r)).1 ((record_key-injective p r).1 same))
IsProcessed→has_key r (p ∷ ps) (inr h) = ground (arith, IsProcessed→has_key r ps h)

Missing-of_not :
    (processed : List Record) (r : Record)
    → (IsProcessed processed r → ⊥)
    → Missing (processed_map processed) r
Missing-of_not processed r h =
    elim (Bool-cases (has_key (record_key r) (processed_map processed))) [
      | inl there ↦ absurd (h (has_key→IsProcessed r processed there))
      | inr gone ↦ gone
    ]

not_of_Missing :
    (processed : List Record) (r : Record)
    → Missing (processed_map processed) r
    → IsProcessed processed r
    → ⊥
not_of_Missing processed r h p = cc (h, IsProcessed→has_key r processed p)

some_eq : {m r : Record} → some m ≡ some r → m ≡ r
some_eq h = cc

module _ (processed records : List Record) where
  abbrev bound : ℕ
  bound = (min_unprocessed (processed_map processed) records (max_int64, false)).0

  IsSafe-of_lt : (offset : ℕ) → offset < bound → IsSafe processed records offset
  IsSafe-of_lt offset h =
      All-map records
        (λ r (le : Missing (processed_map processed) r → bound ≤ r.offset)
            (out : IsProcessed processed r → ⊥).
          lt_of r (le (Missing-of_not processed r out)))
        (min_unprocessed-All (processed_map processed) records (max_int64, false))
    where
      lt_of : (r : Record) → bound ≤ r.offset → offset < r.offset
      lt_of r le = omega arith

  lt_of_IsSafe :
      (offset : ℕ) → offset < max_int64 → IsSafe processed records offset → offset < bound
  lt_of_IsSafe offset small safe =
      elim (min_unprocessed_attained (processed_map processed) records (max_int64, false)) [
        | inl e ↦ rw e small
        | inr s ↦
            All-Some records
              (λ r (above : (IsProcessed processed r → ⊥) → offset < r.offset)
                  (low : Missing (processed_map processed) r × (bound ≡ r.offset)).
                rw low.1 (above (not_of_Missing processed r low.0)))
              safe s
      ]

  IsMaxCommitable-of :
      (o : Option Record)
      → (o ≡ none) ⊎ Some (λ r. (o ≡ some r) × (r.offset < bound)) processed
      → All (λ r. r.offset < bound → Reaches o r.offset) processed
      → All (λ p. p.offset < max_int64) processed
      → IsMaxCommitable processed records o
  IsMaxCommitable-of none taken high small =
      All-zip processed
        (λ p (up : p.offset < bound → ⊥) (fits : p.offset < max_int64)
            (safe : IsSafe processed records p.offset).
          up (lt_of_IsSafe p.offset fits safe))
        high small
  IsMaxCommitable-of (some m) (inl e) high small = cc
  IsMaxCommitable-of (some m) (inr s) high small = (
    Some-map processed (λ r (h : (some m ≡ some r) × (r.offset < bound)). sym (some_eq h.0)) s,
    IsSafe-of_lt m.offset (
        Some-elim processed (λ r (h : (some m ≡ some r) × (r.offset < bound)). rw (some_eq h.0) h.1)
          s),
    All-zip processed
        (λ p (up : p.offset < bound → p.offset ≤ m.offset) (fits : p.offset < max_int64)
            (safe : IsSafe processed records p.offset).
          up (lt_of_IsSafe p.offset fits safe))
        high small,
  )

  -- Where every processed offset is below the largest `int64`, `findMaxCommitableRecord` returns
  -- a processed record such that every record of the batch whose key and offset are not among
  -- the processed ones lies above it, and no processed record with that property has a higher
  -- offset; it returns nil exactly when no processed record has that property.
  pub find_max-IsMaxCommitable :
      All (λ p. p.offset < max_int64) processed
      → IsMaxCommitable processed records (find_max_commitable_record processed records)
  unfolding find_max_commitable_record
  find_max-IsMaxCommitable small =
      IsMaxCommitable-of (max_below bound processed none) (max_below_attained bound processed none)
        (max_below-All bound processed none) small
