-- ===== src/Kafka/Commit.antt =====
-- Which records of a polled batch are committed (events-processor/config/kafka/consumer.go).
use lago_paiement_engine.Prelude.{
  ℕ, zero, suc, ◌+◌, ◌-◌, ◌/◌, ◌%◌, ◌^◌, ◌<◌, Bool, true, false, not, ◌&&◌, ◌||◌, Option, none,
  some, List, [], ◌∷◌, ◌++◌, map, ltb, ◌==◌, if◌then◌else◌, length, Bytes,
}
pub mod Key
pub mod Loops
pub mod Bounds
pub mod Safety
pub mod Later
pub mod Handed

-- `kgo.Record`, with the fields that the program reads. Offsets of a partition are not negative.
pub record Record : Type 0 where
  pub key : Bytes
  pub value : Bytes
  pub offset : ℕ

-- `fmt.Sprintf("%d", n)` of a number that is not negative: digits from the last to the first.
decimal_onto : ℕ → ℕ → Bytes → Bytes
decimal_onto zero n acc = acc
decimal_onto (suc fuel) n acc =
    let acc' = (b'0' + n % 10) ∷ acc in
    let rest = decimal_onto fuel (n / 10) acc' in if ltb n 10 then acc' else rest

pub decimal : ℕ → Bytes
unfolding decimal_onto
decimal n = decimal_onto (suc n) n []

-- `fmt.Sprintf("%s-%d", string(record.Key), record.Offset)`
pub record_key : Record → Bytes
record_key r = r.key ++ (b'-' ∷ decimal r.offset)

-- `==` on strings, by their bytes.
pub bytes_eq : Bytes → Bytes → Bool
bytes_eq [] [] = true
bytes_eq (x ∷ xs) (y ∷ ys) = x == y && bytes_eq xs ys
bytes_eq _ _ = false

-- A `map[string]bool` that only ever stores `true`, by its keys in the order of insertion.
abbrev pub KeySet : Type 0
KeySet = List Bytes

pub has_key : Bytes → KeySet → Bool
has_key k [] = false
has_key k (j ∷ js) = bytes_eq j k || has_key k js

-- The first loop of `findMaxCommitableRecord`.
processed_map : List Record → KeySet
processed_map = map record_key

abbrev pub max_int64 : ℕ
max_int64 = 2 ^ 63 - 1

-- The second loop keeps `(minUnprocessedOffset, foundUnprocessed)`.
min_step : KeySet → Record → ℕ × Bool → ℕ × Bool
min_step done r (lowest, found) =
    if not (has_key (record_key r) done) && (not found || ltb r.offset lowest)
    then (r.offset, true)
    else (lowest, found)

pub min_unprocessed : KeySet → List Record → ℕ × Bool → ℕ × Bool
min_unprocessed done [] s = s
min_unprocessed done (r ∷ rs) s = min_unprocessed done rs (min_step done r s)

-- `maxRecord == nil || record.Offset > maxRecord.Offset`
above : Option Record → ℕ → Bool
above none offset = true
above (some m) offset = ltb m.offset offset

-- The third loop keeps `maxRecord`.
max_step : ℕ → Record → Option Record → Option Record
max_step bound r best = if ltb r.offset bound && above best r.offset then some r else best

pub max_below : ℕ → List Record → Option Record → Option Record
max_below bound [] best = best
max_below bound (r ∷ rs) best = max_below bound rs (max_step bound r best)

pub find_max_commitable_record : List Record → List Record → Option Record
find_max_commitable_record processed records =
    max_below (min_unprocessed (processed_map processed) records (max_int64, false)).0 processed
      none

-- What `processRecordsAndCommit` hands to `client.CommitRecords`; `none` is a nil pointer.
pub commitable_records : List Record → List Record → List (Option Record)
commitable_records processed records =
    if length processed == length records
    then map some records
    else find_max_commitable_record processed records ∷ []
