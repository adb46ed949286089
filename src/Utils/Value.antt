-- ===== src/Utils/Value.antt =====
-- The dynamic values (`any`) that an event's JSON holds, and how `fmt` prints them.
use mathlib.Core.List.{map}
use Prim.Native.Nat.{Ordering}
use Prim.Native.String
use lago_paiement_engine.Prelude.{
  ℕ, zero, suc, ◌/◌, ◌%◌, Bool, true, false, List, [], ◌∷◌, String, concat, join, ltb, ◌==◌,
  if◌then◌else◌,
}
use lago_paiement_engine.Prelude.Int.{ℤ, pos, negsuc}
use lago_paiement_engine.Utils.Float.{Float64, Floats}

mutual
  pub data Value : Type 0 where
    nil : Value
    bool : Bool → Value
    int : ℤ → Value
    int64 : ℤ → Value
    float64 : Float64 → Value
    string : String → Value
    list : Items → Value
    object : Fields → Value

  pub data Items : Type 0 where
    no_items : Items
    item : Value → Items → Items

  pub data Fields : Type 0 where
    no_fields : Fields
    field : String → Value → Fields → Fields

abbrev digit : ℕ → String
digit n =
    if n == 0
    then "0"
    else if n == 1
    then "1"
    else if n == 2
    then "2"
    else if n == 3
    then "3"
    else if n == 4
    then "4"
    else if n == 5
    then "5"
    else if n == 6
    then "6"
    else if n == 7
    then "7"
    else if n == 8
    then "8"
    else "9"

decimal_text_onto : ℕ → ℕ → String → String
decimal_text_onto zero n acc = acc
decimal_text_onto (suc fuel) n acc =
    let acc' = String.◌++◌ (digit (n % 10)) acc in
    let rest = decimal_text_onto fuel (n / 10) acc' in if ltb n 10 then acc' else rest

-- `fmt.Sprintf("%d", n)`
unfoldable pub decimal_text : ℤ → String
unfolding decimal_text_onto
decimal_text (pos n) = decimal_text_onto (suc n) n ""
decimal_text (negsuc n) = String.◌++◌ "-" (decimal_text_onto (suc (suc n)) (suc n) "")

-- `<=` on strings, by their bytes.
abbrev pub str_leb : String → String → Bool
str_leb a b = elim (String.compare a b) [ Ordering.gt ↦ false | _ ↦ true ]

module _ {V : Type 0} where
  abbrev insert_by_key : String → V → List (String × V) → List (String × V)
  insert_by_key k v [] = (k, v) ∷ []
  insert_by_key k v ((j, w) ∷ m) =
      if str_leb k j then (k, v) ∷ (j, w) ∷ m else (j, w) ∷ insert_by_key k v m

  -- The order in which `fmt` prints a map.
  abbrev sort_by_key : List (String × V) → List (String × V)
  sort_by_key [] = []
  sort_by_key ((k, v) ∷ m) = insert_by_key k v (sort_by_key m)

-- `sort.Strings`
abbrev pub insert_sorted : String → List String → List String
insert_sorted k [] = k ∷ []
insert_sorted k (j ∷ js) = if str_leb k j then k ∷ j ∷ js else j ∷ insert_sorted k js

abbrev pub sort : List String → List String
sort [] = []
sort (k ∷ ks) = insert_sorted k (sort ks)

abbrev entry_text : String × String → String
entry_text (k, v) = concat (k ∷ ":" ∷ v ∷ [])

-- `fmt.Sprintf("%T", v)`
pub type_name : Value → String
type_name nil = "<nil>"
type_name (bool b) = "bool"
type_name (int n) = "int"
type_name (int64 n) = "int64"
type_name (float64 f) = "float64"
type_name (string s) = "string"
type_name (list xs) = "[]interface {}"
type_name (object fs) = "map[string]interface {}"

module _ (fl : Floats) where
  -- `fmt.Sprintf("%v", v)`
  unfoldable mutual
    pub sprint_v : Value → String
    sprint_v nil = "<nil>"
    sprint_v (bool true) = "true"
    sprint_v (bool false) = "false"
    sprint_v (int n) = decimal_text n
    sprint_v (int64 n) = decimal_text n
    sprint_v (float64 f) = fl.format_v f
    sprint_v (string s) = s
    sprint_v (list xs) = concat ("[" ∷ join " " (sprint_items xs) ∷ "]" ∷ [])
    sprint_v (object fs) =
        concat ("map[" ∷ join " " (map entry_text (sort_by_key (sprint_fields fs))) ∷ "]" ∷ [])

    sprint_items : Items → List String
    sprint_items no_items = []
    sprint_items (item v xs) = sprint_v v ∷ sprint_items xs

    sprint_fields : Fields → List (String × String)
    sprint_fields no_fields = []
    sprint_fields (field k v fs) = (k, sprint_v v) ∷ sprint_fields fs
