-- ===== src/Utils/Json.antt =====
-- JSON as `encoding/json` reads it into an `any` and writes it (the calls of `json.Unmarshal` and
-- `json.Marshal` in events-processor/processors/events_processor/). A document is a tree; the text
-- of a string or a number stands in it as it is written.
pub mod Keys
pub mod RoundTrip
use lago_paiement_engine.Prelude.{
  ℕ, ◌⊎◌, inl, inr, Bool, true, false, Option, none, some, List, [], ◌∷◌, String, Bytes, codes,
  str_eq, ltb, ◌==◌, if◌then◌else◌,
}
use lago_paiement_engine.Utils.Result.{Error}
use lago_paiement_engine.Utils.Float.{Float64}
use lago_paiement_engine.Utils.Value.{
  Value, nil, bool, int, int64, float64, string, list, object, Items, no_items, item, Fields,
  no_fields, field, decimal_text,
}

mutual
  pub data Json : Type 0 where
    null : Json
    boolean : Bool → Json
    number : Bytes → Json
    -- What stands between the quotes, with its escapes.
    text : Bytes → Json
    array : Elements → Json
    members : Members → Json

  pub data Elements : Type 0 where
    no_elements : Elements
    element : Json → Elements → Elements

  pub data Members : Type 0 where
    no_members : Members
    member : String → Json → Members → Members

-- What the package does with the text of strings and numbers, and its errors: `quote` and
-- `unquote`, `strconv.ParseFloat` of a number and the text of a `float64`, an
-- `UnmarshalTypeError` for a Go type, the folding of the names of fields, and what `time.Parse`
-- says of a text, of an array or of an object.
pub record Codec : Type 0 where
  pub unquote : Bytes → String
  pub quote : String → Bytes
  pub float_of : Bytes → Error ⊎ Float64
  pub float_text : Float64 → Error ⊎ Bytes
  pub type_error : String → Json → Error
  pub fold : String → String
  pub string_of : Bytes → String
  pub parse_error : Bytes → Error
  pub not_a_time : Json → Error

-- The order of the bytes, which for UTF-8 is that of the code points.
abbrev pub codes_lt : Bytes → Bytes → Bool
codes_lt [] [] = false
codes_lt [] (y ∷ ys) = true
codes_lt (x ∷ xs) [] = false
codes_lt (x ∷ xs) (y ∷ ys) = if x == y then codes_lt xs ys else ltb x y

abbrev pub key_lt : String → String → Bool
key_lt k j = codes_lt (codes k) (codes j)

-- A map, by its entries in the order of their keys: the entry is added where the key is missing.
module _ {V : Type 0} where
  unfoldable pub put_absent : String → V → List (String × V) → List (String × V)
  put_absent k v [] = (k, v) ∷ []
  put_absent k v ((j, w) ∷ m) =
      if str_eq j k
      then (j, w) ∷ m
      else if key_lt k j
      then (k, v) ∷ (j, w) ∷ m
      else (j, w) ∷ put_absent k v m

abbrev pub fields_of : List (String × Value) → Fields
fields_of [] = no_fields
fields_of ((k, v) ∷ m) = field k v (fields_of m)

abbrev pub entries : Fields → List (String × Value)
entries no_fields = []
entries (field k v fs) = (k, v) ∷ entries fs

-- `saveError` keeps the first error.
abbrev pub save : Option Error → Error → Option Error
save none e = some e
save (some first) e = some first

abbrev pub number_text : Error ⊎ Bytes → Error ⊎ Json
number_text (inl e) = inl e
number_text (inr digits) = inr (number digits)

abbrev pub array_of : Error ⊎ Elements → Error ⊎ Json
array_of (inl e) = inl e
array_of (inr es) = inr (array es)

abbrev pub members_of : Error ⊎ Members → Error ⊎ Json
members_of (inl e) = inl e
members_of (inr ms) = inr (members ms)

abbrev pub element_of : Error ⊎ Json → Error ⊎ Elements → Error ⊎ Elements
element_of (inl e) rest = inl e
element_of (inr j) (inl e) = inl e
element_of (inr j) (inr es) = inr (element j es)

abbrev pub member_of : String → Error ⊎ Json → Error ⊎ Members → Error ⊎ Members
member_of k (inl e) rest = inl e
member_of k (inr j) (inl e) = inl e
member_of k (inr j) (inr ms) = inr (member k j ms)

-- The first error, or all members.
abbrev pub sequence : List (String × (Error ⊎ Json)) → Error ⊎ Members
sequence [] = inr no_members
sequence ((k, r) ∷ m) = member_of k r (sequence m)

abbrev pub decode_number : Error ⊎ Float64 → Option Error → Value × Option Error
decode_number (inl e) saved = (nil, save saved e)
decode_number (inr f) saved = (float64 f, saved)

module _ (c : Codec) where
  -- A value that is read into an `any`, with the error that is saved. Of the members of one name
  -- the last one counts.
  unfoldable mutual
    pub decode_any : Json → Option Error → Value × Option Error
    decode_any null saved = (nil, saved)
    decode_any (boolean b) saved = (bool b, saved)
    decode_any (number digits) saved = decode_number (c.float_of digits) saved
    decode_any (text raw) saved = (string (c.unquote raw), saved)
    decode_any (array es) saved = let (xs, saved') = decode_elements es saved in (list xs, saved')
    decode_any (members ms) saved =
        let (m, saved') = decode_members ms saved in (object (fields_of m), saved')

    pub decode_elements : Elements → Option Error → Items × Option Error
    decode_elements no_elements saved = (no_items, saved)
    decode_elements (element j es) saved =
        let (v, saved') = decode_any j saved in
        let (xs, saved'') = decode_elements es saved' in (item v xs, saved'')

    pub decode_members : Members → Option Error → List (String × Value) × Option Error
    decode_members no_members saved = ([], saved)
    decode_members (member k j ms) saved =
        let (v, saved') = decode_any j saved in
        let (m, saved'') = decode_members ms saved' in (put_absent k v m, saved'')

  -- The text of a value; a map is written in the order of its keys.
  mutual
    pub encode_any : Value → Error ⊎ Json
    encode_any nil = inr null
    encode_any (bool b) = inr (boolean b)
    encode_any (int n) = inr (number (codes (decimal_text n)))
    encode_any (int64 n) = inr (number (codes (decimal_text n)))
    encode_any (float64 f) = number_text (c.float_text f)
    encode_any (string s) = inr (text (c.quote s))
    encode_any (list xs) = array_of (encode_items xs)
    encode_any (object fs) = members_of (sequence (encode_fields fs))

    pub encode_items : Items → Error ⊎ Elements
    encode_items no_items = inr no_elements
    encode_items (item v xs) = element_of (encode_any v) (encode_items xs)

    pub encode_fields : Fields → List (String × (Error ⊎ Json))
    encode_fields no_fields = []
    encode_fields (field k v fs) = put_absent k (encode_any v) (encode_fields fs)
