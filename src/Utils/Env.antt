-- ===== src/Utils/Env.antt =====
-- Reading the environment (events-processor/utils/env.go). A text is its code points.
pub mod Brokers
pub mod Numbers
pub mod Reading
use lago_paiement_engine.Prelude.{
  ℕ, ◌+◌, ◌*◌, ◌-◌, Bool, true, false, ◌&&◌, ◌||◌, Option, none, some, List, [], ◌∷◌, ◌⊎◌, inl, inr,
  map, ltb, leb, ◌==◌, if◌then◌else◌,
}
use lago_paiement_engine.Prelude.Int.{ℤ, pos, negsuc}

abbrev pub Runes : Type 0
Runes = List ℕ

abbrev pub is_empty : Runes → Bool
is_empty [] = true
is_empty (c ∷ s) = false

-- `unicode.IsSpace`
unfoldable pub is_space : ℕ → Bool
is_space c =
    (leb 9 c && leb c 13)
    || c == 32
    || c == 133
    || c == 160
    || c == 5760
    || (leb 8192 c && leb c 8202)
    || c == 8232
    || c == 8233
    || c == 8239
    || c == 8287
    || c == 12288

abbrev cons_first : ℕ → List Runes → List Runes
cons_first c [] = (c ∷ []) ∷ []
cons_first c (s ∷ ss) = (c ∷ s) ∷ ss

-- `strings.Split(s, ",")`
pub split : Runes → List Runes
split [] = [] ∷ []
split (c ∷ s) = let rest = split s in if c == b',' then [] ∷ rest else cons_first c rest

pub trim_left : Runes → Runes
trim_left [] = []
trim_left (c ∷ s) = let rest = trim_left s in if is_space c then rest else c ∷ s

pub trim_right : Runes → Runes
trim_right [] = []
trim_right (c ∷ s) = let rest = trim_right s in if is_space c && is_empty rest then [] else c ∷ rest

-- `strings.TrimSpace`
abbrev pub trim_space : Runes → Runes
trim_space s = trim_right (trim_left s)

-- `ParseBrokersEnv`
pub parse_brokers_env : Runes → List Runes
parse_brokers_env brokers_str =
    if is_empty brokers_str then [] else map trim_space (split brokers_str)

-- Why `strconv` refuses a text.
pub data NumError : Type 0 where
  invalid_syntax out_of_range : NumError

-- The value of the digits behind `acc`; `none` where another character stands among them.
pub digits : ℕ → Runes → Option ℕ
digits acc [] = some acc
digits acc (c ∷ s) =
    let rest = digits (acc * 10 + (c - b'0')) s in if leb b'0' c && leb c b'9' then rest else none

abbrev positive : Option ℕ → NumError ⊎ ℤ
positive none = inl invalid_syntax
positive (some n) = if ltb n 9223372036854775808 then inr (pos n) else inl out_of_range

-- -n, from n.
abbrev minus : ℕ → ℤ
minus n = if n == 0 then pos 0 else negsuc (n - 1)

abbrev negative : Option ℕ → NumError ⊎ ℤ
negative none = inl invalid_syntax
negative (some n) = if leb n 9223372036854775808 then inr (minus n) else inl out_of_range

pub unsigned : Runes → Option ℕ
unfolding digits
unsigned s = if is_empty s then none else digits 0 s

-- `strconv.Atoi`, where an `int` has 64 bits.
pub atoi : Runes → NumError ⊎ ℤ
unfolding unsigned
atoi [] = inl invalid_syntax
atoi (c ∷ s) =
    if c == b'-'
    then negative (unsigned s)
    else if c == b'+'
    then positive (unsigned s)
    else positive (unsigned (c ∷ s))

-- The value, and the error if there is one.
int_or_default : ℤ → NumError ⊎ ℤ → ℤ × Option NumError
int_or_default default_value (inl e) = (default_value, some e)
int_or_default default_value (inr n) = (n, none)

abbrev pub runes_eq : Runes → Runes → Bool
runes_eq [] [] = true
runes_eq (c ∷ s) (d ∷ t) = c == d && runes_eq s t
runes_eq _ _ = false

abbrev one_of : Runes → List Runes → Bool
one_of s [] = false
one_of s (t ∷ ts) = runes_eq s t || one_of s ts

-- 1, t, T, true, TRUE and True
abbrev pub true_texts : List Runes
true_texts =
    (b'1' ∷ [])
    ∷ (b't' ∷ [])
    ∷ (b'T' ∷ [])
    ∷ (b't' ∷ b'r' ∷ b'u' ∷ b'e' ∷ [])
    ∷ (b'T' ∷ b'R' ∷ b'U' ∷ b'E' ∷ [])
    ∷ (b'T' ∷ b'r' ∷ b'u' ∷ b'e' ∷ [])
    ∷ []

-- 0, f, F, false, FALSE and False
abbrev pub false_texts : List Runes
false_texts =
    (b'0' ∷ [])
    ∷ (b'f' ∷ [])
    ∷ (b'F' ∷ [])
    ∷ (b'f' ∷ b'a' ∷ b'l' ∷ b's' ∷ b'e' ∷ [])
    ∷ (b'F' ∷ b'A' ∷ b'L' ∷ b'S' ∷ b'E' ∷ [])
    ∷ (b'F' ∷ b'a' ∷ b'l' ∷ b's' ∷ b'e' ∷ [])
    ∷ []

-- `strconv.ParseBool`; `none` is an error.
parse_bool : Runes → Option Bool
parse_bool s =
    if one_of s true_texts then some true else if one_of s false_texts then some false else none

bool_or_default : Bool → Option Bool → Bool
bool_or_default default_value none = default_value
bool_or_default default_value (some b) = b

-- `getenv` is `os.Getenv`: the value, empty where there is none.
module _ (getenv : Runes → Runes) where
  pub get_env_as_int : Runes → ℤ → ℤ × Option NumError
  unfolding int_or_default
  get_env_as_int key default_value =
      if is_empty (getenv key)
      then (default_value, none)
      else int_or_default default_value (atoi (getenv key))

  pub get_env_as_bool : Runes → Bool → Bool
  unfolding parse_bool bool_or_default
  get_env_as_bool key default_value = bool_or_default default_value (parse_bool (getenv key))

  pub get_env_or_default : Runes → Runes → Runes
  get_env_or_default key default_value = if is_empty (getenv key) then default_value else getenv key
