-- ===== src/Prelude/Text.antt =====
-- Text as the program builds it: concatenation, `strings.Join`, and decimal numbers as bytes.
use Prim.Native.Nat.{ℕ}
use Prim.Native.Char.{code}
use Prim.Native.String
use Prim.Native.String.{String}
use mathlib.Core.Bool.{Bool}
use mathlib.Core.List.{List, [], ◌∷◌}
use text.Mathlib.Text.{◌==◌}

abbrev pub Bytes : Type 0
Bytes = List ℕ

-- `==` on strings.
abbrev pub str_eq : String → String → Bool
str_eq a b = a == b

-- `fmt.Sprintf` of a format that only joins texts.
abbrev pub concat : List String → String
concat [] = ""
concat (s ∷ []) = s
concat (s ∷ t ∷ ss) = String.◌++◌ s (concat (t ∷ ss))

-- `strings.Join`.
abbrev pub join : String → List String → String
join sep [] = ""
join sep (s ∷ []) = s
join sep (s ∷ t ∷ ss) = String.◌++◌ s (String.◌++◌ sep (join sep (t ∷ ss)))

-- The code points of a text.
abbrev pub codes : String → List ℕ
codes String.[] = []
codes (String.◌∷◌ c s) = code c ∷ codes s
