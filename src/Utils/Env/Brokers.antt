-- ===== src/Utils/Env/Brokers.antt =====
-- The list of brokers that is read from the environment.
use lago_paiement_engine.Prelude.{
  ℕ, ◌≡◌, refl, ap, ◌∙◌, false, ◌&&◌, List, [], ◌∷◌, ◌++◌, map, inl, inr, arith, All, All-map,
  Bool-cases, ◌==◌,
}
use lago_paiement_engine.Utils.Env.{
  Runes, is_empty, is_space, cons_first, split, trim_left, trim_right, trim_space,
  parse_brokers_env,
}

-- No comma stands in the text.
abbrev pub NoComma : Runes → Type 0
NoComma = All (λ c. (c == b',') ≡ false)

-- No space stands at its start, or at its end.
abbrev pub IsTrimmedLeft : Runes → Type 0
IsTrimmedLeft [] = Unit
IsTrimmedLeft (c ∷ s) = is_space c ≡ false

abbrev pub IsTrimmedRight : Runes → Type 0
IsTrimmedRight [] = Unit
IsTrimmedRight (c ∷ []) = is_space c ≡ false
IsTrimmedRight (c ∷ d ∷ s) = IsTrimmedRight (d ∷ s)

abbrev pub IsBroker : Runes → Type 0
IsBroker s = NoComma s × IsTrimmedLeft s × IsTrimmedRight s

-- `strings.Join(ss, ",")`
abbrev pub join_commas : List Runes → Runes
join_commas [] = []
join_commas (s ∷ []) = s
join_commas (s ∷ t ∷ ss) = s ++ (b',' ∷ join_commas (t ∷ ss))

split-NoComma : (s : Runes) → All NoComma (split s)
unfolding split
split-NoComma [] = (tt, tt)
split-NoComma (c ∷ s) = elim (Bool-cases (c == b',')) [
  | inl comma ↦ rw comma (tt, split-NoComma s)
  | inr other ↦ rw other (first (split s) other (split-NoComma s))
]
  where
    first : (ss : List Runes) → (c == b',') ≡ false → All NoComma ss → All NoComma (cons_first c ss)
    first [] other h = ((other, tt), tt)
    first (t ∷ ss) other h = ((other, h.0), h.1)

trim_left-NoComma : (s : Runes) → NoComma s → NoComma (trim_left s)
unfolding trim_left
trim_left-NoComma [] h = tt
trim_left-NoComma (c ∷ s) h = elim (Bool-cases (is_space c)) [
  | inl space ↦ rw space (trim_left-NoComma s h.1)
  | inr other ↦ rw other h
]

trim_right-NoComma : (s : Runes) → NoComma s → NoComma (trim_right s)
unfolding trim_right
trim_right-NoComma [] h = tt
trim_right-NoComma (c ∷ s) h = elim (Bool-cases (is_space c && is_empty (trim_right s))) [
  | inl dropped ↦ rw dropped tt
  | inr kept ↦ rw kept (h.0, trim_right-NoComma s h.1)
]

trim_left-IsTrimmedLeft : (s : Runes) → IsTrimmedLeft (trim_left s)
unfolding trim_left
trim_left-IsTrimmedLeft [] = tt
trim_left-IsTrimmedLeft (c ∷ s) = elim (Bool-cases (is_space c)) [
  | inl space ↦ rw space (trim_left-IsTrimmedLeft s)
  | inr other ↦ rw other other
]

-- Trimming on the right keeps the first character that is no space.
trim_right-IsTrimmedLeft : (s : Runes) → IsTrimmedLeft s → IsTrimmedLeft (trim_right s)
unfolding trim_right
trim_right-IsTrimmedLeft [] h = tt
trim_right-IsTrimmedLeft (c ∷ s) h = rw h h

IsTrimmedRight-cons :
    (c : ℕ) (s : Runes)
    → (is_space c && is_empty s) ≡ false
    → IsTrimmedRight s
    → IsTrimmedRight (c ∷ s)
IsTrimmedRight-cons c [] e h = ground arith
IsTrimmedRight-cons c (d ∷ s) e h = h

trim_right-IsTrimmedRight : (s : Runes) → IsTrimmedRight (trim_right s)
unfolding trim_right
trim_right-IsTrimmedRight [] = tt
trim_right-IsTrimmedRight (c ∷ s) = elim (Bool-cases (is_space c && is_empty (trim_right s))) [
  | inl dropped ↦ rw dropped tt
  | inr kept ↦ rw kept (IsTrimmedRight-cons c (trim_right s) kept (trim_right-IsTrimmedRight s))
]

trim_space-IsBroker : (s : Runes) → NoComma s → IsBroker (trim_space s)
trim_space-IsBroker s h = (
  trim_right-NoComma (trim_left s) (trim_left-NoComma s h),
  trim_right-IsTrimmedLeft (trim_left s) (trim_left-IsTrimmedLeft s),
  trim_right-IsTrimmedRight (trim_left s),
)

All-trim_space : (ss : List Runes) → All NoComma ss → All IsBroker (map trim_space ss)
All-trim_space [] h = tt
All-trim_space (s ∷ ss) h = (trim_space-IsBroker s h.0, All-trim_space ss h.1)

-- No broker that `ParseBrokersEnv` returns has a comma, or a space at its start or end.
pub parse_brokers_env-IsBroker : (s : Runes) → All IsBroker (parse_brokers_env s)
unfolding parse_brokers_env
parse_brokers_env-IsBroker [] = tt
parse_brokers_env-IsBroker (c ∷ s) = All-trim_space (split (c ∷ s)) (split-NoComma (c ∷ s))

trim_left-trimmed : (s : Runes) → IsTrimmedLeft s → trim_left s ≡ s
unfolding trim_left
trim_left-trimmed [] h = refl
trim_left-trimmed (c ∷ s) h = rw h refl

-- A character before a text that does not vanish stays.
trim_right-cons : (c d : ℕ) (s t : Runes) → trim_right s ≡ d ∷ t → trim_right (c ∷ s) ≡ c ∷ d ∷ t
unfolding trim_right
trim_right-cons c d s t e = ground arith

trim_right-trimmed : (s : Runes) → IsTrimmedRight s → trim_right s ≡ s
unfolding trim_right
trim_right-trimmed [] h = refl
trim_right-trimmed (c ∷ []) h = rw h refl
trim_right-trimmed (c ∷ d ∷ s) h = trim_right-cons c d (d ∷ s) s (trim_right-trimmed (d ∷ s) h)

split-last : (s : Runes) → NoComma s → split s ≡ s ∷ []
unfolding split
split-last [] h = refl
split-last (c ∷ s) h = rw (h.0, split-last s h.1) refl

split-first : (s rest : Runes) → NoComma s → split (s ++ (b',' ∷ rest)) ≡ s ∷ split rest
unfolding split
split-first [] rest h = refl
split-first (c ∷ s) rest h = rw (h.0, split-first s rest h.1) refl

split-join :
    (s : Runes) (ss : List Runes) → All NoComma (s ∷ ss) → split (join_commas (s ∷ ss)) ≡ s ∷ ss
split-join s [] h = split-last s h.0
split-join s (t ∷ ss) h =
    split-first s (join_commas (t ∷ ss)) h.0 ∙ ap (◌∷◌ s) (split-join t ss h.1)

trim_space-broker : (s : Runes) → IsBroker s → trim_space s ≡ s
trim_space-broker s h = ap trim_right (trim_left-trimmed s h.1) ∙ trim_right-trimmed s h.2

map-trim_space : (ss : List Runes) → All IsBroker ss → map trim_space ss ≡ ss
map-trim_space [] h = refl
map-trim_space (s ∷ ss) h = rw (trim_space-broker s h.0, map-trim_space ss h.1) refl

nonempty-join :
    (c : ℕ) (s : Runes) (ss : List Runes) → is_empty (join_commas ((c ∷ s) ∷ ss)) ≡ false
nonempty-join c s [] = refl
nonempty-join c s (t ∷ ss) = refl

-- `ParseBrokersEnv` reads back a list of brokers that is joined by commas, where no broker has a
-- comma, or a space at its start or end, and the first is not empty.
pub parse_brokers_env-join :
    (c : ℕ) (s : Runes) (ss : List Runes)
    → All IsBroker ((c ∷ s) ∷ ss)
    → parse_brokers_env (join_commas ((c ∷ s) ∷ ss)) ≡ (c ∷ s) ∷ ss
unfolding parse_brokers_env
parse_brokers_env-join c s ss h =
    rw (parse_brokers_env, nonempty-join c s ss)
      (ap (map trim_space)
          (split-join (c ∷ s) ss (All-map ((c ∷ s) ∷ ss) (λ t (b : IsBroker t). b.0) h))
        ∙ map-trim_space ((c ∷ s) ∷ ss) h)
