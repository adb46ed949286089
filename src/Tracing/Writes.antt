-- ===== src/Tracing/Writes.antt =====
-- The last write to a key, and maps as lists of entries. It models no code.
use lago_paiement_engine.Prelude.{
  ◌≡◌, refl, ap, sym, ◌∙◌, inl, inr, Bool, true, false, Option, none, some, List, [], ◌∷◌, ◌++◌,
  map, String, str_eq, eq_iff, if◌then◌else◌, Bool-cases, Option-cases, Some, Shuffle, Some-Shuffle,
  Shuffle-symm,
}

abbrev pub or_else : {V : Type 0} → Option V → Option V → Option V
or_else (some v) o = some v
or_else none o = o

abbrev pub option_map : {V U : Type 0} → (V → U) → Option V → Option U
option_map f none = none
option_map f (some v) = some (f v)

module _ {V : Type 0} where
  -- What the last of the writes to a key wrote.
  abbrev pub last : String → List (String × V) → Option V
  last k [] = none
  last k ((j, v) ∷ m) = or_else (last k m) (if str_eq j k then some v else none)

  abbrev pub lookup : String → List (String × V) → Option V
  lookup k [] = none
  lookup k ((j, v) ∷ m) = if str_eq j k then some v else lookup k m

  -- No key stands twice.
  abbrev pub IsMap : List (String × V) → Type 0
  IsMap [] = Unit
  IsMap ((k, v) ∷ m) = (lookup k m ≡ none) × IsMap m

  or_else_assoc : (a b c : Option V) → or_else (or_else a b) c ≡ or_else a (or_else b c)
  or_else_assoc none b c = refl
  or_else_assoc (some v) b c = refl

  or_else-none : (a : Option V) → or_else a none ≡ a
  or_else-none none = refl
  or_else-none (some v) = refl

  pub last-append :
      (k : String) (xs ys : List (String × V)) → last k (xs ++ ys) ≡ or_else (last k ys) (last k xs)
  last-append k [] ys = sym (or_else-none (last k ys))
  last-append k ((j, v) ∷ xs) ys =
      ap (λ o. or_else o (if str_eq j k then some v else none)) (last-append k xs ys)
      ∙ or_else_assoc (last k ys) (last k xs) (if str_eq j k then some v else none)

  abbrev Has : String → V → List (String × V) → Type 0
  Has k v = Some (λ e. e ≡ (k, v))

  some_inj : {u v : V} → some u ≡ some v → u ≡ v
  some_inj e = cc

  none-some : {v : V} → none ≡ some v → ⊥
  none-some e = cc

  same_key : (j k : String) (u v : V) → ◌≡◌ {A = String × V} (j, u) (k, v) → str_eq j k ≡ true
  same_key j k u v e = (eq_iff j k).1 (ap (λ (x : String × V). x.0) e)

  or_else-some : (o : Option V) (v : V) → or_else o (some v) ≡ none → ⊥
  or_else-some none v h = none-some (sym h)
  or_else-some (some u) v h = none-some (sym h)

  last-Has : (k : String) (v : V) (m : List (String × V)) → last k m ≡ some v → Has k v m
  last-Has k v [] h = absurd (none-some h)
  last-Has k v ((j, u) ∷ m) h = elim (Option-cases (last k m)) [
    | inr (w, e) ↦ inr (last-Has k v m (e ∙ (rw e at h)))
    | inl e ↦ elim (Bool-cases (str_eq j k)) [
      | inl same ↦ inl (cc (some_inj (rw (e, same) at h), (eq_iff j k).0 same))
      | inr differ ↦ absurd (none-some (rw (e, differ) at h))
    ]
  ]

  -- A key without a write does not stand in the list.
  last-none : (k : String) (v : V) (m : List (String × V)) → last k m ≡ none → Has k v m → ⊥
  last-none k v [] h s = absurd s
  last-none k v ((j, u) ∷ m) h (inr s) = elim (Option-cases (last k m)) [
    | inl e ↦ last-none k v m e s
    | inr (w, e) ↦ none-some (sym (rw e at h))
  ]
  last-none k v ((j, u) ∷ m) h (inl e) = or_else-some (last k m) u (rw (same_key j k u v e) at h)

  lookup-Has : (k : String) (v : V) (m : List (String × V)) → lookup k m ≡ some v → Has k v m
  lookup-Has k v [] h = absurd (none-some h)
  lookup-Has k v ((j, u) ∷ m) h = elim (Bool-cases (str_eq j k)) [
    | inl same ↦ inl (cc (some_inj (rw same at h), (eq_iff j k).0 same))
    | inr differ ↦ inr (lookup-Has k v m (rw differ at h))
  ]

  lookup-none : (k : String) (v : V) (m : List (String × V)) → lookup k m ≡ none → Has k v m → ⊥
  lookup-none k v [] h s = absurd s
  lookup-none k v ((j, u) ∷ m) h (inl e) = none-some (sym (rw (same_key j k u v e) at h))
  lookup-none k v ((j, u) ∷ m) h (inr s) = elim (Bool-cases (str_eq j k)) [
    | inl same ↦ none-some (sym (rw same at h))
    | inr differ ↦ lookup-none k v m (rw differ at h) s
  ]

  -- In a map each key has one value.
  Has-lookup :
      (k : String) (v : V) (m : List (String × V)) → IsMap m → Has k v m → lookup k m ≡ some v
  Has-lookup k v [] map' s = absurd s
  Has-lookup k v ((j, u) ∷ m) map' (inl e) =
      rw (same_key j k u v e) (ap (λ (x : String × V). some x.1) e)
  Has-lookup k v ((j, u) ∷ m) map' (inr s) = elim (Bool-cases (str_eq j k)) [
    | inr differ ↦ rw differ (Has-lookup k v m map'.1 s)
    | inl same ↦ absurd (
        none-some
          (sym map'.0 ∙ ap (λ i. lookup i m) ((eq_iff j k).0 same) ∙ Has-lookup k v m map'.1 s))
  ]

  -- The last write of the entries of a map, in any order, is what the map has.
  pub last-Shuffle :
      (k : String) (m order : List (String × V))
      → IsMap m
      → Shuffle order m
      → last k order ≡ lookup k m
  last-Shuffle k m order map' shuffle = elim (Option-cases (last k order)) [
    | inr (v, e) ↦
        e
        ∙ sym
            (Has-lookup k v m map' (Some-Shuffle (λ e. e ≡ (k, v)) shuffle (last-Has k v order e)))
    | inl e ↦ elim (Option-cases (lookup k m)) [
      | inl f ↦ e ∙ sym f
      | inr (v, f) ↦ absurd (
          last-none k v order e
            (Some-Shuffle (λ e. e ≡ (k, v)) (Shuffle-symm shuffle) (lookup-Has k v m f)))
    ]
  ]

pub last-map :
    {V U : Type 0} (f : V → U) (k : String) (m : List (String × V))
    → last k (map (λ (e : String × V). (e.0, f e.1)) m) ≡ option_map f (last k m)
last-map f k [] = refl
last-map f k ((j, v) ∷ m) =
    ap (λ o. or_else o (if str_eq j k then some (f v) else none)) (last-map f k m)
    ∙ pushed (str_eq j k) (last k m)
  where
    pushed :
        (b : Bool) (o : Option _)
        → or_else (option_map f o) (if b then some (f v) else none)
          ≡ option_map f (or_else o (if b then some v else none))
    pushed b (some u) = refl
    pushed true none = refl
    pushed false none = refl
