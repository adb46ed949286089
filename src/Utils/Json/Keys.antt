-- ===== src/Utils/Json/Keys.antt =====
-- The order of the keys of a JSON object.
use Prim.Native.Char.{Char, code}
use text.Mathlib.TextEquality.{codes_equal}
use lago_paiement_engine.Prelude.{
  subst, ◌≡◌, refl, ap₂, true, false, List, [], ◌∷◌, String, Bytes, codes, str_eq, eq_iff, arith,
  All, All-map, Bool-cases, inl, inr,
}
use lago_paiement_engine.Utils.Json.{codes_lt, key_lt, put_absent}

codes_lt_irrefl : (xs : Bytes) → codes_lt xs xs ≡ false
codes_lt_irrefl [] = refl
codes_lt_irrefl (x ∷ xs) = ground (arith, codes_lt_irrefl xs)

codes_lt_trans :
    (xs ys zs : Bytes) → codes_lt xs ys ≡ true → codes_lt ys zs ≡ true → codes_lt xs zs ≡ true
codes_lt_trans [] [] zs h k = cc
codes_lt_trans [] (y ∷ ys) [] h k = cc
codes_lt_trans [] (y ∷ ys) (z ∷ zs) h k = refl
codes_lt_trans (x ∷ xs) [] zs h k = cc
codes_lt_trans (x ∷ xs) (y ∷ ys) [] h k = cc
codes_lt_trans (x ∷ xs) (y ∷ ys) (z ∷ zs) h k = ground (arith, codes_lt_trans xs ys zs)

codes_lt_total : (xs ys : Bytes) → codes_lt xs ys ≡ false → codes_lt ys xs ≡ false → xs ≡ ys
codes_lt_total [] [] h k = refl
codes_lt_total [] (y ∷ ys) h k = cc
codes_lt_total (x ∷ xs) [] h k = cc
codes_lt_total (x ∷ xs) (y ∷ ys) h k = ground (arith, codes_lt_total xs ys)

code-injective : (c d : Char) → code c ≡ code d → c ≡ d
code-injective c d e = codes_equal c d (ground (arith, e))

codes-injective : (s t : String) → codes s ≡ codes t → s ≡ t
codes-injective String.[] String.[] e = refl
codes-injective String.[] (String.◌∷◌ d t) e = cc
codes-injective (String.◌∷◌ c s) String.[] e = cc
codes-injective (String.◌∷◌ c s) (String.◌∷◌ d t) e =
    ap₂ String.◌∷◌ (code-injective c d (cc e)) (codes-injective s t (cc e))

key_lt_total : (k j : String) → str_eq j k ≡ false → key_lt k j ≡ false → key_lt j k ≡ true
key_lt_total k j differ not_lt = elim (Bool-cases (key_lt j k)) [
  | inl lt ↦ lt
  | inr not_gt ↦ cc (
    differ,
    (eq_iff j k).1 (codes-injective j k (codes_lt_total (codes j) (codes k) not_gt not_lt)),
  )
]

key_lt-ne : (k j : String) → key_lt k j ≡ true → str_eq j k ≡ false
key_lt-ne k j lt = elim (Bool-cases (str_eq j k)) [
  | inr differ ↦ differ
  | inl same ↦
      cc (subst (λ i. key_lt k i ≡ true) ((eq_iff j k).0 same) lt, codes_lt_irrefl (codes k))
]

module _ {V : Type 0} where
  -- All keys come after `k`.
  abbrev pub IsAbove : String → List (String × V) → Type 0
  IsAbove k = All (λ e. key_lt k e.0 ≡ true)

  abbrev pub IsSorted : List (String × V) → Type 0
  IsSorted [] = Unit
  IsSorted ((k, v) ∷ m) = IsAbove k m × IsSorted m

  IsAbove-trans :
      (k j : String) (m : List (String × V)) → key_lt k j ≡ true → IsAbove j m → IsAbove k m
  IsAbove-trans k j m lt h =
      All-map m
        (λ e (above : key_lt j e.0 ≡ true). codes_lt_trans (codes k) (codes j) (codes e.0) lt above)
        h

  IsAbove-put_absent :
      (b k : String) (v : V) (m : List (String × V))
      → key_lt b k ≡ true
      → IsAbove b m
      → IsAbove b (put_absent k v m)
  unfolding put_absent
  IsAbove-put_absent b k v [] lt h = (lt, tt)
  IsAbove-put_absent b k v ((j, w) ∷ m) lt h = elim (Bool-cases (str_eq j k)) [
    | inl same ↦ rw same h
    | inr differ ↦ elim (Bool-cases (key_lt k j)) [
      | inl before ↦ rw (differ, before) (lt, h)
      | inr after ↦ rw (differ, after) (h.0, IsAbove-put_absent b k v m lt h.1)
    ]
  ]

  pub IsSorted-put_absent :
      (k : String) (v : V) (m : List (String × V)) → IsSorted m → IsSorted (put_absent k v m)
  unfolding put_absent
  IsSorted-put_absent k v [] h = (tt, tt)
  IsSorted-put_absent k v ((j, w) ∷ m) h = elim (Bool-cases (str_eq j k)) [
    | inl same ↦ rw same h
    | inr differ ↦ elim (Bool-cases (key_lt k j)) [
      | inl before ↦ rw (differ, before) ((before, IsAbove-trans k j m before h.0), h)
      | inr after ↦
          rw (differ, after)
            (
              IsAbove-put_absent j k v m (key_lt_total k j differ after) h.0,
              IsSorted-put_absent k v m h.1,
            )
    ]
  ]

  -- Before all other keys.
  pub put_absent-IsAbove :
      (k : String) (v : V) (m : List (String × V)) → IsAbove k m → put_absent k v m ≡ (k, v) ∷ m
  unfolding put_absent
  put_absent-IsAbove k v [] h = refl
  put_absent-IsAbove k v ((j, w) ∷ m) h = rw (key_lt-ne k j h.0, h.0)

module _ {V : Type 0} (P : String × V → Type 0) where
  pub All-put_absent :
      (k : String) (v : V) (m : List (String × V)) → P (k, v) → All P m → All P (put_absent k v m)
  unfolding put_absent
  All-put_absent k v [] p h = (p, tt)
  All-put_absent k v ((j, w) ∷ m) p h = elim (Bool-cases (str_eq j k)) [
    | inl same ↦ rw same h
    | inr differ ↦ elim (Bool-cases (key_lt k j)) [
      | inl before ↦ rw (differ, before) (p, h)
      | inr after ↦ rw (differ, after) (h.0, All-put_absent k v m p h.1)
    ]
  ]
