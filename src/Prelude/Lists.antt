-- ===== src/Prelude/Lists.antt =====
-- Lists measured by native numbers, and predicates on lists by recursion. It models no code.
use Prim.Native.Nat.{ℕ, suc, ◌+◌, ◌≤◌}
use mathlib.Core.Bool.{Bool, true}
use mathlib.Core.List.{Permᴰ, append_assoc}
use lago_paiement_engine.Prelude.Tests.{if◌then◌else◌, Bool-cases}
use mathlib.Core.Path.{◌≡◌, refl, sym, ap, subst, ◌∙◌}
use mathlib.Core.Logic.{◌⊎◌, inl, inr}
use mathlib.Core.List.{List, [], ◌∷◌, ◌++◌}
use native.Mathlib.Omega.{arith}

module _ {ℓ} {A : Type ℓ} where
  abbrev pub length : List A → ℕ
  length [] = 0
  length (x ∷ xs) = suc (length xs)

  pub length-append : (xs ys : List A) → length (xs ++ ys) ≡ length xs + length ys
  length-append [] ys = omega arith
  length-append (x ∷ xs) ys = omega (arith, length-append xs ys)

  -- Every element satisfies `P`.
  abbrev pub All : (A → Type 0) → List A → Type 0
  All P [] = Unit
  All P (x ∷ xs) = P x × All P xs

  -- Some element satisfies `P`.
  abbrev pub Some : (A → Type 0) → List A → Type 0
  Some P [] = ⊥
  Some P (x ∷ xs) = P x ⊎ Some P xs

  pub All-append : (P : A → Type 0) (xs ys : List A) → All P xs → All P ys → All P (xs ++ ys)
  All-append P [] ys hx hy = hy
  All-append P (x ∷ xs) ys hx hy = (hx.0, All-append P xs ys hx.1 hy)

  pub All-map : {P Q : A → Type 0} (xs : List A) → ((x : A) → P x → Q x) → All P xs → All Q xs
  All-map [] f h = tt
  All-map (x ∷ xs) f h = (f x h.0, All-map xs f h.1)

  pub Some-map : {P Q : A → Type 0} (xs : List A) → ((x : A) → P x → Q x) → Some P xs → Some Q xs
  Some-map [] f h = h
  Some-map (x ∷ xs) f (inl h) = inl (f x h)
  Some-map (x ∷ xs) f (inr h) = inr (Some-map xs f h)

  -- Facts about all elements, at one that satisfies another.
  pub All-Some :
      {P Q : A → Type 0} {C : Type 0} (xs : List A)
      → ((x : A) → P x → Q x → C)
      → All P xs
      → Some Q xs
      → C
  All-Some [] f h s = absurd s
  All-Some (x ∷ xs) f h (inl s) = f x h.0 s
  All-Some (x ∷ xs) f h (inr s) = All-Some xs f h.1 s

  pub Some-elim : {Q : A → Type 0} {C : Type 0} (xs : List A) → ((x : A) → Q x → C) → Some Q xs → C
  Some-elim [] f s = absurd s
  Some-elim (x ∷ xs) f (inl s) = f x s
  Some-elim (x ∷ xs) f (inr s) = Some-elim xs f s

  pub All-zip :
      {P Q R : A → Type 0} (xs : List A)
      → ((x : A) → P x → Q x → R x)
      → All P xs
      → All Q xs
      → All R xs
  All-zip [] f h k = tt
  All-zip (x ∷ xs) f h k = (f x h.0 k.0, All-zip xs f h.1 k.1)

  pub All-of : {P : A → Type 0} (xs : List A) → ((x : A) → P x) → All P xs
  All-of [] f = tt
  All-of (x ∷ xs) f = (f x, All-of xs f)

-- `filter` by a Boolean test.
abbrev pub keep {ℓ} : {A : Type ℓ} → (A → Bool) → List A → List A
keep test [] = []
keep test (x ∷ xs) = let rest = keep test xs in if test x then x ∷ rest else rest

-- The elements of `xs` in another order.
abbrev pub Shuffle {ℓ} : {A : Type ℓ} → List A → List A → Type ℓ
Shuffle xs ys = Permᴰ xs ys

module _ {ℓ} {A : Type ℓ} where
  pub Some-Shuffle : (P : A → Type 0) {xs ys : List A} → Shuffle xs ys → Some P xs → Some P ys
  Some-Shuffle P Permᴰ.nil s = s
  Some-Shuffle P (Permᴰ.cons e p) (inl s) = inl (rw e at s)
  Some-Shuffle P (Permᴰ.cons e p) (inr s) = inr (Some-Shuffle P p s)
  Some-Shuffle P (Permᴰ.swap e f) (inl s) = inr (inl (rw e at s))
  Some-Shuffle P (Permᴰ.swap e f) (inr (inl s)) = inl (rw f at s)
  Some-Shuffle P (Permᴰ.swap e f) (inr (inr s)) = inr (inr s)
  Some-Shuffle P (Permᴰ.trans p q) s = Some-Shuffle P q (Some-Shuffle P p s)

  pub All-Shuffle : (P : A → Type 0) {xs ys : List A} → Shuffle xs ys → All P xs → All P ys
  All-Shuffle P Permᴰ.nil h = h
  All-Shuffle P (Permᴰ.cons e p) h = (subst P e h.0, All-Shuffle P p h.1)
  All-Shuffle P (Permᴰ.swap e f) h = (subst P f h.1.0, (subst P e h.0, h.1.1))
  All-Shuffle P (Permᴰ.trans p q) h = All-Shuffle P q (All-Shuffle P p h)

  pub Shuffle-refl : (xs : List A) → Shuffle xs xs
  Shuffle-refl [] = Permᴰ.nil
  Shuffle-refl (x ∷ xs) = Permᴰ.cons refl (Shuffle-refl xs)

  pub Shuffle-symm : {xs ys : List A} → Shuffle xs ys → Shuffle ys xs
  Shuffle-symm Permᴰ.nil = Permᴰ.nil
  Shuffle-symm (Permᴰ.cons e p) = Permᴰ.cons (sym e) (Shuffle-symm p)
  Shuffle-symm (Permᴰ.swap e f) = Permᴰ.swap (sym f) (sym e)
  Shuffle-symm (Permᴰ.trans p q) = Permᴰ.trans (Shuffle-symm q) (Shuffle-symm p)

  pub length-Shuffle : {xs ys : List A} → Shuffle xs ys → length xs ≡ length ys
  length-Shuffle Permᴰ.nil = refl
  length-Shuffle (Permᴰ.cons e p) = omega (arith, length-Shuffle p)
  length-Shuffle (Permᴰ.swap e f) = refl
  length-Shuffle (Permᴰ.trans p q) = length-Shuffle p ∙ length-Shuffle q

  pub length-keep : (test : A → Bool) (xs : List A) → length (keep test xs) ≤ length xs
  length-keep test [] = omega arith
  length-keep test (x ∷ xs) = ground (arith, length-keep test xs)

  -- A test that drops nothing holds of every element.
  pub All-length-keep :
      (test : A → Bool) (xs : List A)
      → length (keep test xs) ≡ length xs
      → All (λ x. test x ≡ true) xs
  All-length-keep test [] h = tt
  All-length-keep test (x ∷ xs) h = elim (Bool-cases (test x)) [
    | inl yes' ↦ (yes', All-length-keep test xs (ground arith))
    | inr no' ↦ absurd (ground (arith, length-keep test xs))
  ]

  pub All-keep : (P : A → Type 0) (test : A → Bool) (xs : List A) → All P xs → All P (keep test xs)
  All-keep P test [] h = tt
  All-keep P test (x ∷ xs) h = elim (Bool-cases (test x)) [
    | inl kept ↦ rw kept (h.0, All-keep P test xs h.1)
    | inr dropped ↦ rw dropped (All-keep P test xs h.1)
  ]

  pub keep-All : (test : A → Bool) (xs : List A) → All (λ x. test x ≡ true) xs → keep test xs ≡ xs
  keep-All test [] h = refl
  keep-All test (x ∷ xs) h = rw (h.0, keep-All test xs h.1)

module _ {A : Type 0} where
  -- A fact about all elements, at one of them.
  pub All_at : (P : A → Type 0) {r : A} (xs : List A) → All P xs → Some (λ x. x ≡ r) xs → P r
  All_at P [] h s = absurd s
  All_at P (x ∷ xs) h (inl e) = subst P e h.0
  All_at P (x ∷ xs) h (inr s) = All_at P xs h.1 s

  pub All-self : (xs : List A) → All (λ x. Some (λ y. y ≡ x) xs) xs
  All-self [] = tt
  All-self (x ∷ xs) = (inl refl, All-map xs (λ y (h : Some (λ z. z ≡ y) xs). inr h) (All-self xs))

  pub All_middle : (P : A → Type 0) (xs ys : List A) {x : A} → All P (xs ++ x ∷ ys) → P x
  All_middle P [] ys h = h.0
  All_middle P (x ∷ xs) ys h = All_middle P xs ys h.1

module _ {A : Type 0} (P : A → Type 0) where
  pub All-append_left : (xs ys : List A) → All P (xs ++ ys) → All P xs
  All-append_left [] ys h = tt
  All-append_left (x ∷ xs) ys h = (h.0, All-append_left xs ys h.1)

  pub All-append_right : (xs ys : List A) → All P (xs ++ ys) → All P ys
  All-append_right [] ys h = h
  All-append_right (x ∷ xs) ys h = All-append_right xs ys h.1

  pub Some-append : (xs ys : List A) → Some P (xs ++ ys) → Some P xs ⊎ Some P ys
  Some-append [] ys h = inr h
  Some-append (x ∷ xs) ys (inl h) = inl (inl h)
  Some-append (x ∷ xs) ys (inr h) = elim (Some-append xs ys h) [
    | inl s ↦ inl (inr s)
    | inr s ↦ inr s
  ]

  pub Some-append_left : (xs ys : List A) → Some P xs → Some P (xs ++ ys)
  Some-append_left [] ys h = absurd h
  Some-append_left (x ∷ xs) ys (inl h) = inl h
  Some-append_left (x ∷ xs) ys (inr h) = inr (Some-append_left xs ys h)

  pub Some-append_right : (xs ys : List A) → Some P ys → Some P (xs ++ ys)
  Some-append_right [] ys h = h
  Some-append_right (x ∷ xs) ys h = inr (Some-append_right xs ys h)

module _ {A B : Type 0} (f : A → List B) where
  -- What `f` reads off each element, in order.
  abbrev pub collect : List A → List B
  collect [] = []
  collect (x ∷ xs) = f x ++ collect xs

  pub collect-append : (xs ys : List A) → collect (xs ++ ys) ≡ collect xs ++ collect ys
  collect-append [] ys = refl
  collect-append (x ∷ xs) ys =
      ap (◌++◌ (f x)) (collect-append xs ys) ∙ sym (append_assoc (f x) (collect xs) (collect ys))
