-- ===== src/Processors/Interleaving.antt =====
-- The goroutines of an `errgroup` (events-processor/processors/events_processor/processor.go): what
-- they do together, in any order that keeps the order of each.
use lago_paiement_engine.Prelude.{
  ◌≡◌, refl, ap, ◌∙◌, sym, subst, List, [], ◌∷◌, ◌++◌, All, Shuffle, Shuffle-refl, Shuffle-symm,
}
use mathlib.Core.List.{Permᴰ, append_assoc}

abbrev pub flatten {ℓ} : {A : Type ℓ} → List (List A) → List A
flatten [] = []
flatten (g ∷ gs) = g ++ flatten gs

-- A run of the goroutines to their ends: each step is the next one of some goroutine.
pub data Interleaves {A : Type 0} : List (List A) → List A → Type 0 where
  ended : (gs : List (List A)) → All (λ g. g ≡ []) gs → Interleaves gs []
  runs :
      (before : List (List A)) (e : A) (g : List A) (after : List (List A)) (es : List A)
      → Interleaves (before ++ g ∷ after) es
      → Interleaves (before ++ (e ∷ g) ∷ after) (e ∷ es)

module _ {A : Type 0} where
  idle : {gs : List (List A)} {es : List A} → Interleaves gs es → Interleaves ([] ∷ gs) es
  idle (ended gs h) = ended ([] ∷ gs) (refl, h)
  idle (runs before e g after es run) = runs ([] ∷ before) e g after es (idle run)

  cons_run :
      (g : List A) {gs : List (List A)} {es : List A}
      → Interleaves gs es
      → Interleaves (g ∷ gs) (g ++ es)
  cons_run [] run = idle run
  cons_run (e ∷ g) {gs} {es} run = runs [] e g gs (g ++ es) (cons_run g run)

  -- One goroutine after the other.
  pub in_turn : (gs : List (List A)) → Interleaves gs (flatten gs)
  in_turn [] = ended [] tt
  in_turn (g ∷ gs) = cons_run g (in_turn gs)

  Shuffle-middle : (xs : List A) (y : A) (ys : List A) → Shuffle (xs ++ y ∷ ys) (y ∷ (xs ++ ys))
  Shuffle-middle [] y ys = Shuffle-refl (y ∷ ys)
  Shuffle-middle (x ∷ xs) y ys =
      Permᴰ.trans (Permᴰ.cons refl (Shuffle-middle xs y ys)) (Permᴰ.swap refl refl)

  pub Shuffle-append :
      (zs : List A) {xs ys : List A} → Shuffle xs ys → Shuffle (zs ++ xs) (zs ++ ys)
  Shuffle-append [] p = p
  Shuffle-append (z ∷ zs) p = Permᴰ.cons refl (Shuffle-append zs p)

  pub Shuffle-exchange : (xs ys zs : List A) → Shuffle (xs ++ (ys ++ zs)) (ys ++ (xs ++ zs))
  Shuffle-exchange [] ys zs = Shuffle-refl (ys ++ zs)
  Shuffle-exchange (x ∷ xs) ys zs =
      Permᴰ.trans (Permᴰ.cons refl (Shuffle-exchange xs ys zs))
        (Shuffle-symm (Shuffle-middle ys x (xs ++ zs)))

  flatten-append : (gs hs : List (List A)) → flatten (gs ++ hs) ≡ flatten gs ++ flatten hs
  flatten-append [] hs = refl
  flatten-append (g ∷ gs) hs =
      ap (λ l. g ++ l) (flatten-append gs hs) ∙ sym (append_assoc g (flatten gs) (flatten hs))

  flatten-ended : (gs : List (List A)) → All (λ g. g ≡ []) gs → flatten gs ≡ []
  flatten-ended [] h = refl
  flatten-ended (g ∷ gs) h = ap (λ l. l ++ flatten gs) h.0 ∙ flatten-ended gs h.1

  -- What the goroutines do is what each of them does, once.
  pub Interleaves-Shuffle :
      {gs : List (List A)} {es : List A} → Interleaves gs es → Shuffle es (flatten gs)
  Interleaves-Shuffle (ended gs h) = subst (λ l. Shuffle [] l) (sym (flatten-ended gs h)) Permᴰ.nil
  Interleaves-Shuffle (runs before e g after es run) =
      subst (λ l. Shuffle (e ∷ es) l) (sym (flatten-append before ((e ∷ g) ∷ after)))
        (Permᴰ.trans
          (Permᴰ.cons refl (
            subst (λ l. Shuffle es l) (flatten-append before (g ∷ after))
              (Interleaves-Shuffle run)))
          (Shuffle-symm (Shuffle-middle (flatten before) e (g ++ flatten after))))
