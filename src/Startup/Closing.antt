-- ===== src/Startup/Closing.antt =====
-- What the start of the processing opens and closes.
use mathlib.Core.List.{reverse, reverse-cons, append-nil}
use lago_paiement_engine.Prelude.{◌≡◌, refl, ap, List, [], ◌∷◌, ◌++◌, collect-append, String}
use lago_paiement_engine.Startup.{
  Resource, Call, close, Libraries, returned, failed, panicked, Ran, Action, pure, after_calls,
  and_then, log_and_panic_at, closing, ran, calls_of, close_after,
}
use lago_paiement_engine.Startup.Runs.{closed_by, connected_by, closed, connected}

module _ {H : Type 0} where
  -- Nothing is connected, and nothing is closed.
  abbrev pub IsQuiet : List (Call H) → Type 0
  IsQuiet calls = (closed calls ≡ []) × (connected calls ≡ [])

  -- What is connected is closed, in the opposite order, and nothing else is.
  abbrev pub IsBalanced : List (Call H) → Type 0
  IsBalanced calls = closed calls ≡ reverse (connected calls)

  append-IsQuiet : (xs ys : List (Call H)) → IsQuiet xs → IsQuiet ys → IsQuiet (xs ++ ys)
  append-IsQuiet xs ys hx hy = (
    rw (collect-append closed_by xs ys, hx.0, hy.0) refl,
    rw (collect-append connected_by xs ys, hx.1, hy.1) refl,
  )

  append-IsBalanced : (xs ys : List (Call H)) → IsQuiet xs → IsBalanced ys → IsBalanced (xs ++ ys)
  append-IsBalanced xs ys hx hy =
      rw (collect-append closed_by xs ys, collect-append connected_by xs ys, hx.0, hx.1) hy

  -- A connection, a balanced rest, and the close.
  close-IsBalanced :
      (resource : Resource H) (xs ys : List (Call H))
      → (closed xs ≡ []) × (connected xs ≡ resource ∷ [])
      → IsBalanced ys
      → IsBalanced (xs ++ (ys ++ close resource ∷ []))
  close-IsBalanced resource xs ys hx hy =
      rw
        (
          collect-append closed_by xs (ys ++ close resource ∷ []),
          collect-append connected_by xs (ys ++ close resource ∷ []),
          collect-append closed_by ys (close resource ∷ []),
          collect-append connected_by ys (close resource ∷ []),
          hx.0,
          hx.1,
          append-nil (connected ys),
          reverse-cons resource (connected ys),
        )
        (ap (λ rs. rs ++ (resource ∷ [])) hy)

  IsQuiet-IsBalanced : (calls : List (Call H)) → IsQuiet calls → IsBalanced calls
  IsQuiet-IsBalanced calls h = rw (h.0, h.1) refl

module _ {W H A : Type 0} where
  pub record Quiet (r : Ran W H A) : Type 0 where
    pub quiet : IsQuiet (calls_of r)

  pub record Balanced (r : Ran W H A) : Type 0 where
    pub balanced : IsBalanced (calls_of r)

  -- Where the run returns, it has connected one resource and closed none.
  abbrev pub ConnectsOne : (A → Resource H) → Ran W H A → Type 0
  ConnectsOne resource (ran (returned a) w calls) =
      (closed calls ≡ []) × (connected calls ≡ resource a ∷ [])
  ConnectsOne resource (ran (failed e) w calls) = IsQuiet calls
  ConnectsOne resource (ran (panicked s) w calls) = IsQuiet calls

  pub record Connects (resource : A → Resource H) (r : Ran W H A) : Type 0 where
    pub connects : ConnectsOne resource r

  after_calls-Quiet :
      (calls : List (Call H)) (r : Ran W H A)
      → IsQuiet calls
      → Quiet r
      → Quiet (after_calls calls r)
  after_calls-Quiet calls (ran o w made) h k = record {
    quiet = append-IsQuiet calls made h k.quiet;
  }

  after_calls-Balanced :
      (calls : List (Call H)) (r : Ran W H A)
      → IsQuiet calls
      → Balanced r
      → Balanced (after_calls calls r)
  after_calls-Balanced calls (ran o w made) h k = record {
    balanced = append-IsBalanced calls made h k.balanced;
  }

  after_calls-Connects :
      (resource : A → Resource H) (calls : List (Call H)) (r : Ran W H A)
      → IsQuiet calls
      → Connects resource r
      → Connects resource (after_calls calls r)
  after_calls-Connects resource calls (ran (returned b) w made) h k = record {
    connects = (
      rw (collect-append closed_by calls made, h.0, k.connects.0) refl,
      rw (collect-append connected_by calls made, h.1, k.connects.1) refl,
    );
  }
  after_calls-Connects resource calls (ran (failed e) w made) h k = record {
    connects = append-IsQuiet calls made h k.connects;
  }
  after_calls-Connects resource calls (ran (panicked s) w made) h k = record {
    connects = append-IsQuiet calls made h k.connects;
  }

  pub log_and_panic_at-Quiet :
      (message : String) (r : Ran W H A) → Quiet r → Quiet (log_and_panic_at message r)
  log_and_panic_at-Quiet message (ran (returned a) w calls) h = h
  log_and_panic_at-Quiet message (ran (failed e) w calls) h = record {
    quiet = append-IsQuiet calls _ h.quiet (refl, refl);
  }
  log_and_panic_at-Quiet message (ran (panicked s) w calls) h = h

  pub log_and_panic_at-Connects :
      (resource : A → Resource H) (message : String) (r : Ran W H A)
      → Connects resource r
      → Connects resource (log_and_panic_at message r)
  log_and_panic_at-Connects resource message (ran (returned a) w calls) h = h
  log_and_panic_at-Connects resource message (ran (failed e) w calls) h = record {
    connects = append-IsQuiet calls _ h.connects (refl, refl);
  }
  log_and_panic_at-Connects resource message (ran (panicked s) w calls) h = h

  after_close-Balanced :
      (lib : Libraries W H) (resource : Resource H) (calls : List (Call H)) (r : Ran W H A)
      → (closed calls ≡ []) × (connected calls ≡ resource ∷ [])
      → Balanced r
      → Balanced (after_calls calls (close_after lib resource r))
  after_close-Balanced lib resource calls (ran o w made) h k = record {
    balanced = close-IsBalanced resource calls made h k.balanced;
  }

module _ {W H A B : Type 0} where
  pub and_then-Quiet :
      (r : Ran W H A) (f : A → Action W H B)
      → Quiet r
      → ((a : A) (w : W) → Quiet (f a w))
      → Quiet (and_then r f)
  and_then-Quiet (ran (returned a) w calls) f h k = after_calls-Quiet calls (f a w) h.quiet (k a w)
  and_then-Quiet (ran (failed e) w calls) f h k = record { quiet = h.quiet }
  and_then-Quiet (ran (panicked s) w calls) f h k = record { quiet = h.quiet }

  pub and_then-Balanced :
      (r : Ran W H A) (f : A → Action W H B)
      → Quiet r
      → ((a : A) (w : W) → Balanced (f a w))
      → Balanced (and_then r f)
  and_then-Balanced (ran (returned a) w calls) f h k =
      after_calls-Balanced calls (f a w) h.quiet (k a w)
  and_then-Balanced (ran (failed e) w calls) f h k = record {
    balanced = IsQuiet-IsBalanced calls h.quiet;
  }
  and_then-Balanced (ran (panicked s) w calls) f h k = record {
    balanced = IsQuiet-IsBalanced calls h.quiet;
  }

  pub and_then-Connects :
      (resource : B → Resource H) (r : Ran W H A) (f : A → Action W H B)
      → Quiet r
      → ((a : A) (w : W) → Connects resource (f a w))
      → Connects resource (and_then r f)
  and_then-Connects resource (ran (returned a) w calls) f h k =
      after_calls-Connects resource calls (f a w) h.quiet (k a w)
  and_then-Connects resource (ran (failed e) w calls) f h k = record { connects = h.quiet }
  and_then-Connects resource (ran (panicked s) w calls) f h k = record { connects = h.quiet }

  -- The result of a connection, in another form.
  pub Connects-pure :
      (resource : B → Resource H) (g : A → B) (r : Ran W H A)
      → Connects (λ a. resource (g a)) r
      → Connects resource (and_then r (λ a. pure (g a)))
  Connects-pure resource g (ran (returned a) w calls) h =
      rw (append-nil calls) (record { connects = h.connects })
  Connects-pure resource g (ran (failed e) w calls) h = record { connects = h.connects }
  Connects-pure resource g (ran (panicked s) w calls) h = record { connects = h.connects }

  pub and_then-closing :
      (lib : Libraries W H) (resource : A → Resource H) (r : Ran W H A) (f : A → Action W H B)
      → Connects resource r
      → ((a : A) (w : W) → Balanced (f a w))
      → Balanced (and_then r (λ a. closing lib (resource a) (f a)))
  and_then-closing lib resource (ran (returned a) w calls) f h k =
      after_close-Balanced lib (resource a) calls (f a w) h.connects (k a w)
  and_then-closing lib resource (ran (failed e) w calls) f h k = record {
    balanced = IsQuiet-IsBalanced calls h.connects;
  }
  and_then-closing lib resource (ran (panicked s) w calls) f h k = record {
    balanced = IsQuiet-IsBalanced calls h.connects;
  }
