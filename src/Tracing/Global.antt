-- ===== src/Tracing/Global.antt =====
-- The global tracer (events-processor/config/tracing/tracer.go).
use lago_paiement_engine.Prelude.{
  ◌≡◌, refl, ap, sym, subst, Bool, true, false, Option, none, some, List, [], ◌∷◌, All,
}
use lago_paiement_engine.Tracing.Span.{Tracer, empty_tracer}
use lago_paiement_engine.Tracing.Provider.{
  TracerProvider, TracerProviderOptions, get_options, tracer_of,
}

-- `globalTracer`, where `none` is nil, and whether `once` is done.
pub record Globals : Type 0 where
  pub once : Bool
  pub global_tracer : Option Tracer

abbrev pub new_globals : Globals
new_globals = record { once = false; global_tracer = none }

-- `GetTracer`
abbrev or_empty : Option Tracer → Tracer
or_empty none = empty_tracer
or_empty (some t) = t

pub get_tracer : Globals → Tracer × Globals
get_tracer g =
    (or_empty g.global_tracer, record g { global_tracer = some (or_empty g.global_tracer) })

-- The calls that read or set the global tracer.
pub data TracerCall (H : Type 0) : Type 0 where
  init : TracerProvider H → TracerCall H
  get : TracerCall H

-- The tracers that a run of calls returns; `none` is a nil tracer, and a panic ends the run.
after_init : Option Globals → (Globals → List (Option Tracer)) → List (Option Tracer)
after_init none f = []
after_init (some g) f = g.global_tracer ∷ f g

-- The variables once a tracer is set.
abbrev set_to : Tracer → Globals
set_to t = record { once = true; global_tracer = some t }

module _ {H : Type 0} where
  set_global : TracerProvider H → Option TracerProviderOptions → Option Globals
  set_global provider none = none
  set_global provider (some opts) =
      some (record { once = true; global_tracer = some (tracer_of provider opts.service_name) })

  do_once : Bool → TracerProvider H → Globals → Option Globals
  unfolding set_global
  do_once true provider g = some g
  do_once false provider g = set_global provider (get_options provider)

  -- `InitTracer`; it returns the global tracer. `none` is a panic.
  pub init_tracer : TracerProvider H → Globals → Option Globals
  unfolding do_once
  init_tracer provider g = do_once g.once provider g

  pub tracers : List (TracerCall H) → Globals → List (Option Tracer)
  unfolding after_init
  tracers [] g = []
  tracers (init provider ∷ calls) g = after_init (init_tracer provider g) (tracers calls)
  tracers (get ∷ calls) g = let (t, g') = get_tracer g in some t ∷ tracers calls g'

  kept :
      (t : Tracer) (calls : List (TracerCall H)) → All (λ o. o ≡ some t) (tracers calls (set_to t))
  unfolding tracers init_tracer get_tracer
  kept t [] = tt
  kept t (init provider ∷ calls) = (refl, kept t calls)
  kept t (get ∷ calls) = (refl, kept t calls)

  do_once-first :
      (once : Bool) (provider : TracerProvider H) (opts : TracerProviderOptions) (g : Globals)
      → once ≡ false
      → get_options provider ≡ some opts
      → do_once once provider g ≡ some (set_to (tracer_of provider opts.service_name))
  unfolding do_once set_global
  do_once-first true provider opts g h e = cc h
  do_once-first false provider opts g h e = ap (set_global provider) e

  -- The first `InitTracer` whose provider has options sets the tracer that it and all later calls
  -- of `InitTracer` and `GetTracer` return, whatever `GetTracer` returned before.
  pub tracers-init :
      (provider : TracerProvider H) (opts : TracerProviderOptions) (g : Globals)
      (calls : List (TracerCall H))
      → g.once ≡ false
      → get_options provider ≡ some opts
      → All
          (λ o. o ≡ some (tracer_of provider opts.service_name))
          (tracers (init provider ∷ calls) g)
  unfolding tracers init_tracer
  tracers-init provider opts g calls h e =
      subst
        (λ o.
          All (λ t. t ≡ some (tracer_of provider opts.service_name)) (after_init o (tracers calls)))
        (sym (do_once-first g.once provider opts g h e))
        (refl, kept (tracer_of provider opts.service_name) calls)
