-- ===== src/Startup/Contracts.antt =====
-- What holds of all calls of a run and of what it returns. It models no code.
use lago_paiement_engine.Prelude.{List, All, All-append, String}
use lago_paiement_engine.Utils.Result.{Error}
use lago_paiement_engine.Startup.{
  Call, close, log_error, capture_error, Resource, Libraries, Ran, ran, returned, failed, panicked,
  calls_of, Action, after_calls, and_then, log_and_panic_at, close_after,
}

module _ {H : Type 0} (Q : Call H → Type 0) where
  -- The calls that report an error.
  abbrev pub Reports : Type 0
  Reports = ((s : String) → Q (log_error s)) × ((e : Error) → Q (capture_error e))

module _ {W H : Type 0} (Q : Call H → Type 0) where
  -- Every call satisfies `Q`, and so does what is returned satisfy `P`.
  abbrev pub Ends : {A : Type 0} → (A → Type 0) → Ran W H A → Type 0
  Ends P (ran (returned a) w calls) = P a × All Q calls
  Ends P (ran (failed e) w calls) = All Q calls
  Ends P (ran (panicked s) w calls) = All Q calls

  pub record Holds {A : Type 0} (P : A → Type 0) (r : Ran W H A) : Type 0 where
    pub holds : Ends P r

  module _ {A : Type 0} where
    pub calls-All : (P : A → Type 0) (r : Ran W H A) → Holds P r → All Q (calls_of r)
    calls-All P (ran (returned a) w calls) h = h.holds.1
    calls-All P (ran (failed e) w calls) h = h.holds
    calls-All P (ran (panicked s) w calls) h = h.holds

    after_calls-Holds :
        (P : A → Type 0) (calls : List (Call H)) (r : Ran W H A)
        → All Q calls
        → Holds P r
        → Holds P (after_calls calls r)
    after_calls-Holds P calls (ran (returned a) w more) h k = record {
      holds = (k.holds.0, All-append Q calls more h k.holds.1);
    }
    after_calls-Holds P calls (ran (failed e) w more) h k = record {
      holds = All-append Q calls more h k.holds;
    }
    after_calls-Holds P calls (ran (panicked s) w more) h k = record {
      holds = All-append Q calls more h k.holds;
    }

    pub log_and_panic_at-Holds :
        (P : A → Type 0) (message : String) (r : Ran W H A)
        → Reports Q
        → Holds P r
        → Holds P (log_and_panic_at message r)
    log_and_panic_at-Holds P message (ran (returned a) w calls) q h = h
    log_and_panic_at-Holds P message (ran (panicked s) w calls) q h = h
    log_and_panic_at-Holds P message (ran (failed e) w calls) q h = record {
      holds = All-append Q calls _ h.holds (q.0 message, (q.1 e, tt));
    }

    pub close_after-Holds :
        (P : A → Type 0) (lib : Libraries W H) (resource : Resource H) (r : Ran W H A)
        → Q (close resource)
        → Holds P r
        → Holds P (close_after lib resource r)
    close_after-Holds P lib resource (ran (returned a) w calls) q h = record {
      holds = (h.holds.0, All-append Q calls _ h.holds.1 (q, tt));
    }
    close_after-Holds P lib resource (ran (failed e) w calls) q h = record {
      holds = All-append Q calls _ h.holds (q, tt);
    }
    close_after-Holds P lib resource (ran (panicked s) w calls) q h = record {
      holds = All-append Q calls _ h.holds (q, tt);
    }

  module _ {A B : Type 0} where
    pub and_then-Holds :
        (P : A → Type 0) (R : B → Type 0) (r : Ran W H A) (f : A → Action W H B)
        → Holds P r
        → ((a : A) (w : W) → P a → Holds R (f a w))
        → Holds R (and_then r f)
    and_then-Holds P R (ran (returned a) w calls) f h k =
        after_calls-Holds R calls (f a w) h.holds.1 (k a w h.holds.0)
    and_then-Holds P R (ran (failed e) w calls) f h k = record { holds = h.holds }
    and_then-Holds P R (ran (panicked s) w calls) f h k = record { holds = h.holds }
