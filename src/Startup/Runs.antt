-- ===== src/Startup/Runs.antt =====
-- What is read off the calls of a run. It models no code.
use lago_paiement_engine.Prelude.{inl, none, some, List, [], ◌∷◌, collect}
use lago_paiement_engine.Startup.{
  open_gorm, ping_redis, Check, Resource, pool, redis, Call, checked, close, opened, serve,
}

module _ {H : Type 0} where
  abbrev pub closed_by : Call H → List (Resource H)
  closed_by (close r) = r ∷ []
  closed_by _ = []

  -- The last step of a connection: `gorm.Open` on a pool, and the ping of a Redis client.
  abbrev pub connection_of : Check H → List (Resource H)
  connection_of (open_gorm h) = pool h ∷ []
  connection_of (ping_redis h) = redis h ∷ []
  connection_of _ = []

  abbrev pub connected_by : Call H → List (Resource H)
  connected_by (checked c none) = connection_of c
  connected_by _ = []

  -- What is closed, in order.
  abbrev pub closed : List (Call H) → List (Resource H)
  closed = collect closed_by

  -- What is connected without an error, in order.
  abbrev pub connected : List (Call H) → List (Resource H)
  connected = collect connected_by

  -- The call got no error.
  abbrev pub IsSuccess : Call H → Type 0
  IsSuccess (checked c (some e)) = ⊥
  IsSuccess (opened o (inl e)) = ⊥
  IsSuccess _ = Unit

  -- The consumer group is started.
  abbrev pub IsServe : Call H → Type 0
  IsServe (serve h processor) = Unit
  IsServe _ = ⊥
