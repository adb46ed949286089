-- ===== src/Startup/Connections.antt =====
-- The connections to Redis and Postgres (events-processor/config/redis/redis.go and
-- config/database/database.go).
use lago_paiement_engine.Prelude.{Bool, Option, none, some, [], ◌∷◌, ◌==◌, if◌then◌else◌, codes}
use lago_paiement_engine.Prelude.Int.{ℤ, pos}
use lago_paiement_engine.Utils.Env.{Runes}
use lago_paiement_engine.Startup.{
  RedisOptions, parse_pool_config, open_gorm, ping_redis, instrument_redis, pgx_pool, redis_client,
  Libraries, Ran, ran, returned, Action, pure, ◌>>=◌, ◌>>◌, when, ask, obtain,
}

-- `RedisConfig`
pub record RedisConfig : Type 0 where
  pub address : Runes
  pub password : Runes
  pub db : ℤ
  pub use_tracer : Bool
  pub use_tls : Bool

-- The rest of a text behind a prefix, if it begins with it.
unfoldable pub behind : Runes → Runes → Option Runes
behind [] s = some s
behind (c ∷ prefix) [] = none
behind (c ∷ prefix) (d ∷ s) = let rest = behind prefix s in if d == c then rest else none

-- `rediss://` does not begin with `redis://`, so that one of the two prefixes is there at most.
unfoldable pub without : Option Runes → Option Runes → Runes → Runes
without (some rest) _ address = rest
without none (some rest) address = rest
without none none address = address

-- `regexp.MustCompile("^rediss?://").ReplaceAllString(rc.Address, "")`
unfoldable pub address_and_port : Runes → Runes
unfolding behind without
address_and_port address =
    without (behind (codes "redis://") address) (behind (codes "rediss://") address) address

pub redis_options : RedisConfig → RedisOptions
unfolding address_and_port
redis_options c = record {
  addr = address_and_port c.address;
  password = c.password;
  db = c.db;
  dial_timeout = pos 5;
  read_timeout = pos 3;
  write_timeout = pos 3;
  pool_size = pos 10;
  pool_timeout = pos 4;
  insecure_tls = c.use_tls;
}

module _ {W H : Type 0} where
  abbrev pub client_answer : RedisOptions → H × W → Ran W H H
  client_answer o (h, w) = ran (returned h) w (redis_client o h ∷ [])

module _ {W H : Type 0} (lib : Libraries W H) where
  -- `redis.NewClient`
  abbrev pub new_client : RedisOptions → Action W H H
  new_client o = λ w. client_answer o (lib.new_redis_client o w)

  unfoldable pub new_redis_db : RedisConfig → Action W H H
  unfolding redis_options
  new_redis_db c = do
    client ← new_client (redis_options c)
    ask lib (ping_redis client)
    when c.use_tracer (ask lib (instrument_redis client))
    pure client

  -- `NewConnection`, with `OpenConnection`.
  unfoldable pub new_connection : Runes → ℤ → Action W H H
  new_connection url max_conns = do
    ask lib (parse_pool_config url)
    pool ← obtain lib (pgx_pool url max_conns)
    ask lib (open_gorm pool)
    pure pool
