-- ===== src/Pools/Opening.antt =====
-- When the configurations of crates/qa-svc/src/config open their pools and clients.
use qa_sys.Aes.{and_then}
use qa_sys.Pools.{and_then_iff}
use qa_sys.Pools.Redis.{RedisLibrary, RedisConfig, RedisPool, PoolOptions, single, redis_pool}
use qa_sys.Pools.Pgsql.{PgPoolOptions, PgsqlConfig, pgsql_pool}
use qa_sys.Pools.Pulsar.{PulsarConfig, Authentication, pulsar_client}
use qa_sys.Pools.Pgsql
use qa_sys.Pools.Pulsar
use qa_sys.Pools.Redis
use qa_sys.Prelude.{String, Option, Result, ◌≡◌, ◌≢◌, ◌↔◌, ◌⊎◌, ok, some, none, arith, str_eq_iff}

-- The settings of the configuration.
abbrev pub redis_options : RedisConfig → PoolOptions
redis_options config = record {
  max_size = config.max_size;
  min_idle = some config.min_idle;
  max_lifetime = some config.max_lifetime;
  idle_timeout = some config.idle_timeout;
  connection_timeout = config.connection_timeout;
}

module _ {Client ClusterClient Single Cluster : Type 0}
    (lib : RedisLibrary Client ClusterClient Single Cluster) where
  abbrev opening : RedisConfig → Result String (RedisPool Single Cluster)
  opening config =
      and_then (lib.open_client config.dsn)
        λ c. and_then (lib.build (redis_options config) c) λ p. ok (single p)

  redis_pool-opening :
      (config : RedisConfig) (pool : RedisPool Single Cluster)
      → (redis_pool lib config ≡ ok pool) ↔ ((config.dsn ≢ "") × (opening config ≡ ok pool))
  unfolding Redis.builder Redis.client
  redis_pool-opening config pool = (
    (λ h. ground (arith, str_eq_iff config.dsn "")),
    λ (named, made). ground (arith, str_eq_iff config.dsn ""),
  )

  -- The configuration of Redis gives this pool exactly if its address is not empty, the library
  -- opens a client for it and builds a pool from that client with the sizes and times of the
  -- configuration, each in its own setting; the pool is then that of a single node, never of a
  -- cluster.
  pub redis_pool_iff :
      (config : RedisConfig) (pool : RedisPool Single Cluster)
      → (redis_pool lib config ≡ ok pool) ↔ (
          (config.dsn ≢ "")
          × (c : Client) × (p : Single) × (lib.open_client config.dsn ≡ ok c)
          × (lib.build (redis_options config) c ≡ ok p)
          × (pool ≡ single p))
  redis_pool_iff config pool = (
    (λ h.
        let (named, opened) = (redis_pool-opening config pool).0 h in
        let (c, got, built) = (and_then_iff (lib.open_client config.dsn) _ pool).0 opened in
        let (p, held, same) = (and_then_iff (lib.build (redis_options config) c) _ pool).0 built in
        (named, c, p, got, held, cc)),
    λ (named, c, p, got, held, same).
        (redis_pool-opening config pool).1 (named, rw (got, held, same)),
  )

abbrev pub pgsql_options : PgsqlConfig → PgPoolOptions
pgsql_options config = record {
  max_connections = config.max_connections;
  min_connections = config.min_connections;
  max_lifetime = config.max_lifetime;
  idle_timeout = config.idle_timeout;
  acquire_timeout = config.connect_timeout;
}

module _ {PgPool : Type 0} (connect : PgPoolOptions → String → Result String PgPool) where
  pub pgsql_pool_iff :
      (config : PgsqlConfig) (pool : PgPool)
      → (pgsql_pool connect config ≡ ok pool)
        ↔ ((config.dsn ≢ "") × (connect (pgsql_options config) config.dsn ≡ ok pool))
  unfolding Pgsql.build
  pgsql_pool_iff config pool = (
    (λ h. ground (arith, str_eq_iff config.dsn "")),
    λ (named, made). ground (arith, str_eq_iff config.dsn ""),
  )

module _ {Client : Type 0} (build : String → Option Authentication → Result String Client) where
  -- The configuration of Pulsar gives this client exactly if its address is not empty and the
  -- library builds the client for that address, without authentication if the token is empty, and
  -- otherwise with an authentication named "token" whose data is the token.
  pub pulsar_client_iff :
      (config : PulsarConfig) (c : Client)
      → (pulsar_client build config ≡ ok c) ↔ (
          (config.addr ≢ "")
          × (((config.token ≡ "") × (build config.addr none ≡ ok c))
              ⊎ ((config.token ≢ "")
                  × (build config.addr (some (record { name = "token"; data_text = config.token }))
                      ≡ ok c))))
  unfolding pulsar_client Pulsar.builder
  pulsar_client_iff config c = (
    (λ h. ground (arith, str_eq_iff config.addr "", str_eq_iff config.token "")),
    λ (named, made). ground (arith, str_eq_iff config.addr "", str_eq_iff config.token ""),
  )
