-- ===== src/Pools/Redis.antt =====
-- crates/core/src/xredis.rs and crates/qa-svc/src/config/xredis.rs: the pool of Redis connections. The
-- crates redis and r2d2 are the parameter `RedisLibrary`.
use qa_sys.Aes.{and_then}
use qa_sys.Prelude.{
  ℕ, String, List, Option, Result, ok, err, some, none, str_eq, if◌then◌else◌, ◌∷◌, [],
}

pub record RedisService : Type 0 where
  pub dsn : String
  pub max_size : ℕ
  pub min_idle : ℕ
  pub max_lifetime : ℕ
  pub idle_timeout : ℕ
  pub connection_timeout : ℕ
  pub cluster_nodes : Option (List String)

-- The settings of a builder of r2d2.
pub record PoolOptions : Type 0 where
  pub max_size : ℕ
  pub min_idle : Option ℕ
  pub max_lifetime : Option ℕ
  pub idle_timeout : Option ℕ
  pub connection_timeout : ℕ

pub data RedisPool (Single Cluster : Type 0) : Type 0 where
  single : Single → RedisPool Single Cluster
  cluster : Cluster → RedisPool Single Cluster

-- `Client::open`, `ClusterClient::new`, and `build` of a builder of r2d2 for each kind of client.
pub record RedisLibrary (Client ClusterClient Single Cluster : Type 0) : Type 0 where
  pub open_client : String → Result String Client
  pub open_cluster : List String → Result String ClusterClient
  pub build : PoolOptions → Client → Result String Single
  pub build_cluster : PoolOptions → ClusterClient → Result String Cluster

pub record RedisConfig : Type 0 where
  pub dsn : String
  pub max_size : ℕ
  pub min_idle : ℕ
  pub max_lifetime : ℕ
  pub idle_timeout : ℕ
  pub connection_timeout : ℕ

unfoldable pub builder : String → Result String RedisService
builder dsn =
    if str_eq dsn ""
    then err "redis dsn is empty"
    else ok (record {
      dsn = dsn;
      max_size = 300;
      min_idle = 3;
      max_lifetime = 1800;
      idle_timeout = 300;
      connection_timeout = 10;
      cluster_nodes = none;
    })

abbrev pub with_max_size : RedisService → ℕ → Result String RedisService
with_max_size self max_size = ok (record self { max_size = max_size })

abbrev pub with_min_idle : RedisService → ℕ → Result String RedisService
with_min_idle self min_idle = ok (record self { min_idle = min_idle })

abbrev pub with_max_lifetime : RedisService → ℕ → Result String RedisService
with_max_lifetime self max_lifetime = ok (record self { max_lifetime = max_lifetime })

abbrev pub with_idle_timeout : RedisService → ℕ → Result String RedisService
with_idle_timeout self idle_timeout = ok (record self { idle_timeout = idle_timeout })

abbrev pub with_connection_timeout : RedisService → ℕ → Result String RedisService
with_connection_timeout self connection_timeout =
    ok (record self { connection_timeout = connection_timeout })

abbrev pub init_pool :
    {P Pool : Type 0}
    → (PoolOptions → P → Result String Pool)
    → RedisService
    → P
    → Result String Pool
init_pool build self client =
    build
      (record {
        max_size = self.max_size;
        min_idle = some self.min_idle;
        max_lifetime = some self.max_lifetime;
        idle_timeout = some self.idle_timeout;
        connection_timeout = self.connection_timeout;
      })
      client

module _ {Client ClusterClient Single Cluster : Type 0}
    (lib : RedisLibrary Client ClusterClient Single Cluster) where
  unfoldable pub client : RedisService → Result String Client
  client self = if str_eq self.dsn "" then err "redis dsn is empty" else lib.open_client self.dsn

  abbrev pub nodes_client : Option (List String) → Result String ClusterClient
  nodes_client none = err "redis cluster nodes is empty"
  nodes_client (some []) = err "redis cluster nodes is empty"
  nodes_client (some (n ∷ nodes)) = lib.open_cluster (n ∷ nodes)

  abbrev pub cluster_client : RedisService → Result String ClusterClient
  cluster_client self = nodes_client self.cluster_nodes

  abbrev pub single_pool : RedisService → Result String (RedisPool Single Cluster)
  single_pool self =
      and_then (client self) λ c. and_then (init_pool lib.build self c) λ p. ok (single p)

  abbrev pub cluster_pool : RedisService → Result String (RedisPool Single Cluster)
  cluster_pool self =
      and_then (cluster_client self)
        λ c. and_then (init_pool lib.build_cluster self c) λ p. ok (cluster p)

  abbrev pub pool_of :
      RedisService → Option (List String) → Result String (RedisPool Single Cluster)
  pool_of self none = single_pool self
  pool_of self (some []) = err "redis cluster nodes is empty"
  pool_of self (some (n ∷ nodes)) = cluster_pool self

  -- `RedisService::pool`.
  abbrev pub service_pool : RedisService → Result String (RedisPool Single Cluster)
  service_pool self = pool_of self self.cluster_nodes

  -- `pool` of the configuration.
  abbrev pub redis_pool : RedisConfig → Result String (RedisPool Single Cluster)
  redis_pool config = and_then (builder config.dsn) λ s.
      and_then (with_max_size s config.max_size) λ s.
        and_then (with_connection_timeout s config.connection_timeout) λ s.
          and_then (with_idle_timeout s config.idle_timeout) λ s.
            and_then (with_max_lifetime s config.max_lifetime)
              λ s. and_then (with_min_idle s config.min_idle) service_pool
