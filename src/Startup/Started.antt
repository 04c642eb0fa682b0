-- ===== src/Startup/Started.antt =====
-- When the gRPC service starts, and what it starts with.
use qa_sys.Startup.Reading.{IsConfigured, after_iff, app_config_iff}
use Prim.Native.String.{len}
use qa_sys.Aes.{Crypto, AesCbcCrypto, new_crypto, size256}
use qa_sys.Pools.{and_then_iff}
use qa_sys.Pools.Redis.{RedisPool, redis_pool, single, RedisConfig}
use qa_sys.Pools.Pgsql.{pgsql_pool, PgsqlConfig}
use qa_sys.Pools.Pulsar.{PulsarConfig, pulsar_client}
use qa_sys.Pools.Opening.{
  redis_options, pgsql_options, redis_pool_iff, pgsql_pool_iff, pulsar_client_iff,
}
use qa_sys.Startup.{Files}
use qa_sys.Startup.Service.{
  AppConfig, Drivers, QaServiceImpl, app_config, bind_text, new_service, start_service, AppState,
}
use qa_sys.Prelude.{String, Result, ok, some, none, ◌≡◌, ◌≢◌, ◌↔◌, ◌⊎◌, refl, arith, ap, ◌∙◌}

new_crypto-ok :
    (c : Crypto) (key iv : String) (a : AesCbcCrypto)
    → (new_crypto c key iv size256 ≡ ok a) ↔ (
        (len key ≡ 32)
        × (len iv ≡ 16)
        × (a ≡ record { key = c.as_bytes key; iv = c.as_bytes iv; key_size = size256 }))
unfolding new_crypto
new_crypto-ok c key iv a = (λ h. ground arith, λ h. ground arith)

-- The service that `new` makes of these pools and this client.
abbrev pub service_of :
    {PgPool Mq Redis : Type 0}
    → Crypto
    → AppConfig
    → PgPool
    → Mq
    → Redis
    → QaServiceImpl PgPool Mq Redis
service_of c config pg mq redis = record {
  answer_repo = record { pg = pg };
  question_repo = record { pg = pg; redis = redis };
  user_vote_repo = record { db = pg; mq = mq; messaging = config.vote_messaging_conf };
  user_repo = record { db = pg; redis = redis };
  aes_crypto = record {
    key = c.as_bytes config.aes_key;
    iv = c.as_bytes config.aes_iv;
    key_size = size256;
  };
}

module _ {PgPool Mq Redis : Type 0} (c : Crypto) (config : AppConfig)
    (state : AppState PgPool Mq Redis) (service : QaServiceImpl PgPool Mq Redis) where
  abbrev IsKeyed : Type 0
  IsKeyed =
      (len config.aes_key ≡ 32)
      × (len config.aes_iv ≡ 16)
      × (service ≡ service_of c config state.pgsql_pool state.pulsar_client state.redis_pool)

  new_service_iff : {E : Type 0} → (new_service {E = E} c config state ≡ ok service) ↔ IsKeyed
  unfolding new_service
  new_service_iff = (
    (λ h.
        let made = new_crypto c config.aes_key config.aes_iv size256 in
        let (a, got, same) = (after_iff _ made _ service).0 h in
        let (keyed, sized, same') = (new_crypto-ok c config.aes_key config.aes_iv a).0 got in
        (keyed, sized, cc)),
    λ (keyed, sized, same).
        (after_iff _ (new_crypto c config.aes_key config.aes_iv size256) _ service).1
          (_, (new_crypto-ok c config.aes_key config.aes_iv _).1 (keyed, sized, refl), cc),
  )

triple_of :
    {E A B C : Type 0} (a a' : A) (b b' : B) (c c' : C)
    → ◌≡◌ {A = Result E (A × B × C)} (ok (a', b', c')) (ok (a, b, c))
    → (a' ≡ a) × (b' ≡ b) × (c' ≡ c)
triple_of a a' b b' c c' h = (cc, cc, cc)

module _ {PgPool Mq Single Cluster Client ClusterClient Address Reflection : Type 0}
    (d : Drivers PgPool Mq Single Cluster Client ClusterClient Address Reflection) where
  -- The pools that a configuration opens, as Pools.Opening says.
  abbrev pub IsPgsql : PgsqlConfig → PgPool → Type 0
  IsPgsql config pg = (config.dsn ≢ "") × (d.connect (pgsql_options config) config.dsn ≡ ok pg)

  abbrev pub IsRedis : RedisConfig → RedisPool Single Cluster → Type 0
  IsRedis config pool =
      (config.dsn ≢ "")
      × (c : Client) × (p : Single) × (d.redis.open_client config.dsn ≡ ok c)
      × (d.redis.build (redis_options config) c ≡ ok p)
      × (pool ≡ single p)

  abbrev pub IsPulsar : PulsarConfig → Mq → Type 0
  IsPulsar config mq =
      (config.addr ≢ "")
      × (((config.token ≡ "") × (d.pulsar config.addr none ≡ ok mq))
          ⊎ ((config.token ≢ "")
              × (d.pulsar config.addr (some (record { name = "token"; data_text = config.token }))
                  ≡ ok mq)))

  -- This service is start_service-StartsWith at this address, from this configuration.
  abbrev pub StartsWith :
      AppConfig → Address → Reflection → QaServiceImpl PgPool Mq (RedisPool Single Cluster) → Type 0
  StartsWith config address reflection service =
      (d.parse_address (bind_text config) ≡ ok address)
      × (pg : PgPool) × IsPgsql config.pgsql_conf pg
      × (redis : RedisPool Single Cluster) × IsRedis config.redis_conf redis
      × (mq : Mq) × IsPulsar config.pulsar_conf mq
      × (d.reflection ≡ ok reflection)
      × (len config.aes_key ≡ 32)
      × (len config.aes_iv ≡ 16)
      × (service ≡ service_of d.crypto config pg mq redis)

module _ {File Value PgPool Mq Single Cluster Client ClusterClient Address Reflection : Type 0}
    (files : Files File Value) (from_str : String → Result String AppConfig)
    (d : Drivers PgPool Mq Single Cluster Client ClusterClient Address Reflection) where
  start_service-StartsWith :
      (address : Address) (reflection : Reflection)
      (service : QaServiceImpl PgPool Mq (RedisPool Single Cluster))
      → start_service files from_str d ≡ ok (address, reflection, service)
      → (config : AppConfig) × IsConfigured files from_str config
        × StartsWith d config address reflection service
  unfolding start_service
  start_service-StartsWith address reflection service h =
      let end : Address × Reflection × QaServiceImpl PgPool Mq (RedisPool Single Cluster) =
        (address, reflection, service) in
      let (config, given, h1) = (and_then_iff (app_config files from_str) _ end).0 h in
      let parse = d.parse_address (bind_text config) in
      let (address', bound, h2) = (after_iff _ parse _ end).0 h1 in
      let (pg, opened, h3) = (after_iff _ (pgsql_pool d.connect config.pgsql_conf) _ end).0 h2 in
      let (redis, pooled, h4) = (after_iff _ (redis_pool d.redis config.redis_conf) _ end).0 h3 in
      let client = pulsar_client d.pulsar config.pulsar_conf in
      let (mq, joined, h5) = (after_iff _ client _ end).0 h4 in
      let state : AppState PgPool Mq (RedisPool Single Cluster) = record {
        pgsql_pool = pg;
        pulsar_client = mq;
        redis_pool = redis;
      } in
      let (reflection', built, h6) = (after_iff _ d.reflection _ end).0 h5 in
      let (service', made, same) = (and_then_iff (new_service d.crypto config state) _ end).0 h6 in
      let (at, reflected, serving) =
        triple_of address address' reflection reflection' service service' same in
      let (keyed, sized, wired) =
        (new_service_iff d.crypto config state service).0 (made ∙ ap ok serving) in
      (
        config,
        (app_config_iff files from_str config).0 given,
        (
          bound ∙ ap ok at,
          pg,
          (pgsql_pool_iff d.connect config.pgsql_conf pg).0 opened,
          redis,
          (redis_pool_iff d.redis config.redis_conf redis).0 pooled,
          mq,
          (pulsar_client_iff d.pulsar config.pulsar_conf mq).0 joined,
          built ∙ ap ok reflected,
          keyed,
          sized,
          wired,
        ),
      )

  StartsWith-start_service :
      (config : AppConfig) (address : Address) (reflection : Reflection)
      (service : QaServiceImpl PgPool Mq (RedisPool Single Cluster))
      → IsConfigured files from_str config
      → StartsWith d config address reflection service
      → start_service files from_str d ≡ ok (address, reflection, service)
  unfolding start_service
  StartsWith-start_service config address reflection service given
        (bound, pg, opened, redis, pooled, mq, joined, built, keyed, sized, same) =
      let state : AppState PgPool Mq (RedisPool Single Cluster) = record {
        pgsql_pool = pg;
        pulsar_client = mq;
        redis_pool = redis;
      } in
      rw (
        (app_config_iff files from_str config).1 given,
        bound,
        (pgsql_pool_iff d.connect config.pgsql_conf pg).1 opened,
        (redis_pool_iff d.redis config.redis_conf redis).1 pooled,
        (pulsar_client_iff d.pulsar config.pulsar_conf mq).1 joined,
        built,
        (new_service_iff d.crypto config state service).1 (keyed, sized, same),
      )

  -- The start of qa-svc ends with this socket address, this reflection service and this service
  -- exactly if the file that APP_CONFIG names, or "./app.yaml", is opened, read and parsed as a
  -- configuration; "0.0.0.0:" with its port parses as the address; the three addresses in it are
  -- not empty; the libraries open the pool of PostgreSQL, a pool of a single Redis node and the
  -- client of Pulsar with the sizes, times and token of the configuration, each in its own
  -- setting; the reflection service is built; the AES key has 32 bytes and the IV 16; and the
  -- service has these pools and this client in its repositories, and that key and IV.
  pub start_service_iff :
      (address : Address) (reflection : Reflection)
      (service : QaServiceImpl PgPool Mq (RedisPool Single Cluster))
      → (start_service files from_str d ≡ ok (address, reflection, service)) ↔ (
          (config : AppConfig) × IsConfigured files from_str config
          × StartsWith d config address reflection service)
  start_service_iff address reflection service = (
    start_service-StartsWith address reflection service,
    λ (config, given, with_it).
        StartsWith-start_service config address reflection service given with_it,
  )
