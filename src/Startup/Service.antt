-- ===== src/Startup/Service.antt =====
-- The start of the gRPC service: crates/qa-svc/src/config/app.rs, `new` of QaServiceImpl and of the
-- repositories, and crates/qa-svc/src/main.rs up to where it begins to serve.
use qa_sys.Aes.{Crypto, AesCbcCrypto, and_then, wrap_err, new_crypto, size256}
use qa_sys.Pools.Redis.{RedisLibrary, RedisConfig, RedisPool, redis_pool}
use qa_sys.Pools.Pgsql.{PgPoolOptions, PgsqlConfig, pgsql_pool}
use qa_sys.Pools.Pulsar.{PulsarConfig, Authentication, ClientError, pulsar_client}
use qa_sys.Startup.{Files, StartError, returned, value_or, expect, unwrap, read_config}
use qa_sys.Prelude.Strings.{format, show_u64}
use qa_sys.Prelude.{ℕ, String, Bool, Option, Result, ok, ◌∷◌, []}

pub record VoteMessagingConfig : Type 0 where
  pub topic : String
  pub subscription : String
  pub producer_name : String
  pub consumer_name : String

pub record AppConfig : Type 0 where
  pub app_debug : Bool
  pub app_port : ℕ
  pub metrics_port : ℕ
  pub graceful_wait_time : ℕ
  pub pgsql_conf : PgsqlConfig
  pub pulsar_conf : PulsarConfig
  pub vote_messaging_conf : VoteMessagingConfig
  pub redis_conf : RedisConfig
  pub aes_key : String
  pub aes_iv : String

-- What the crates give: the pools that sqlx connects and r2d2 builds, the client of Pulsar, a parsed
-- socket address, and the reflection service built from the descriptor of the messages.
pub record Drivers (PgPool Mq Single Cluster Client ClusterClient Address Reflection : Type 0)
    : Type 0 where
  pub connect : PgPoolOptions → String → Result String PgPool
  pub redis : RedisLibrary Client ClusterClient Single Cluster
  pub pulsar : String → Option Authentication → Result String Mq
  pub parse_address : String → Result String Address
  pub reflection : Result String Reflection
  pub crypto : Crypto

pub record AppState (PgPool Mq Redis : Type 0) : Type 0 where
  pub pgsql_pool : PgPool
  pub pulsar_client : Mq
  pub redis_pool : Redis

pub record AnswerRepositoryImpl (PgPool : Type 0) : Type 0 where
  pub pg : PgPool

pub record QuestionRepositoryImpl (PgPool Redis : Type 0) : Type 0 where
  pub pg : PgPool
  pub redis : Redis

pub record UserVoteRepositoryImpl (PgPool Mq : Type 0) : Type 0 where
  pub db : PgPool
  pub mq : Mq
  pub messaging : VoteMessagingConfig

pub record UserRepositoryImpl (PgPool Redis : Type 0) : Type 0 where
  pub db : PgPool
  pub redis : Redis

pub record QaServiceImpl (PgPool Mq Redis : Type 0) : Type 0 where
  pub answer_repo : AnswerRepositoryImpl PgPool
  pub question_repo : QuestionRepositoryImpl PgPool Redis
  pub user_vote_repo : UserVoteRepositoryImpl PgPool Mq
  pub user_repo : UserRepositoryImpl PgPool Redis
  pub aes_crypto : AesCbcCrypto

abbrev pub answer_repository : {PgPool : Type 0} → PgPool → AnswerRepositoryImpl PgPool
answer_repository pg = record { pg = pg }

abbrev pub question_repository :
    {PgPool Redis : Type 0} → PgPool → Redis → QuestionRepositoryImpl PgPool Redis
question_repository pg redis = record { pg = pg; redis = redis }

abbrev pub user_vote_repository :
    {PgPool Mq : Type 0} → PgPool → Mq → VoteMessagingConfig → UserVoteRepositoryImpl PgPool Mq
user_vote_repository db mq messaging = record { db = db; mq = mq; messaging = messaging }

abbrev pub user_repository :
    {PgPool Redis : Type 0} → PgPool → Redis → UserRepositoryImpl PgPool Redis
user_repository db redis = record { db = db; redis = redis }

module _ {E PgPool Mq Redis : Type 0} where
  -- `QaServiceImpl::new`, given `APP_CONFIG`.
  unfoldable pub new_service :
      Crypto
      → AppConfig
      → AppState PgPool Mq Redis
      → Result (StartError E) (QaServiceImpl PgPool Mq Redis)
  new_service c config state =
      let answer_repo = answer_repository state.pgsql_pool in
      let question_repo = question_repository state.pgsql_pool state.redis_pool in
      let user_vote_repo =
        user_vote_repository state.pgsql_pool state.pulsar_client config.vote_messaging_conf in
      let user_repo = user_repository state.pgsql_pool state.redis_pool in
      and_then (expect "fail init aes crypto" (new_crypto c config.aes_key config.aes_iv size256))
        λ aes_crypto. ok (record {
          answer_repo = answer_repo;
          question_repo = question_repo;
          user_vote_repo = user_vote_repo;
          user_repo = user_repo;
          aes_crypto = aes_crypto;
        })

-- An error that `main` returns by `?`.
pub data MainError : Type 0 where
  pool_error : String → MainError
  client_error : ClientError → MainError

abbrev pub returning :
    {F A : Type 0} → (F → MainError) → Result F A → Result (StartError MainError) A
returning f r = wrap_err (λ e. returned (f e)) r

module _ {File Value : Type 0} (files : Files File Value) where
  abbrev pub config_path : String
  config_path = value_or "./app.yaml" (files.env_var "APP_CONFIG")

module _ {File Value : Type 0} (files : Files File Value)
    (from_str : String → Result String AppConfig) where
  -- `APP_CONFIG` of the service.
  unfoldable pub app_config : Result (StartError MainError) AppConfig
  app_config = read_config files from_str "Failed to load config file" (config_path files)

-- `format!("0.0.0.0:{}", APP_CONFIG.app_port)`.
abbrev pub bind_text : AppConfig → String
bind_text config = format ("0.0.0.0:" ∷ show_u64 config.app_port ∷ [])

module _ {File Value PgPool Mq Single Cluster Client ClusterClient Address Reflection : Type 0}
    (files : Files File Value) (from_str : String → Result String AppConfig)
    (d : Drivers PgPool Mq Single Cluster Client ClusterClient Address Reflection) where
  -- `main` up to the service that it then serves at the address, beside the reflection service.
  unfoldable pub start_service :
      Result
        (StartError MainError)
        (Address × Reflection × QaServiceImpl PgPool Mq (RedisPool Single Cluster))
  start_service = and_then (app_config files from_str) λ config.
      and_then (unwrap (d.parse_address (bind_text config))) λ address.
        and_then (returning pool_error (pgsql_pool d.connect config.pgsql_conf)) λ pg.
          and_then (returning pool_error (redis_pool d.redis config.redis_conf)) λ redis.
            and_then (returning client_error (pulsar_client d.pulsar config.pulsar_conf)) λ mq.
              let state : AppState PgPool Mq (RedisPool Single Cluster) = record {
                pgsql_pool = pg;
                pulsar_client = mq;
                redis_pool = redis;
              } in
              and_then (unwrap d.reflection) λ reflection.
                and_then (new_service d.crypto config state)
                  λ service. ok (address, reflection, service)
