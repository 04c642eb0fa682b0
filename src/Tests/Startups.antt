-- ===== src/Tests/Startups.antt =====
-- A start of the gRPC service from a configuration file.
use qa_sys.Pools.Redis.{RedisPool, single}
use qa_sys.Pools.Pulsar.{Authentication}
use qa_sys.Startup.{Files}
use qa_sys.Startup.Service.{AppConfig, Drivers, QaServiceImpl, start_service}
use qa_sys.Startup.Reading.{IsConfigured}
use qa_sys.Startup.Started.{start_service_iff, StartsWith, service_of}
use qa_sys.Tests.Ciphers.{toy_crypto}
use qa_sys.Tests.Pools.{toy_redis, redis_conf}
use qa_sys.Prelude.{ℕ, String, Option, Result, ◌≡◌, ◌↔◌, ok, err, some, true, if◌then◌else◌, str_eq}

-- One file, at the default path, and no environment; its text names a configuration.
abbrev toy_files : Files String String
toy_files = record {
  open_file = λ path. if str_eq path "./app.yaml" then ok path else err "No such file";
  read_to_string = λ file. ok "app";
  value_from_str = λ text. ok text;
  env_var = λ name. err "environment variable not found";
  join = λ dir name. name;
}

abbrev app_yaml : AppConfig
app_yaml = record {
  app_debug = true;
  app_port = 50051;
  metrics_port = 2338;
  graceful_wait_time = 3;
  pgsql_conf = record {
    dsn = "postgresql://postgres@127.0.0.1:5432/qa_sys";
    max_connections = 100;
    min_connections = 10;
    max_lifetime = 1800;
    idle_timeout = 300;
    connect_timeout = 10;
  };
  pulsar_conf = record { addr = "pulsar://127.0.0.1:6650"; token = "secret" };
  vote_messaging_conf = record {
    topic = "user-vote";
    subscription = "votes";
    producer_name = "qa-svc";
    consumer_name = "vote-job";
  };
  redis_conf = redis_conf;
  aes_key = "YiBX0z9WnJjsS5aNXmi0AeT1yTPZZJYa";
  aes_iv = "3ZQEpwP9DbK4h1Z0";
}

abbrev yaml : String → Result String AppConfig
yaml text = if str_eq text "app" then ok app_yaml else err "invalid type"

-- A pool is its address, a client is its address and token, an address its text.
abbrev toy_drivers : Drivers String (String × Option Authentication) ℕ ℕ String ℕ String ℕ
toy_drivers = record {
  connect = λ options dsn. ok dsn;
  redis = toy_redis;
  pulsar = λ addr auth. ok (addr, auth);
  parse_address = λ text. ok text;
  reflection = ok 1;
  crypto = toy_crypto;
}

abbrev toy_service : QaServiceImpl String (String × Option Authentication) (RedisPool ℕ ℕ)
toy_service =
    service_of toy_crypto app_yaml "postgresql://postgres@127.0.0.1:5432/qa_sys"
      ("pulsar://127.0.0.1:6650", some (record { name = "token"; data_text = "secret" }))
      (single 20)

start_service_iff_example :
    (start_service toy_files yaml toy_drivers ≡ ok ("0.0.0.0:50051", 1, toy_service)) ↔ (
      (config : AppConfig) × IsConfigured toy_files yaml config
      × StartsWith toy_drivers config "0.0.0.0:50051" 1 toy_service)
start_service_iff_example =
    start_service_iff toy_files yaml toy_drivers "0.0.0.0:50051" 1 toy_service
