-- ===== src/Tests/Pools.antt =====
-- A configuration of the pool of Redis.
use qa_sys.Pools.Redis.{RedisLibrary, RedisConfig}
use qa_sys.Prelude.{ℕ, String, ok}

-- A library that opens everything: a client is its address, a pool its size.
abbrev pub toy_redis : RedisLibrary String ℕ ℕ ℕ
toy_redis = record {
  open_client = λ dsn. ok dsn;
  open_cluster = λ nodes. ok 0;
  build = λ options c. ok options.max_size;
  build_cluster = λ options c. ok options.max_size;
}

abbrev pub redis_conf : RedisConfig
redis_conf = record {
  dsn = "redis://:@127.0.0.1:6379/0";
  max_size = 20;
  min_idle = 2;
  max_lifetime = 90;
  idle_timeout = 30;
  connection_timeout = 5;
}
