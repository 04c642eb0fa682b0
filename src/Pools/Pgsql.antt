-- ===== src/Pools/Pgsql.antt =====
-- crates/core/src/xpgsql.rs and crates/qa-svc/src/config/pgsql.rs: the pool of PostgreSQL connections,
-- with `connect` of sqlx as a parameter.
use qa_sys.Aes.{and_then}
use qa_sys.Prelude.{ℕ, String, Result, ok, err, str_eq, if◌then◌else◌}

pub record PgsqlService : Type 0 where
  pub dsn : String
  pub max_connections : ℕ
  pub min_connections : ℕ
  pub max_lifetime : ℕ
  pub idle_timeout : ℕ
  pub connect_timeout : ℕ

-- The settings of the builder of sqlx.
pub record PgPoolOptions : Type 0 where
  pub max_connections : ℕ
  pub min_connections : ℕ
  pub max_lifetime : ℕ
  pub idle_timeout : ℕ
  pub acquire_timeout : ℕ

pub record PgsqlConfig : Type 0 where
  pub dsn : String
  pub max_connections : ℕ
  pub min_connections : ℕ
  pub max_lifetime : ℕ
  pub idle_timeout : ℕ
  pub connect_timeout : ℕ

unfoldable pub build : String → Result String PgsqlService
build dsn =
    if str_eq dsn ""
    then err "pgsql dsn is empty"
    else ok (record {
      dsn = dsn;
      max_connections = 100;
      min_connections = 10;
      max_lifetime = 1800;
      idle_timeout = 300;
      connect_timeout = 10;
    })

abbrev pub with_max_connections : PgsqlService → ℕ → Result String PgsqlService
with_max_connections self max_connections = ok (record self { max_connections = max_connections })

abbrev pub with_min_connections : PgsqlService → ℕ → Result String PgsqlService
with_min_connections self min_connections = ok (record self { min_connections = min_connections })

abbrev pub with_max_lifetime : PgsqlService → ℕ → Result String PgsqlService
with_max_lifetime self max_lifetime = ok (record self { max_lifetime = max_lifetime })

abbrev pub with_idle_timeout : PgsqlService → ℕ → Result String PgsqlService
with_idle_timeout self idle_timeout = ok (record self { idle_timeout = idle_timeout })

abbrev pub with_connect_timeout : PgsqlService → ℕ → Result String PgsqlService
with_connect_timeout self connect_timeout = ok (record self { connect_timeout = connect_timeout })

module _ {PgPool : Type 0} (connect : PgPoolOptions → String → Result String PgPool) where
  -- `PgsqlService::pool`.
  abbrev pub service_pool : PgsqlService → Result String PgPool
  service_pool self =
      connect
        (record {
          max_connections = self.max_connections;
          min_connections = self.min_connections;
          max_lifetime = self.max_lifetime;
          idle_timeout = self.idle_timeout;
          acquire_timeout = self.connect_timeout;
        })
        self.dsn

  -- `pool` of the configuration.
  abbrev pub pgsql_pool : PgsqlConfig → Result String PgPool
  pgsql_pool config = and_then (build config.dsn) λ s.
      and_then (with_max_connections s config.max_connections) λ s.
        and_then (with_min_connections s config.min_connections) λ s.
          and_then (with_max_lifetime s config.max_lifetime) λ s.
            and_then (with_idle_timeout s config.idle_timeout)
              λ s. and_then (with_connect_timeout s config.connect_timeout) service_pool
