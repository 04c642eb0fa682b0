-- ===== src/Pools/Pulsar.antt =====
-- crates/core/src/xpulsar.rs and crates/qa-svc/src/config/xpulsar.rs: the client of Pulsar, with `build`
-- of the crate pulsar as a parameter.
use qa_sys.Aes.{and_then, wrap_err}
use qa_sys.Prelude.{String, Option, Result, ok, err, some, none, str_eq, if◌then◌else◌}

pub record PulsarService : Type 0 where
  pub addr : String
  pub token : Option String

-- `Authentication` of the crate, its data as the text whose bytes it has.
pub record Authentication : Type 0 where
  pub name : String
  pub data_text : String

pub record PulsarConfig : Type 0 where
  pub addr : String
  pub token : String

pub data PulsarError : Type 0 where
  connection_error : String → PulsarError

pub data ClientError : Type 0 where
  message : String → ClientError
  pulsar_error : PulsarError → ClientError

unfoldable pub builder : String → Result ClientError PulsarService
builder dsn =
    if str_eq dsn ""
    then err (message "pulsar dsn is empty")
    else ok (record { addr = dsn; token = none })

abbrev pub with_token : PulsarService → String → Result ClientError PulsarService
with_token self token = ok (record self { token = some token })

abbrev pub authentication : Option String → Option Authentication
authentication none = none
authentication (some token) = some (record { name = "token"; data_text = token })

module _ {Client : Type 0} (build : String → Option Authentication → Result String Client) where
  -- `PulsarService::client`.
  abbrev pub service_client : PulsarService → Result PulsarError Client
  service_client self = wrap_err connection_error (build self.addr (authentication self.token))

  abbrev pub configured : PulsarService → String → Result ClientError PulsarService
  configured p token = if str_eq token "" then ok p else with_token p token

  -- `client` of the configuration.
  unfoldable pub pulsar_client : PulsarConfig → Result ClientError Client
  pulsar_client config =
      and_then (builder config.addr)
        λ p. and_then (configured p config.token) λ p. wrap_err pulsar_error (service_client p)
