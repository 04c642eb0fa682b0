-- ===== src/Startup/Web.antt =====
-- crates/gateway/src/config/app.rs: the configuration of the gateway.
use qa_sys.Startup.{Files, StartError, value_or, read_config}
use qa_sys.Prelude.{ℕ, String, Bool, Result}

pub record GatewayConfig : Type 0 where
  pub app_debug : Bool
  pub app_port : ℕ
  pub metrics_port : ℕ
  pub grpc_address : String
  pub graceful_wait_time : ℕ

module _ {File Value : Type 0} (files : Files File Value) where
  abbrev pub gateway_file : String
  gateway_file = files.join (value_or "./" (files.env_var "QA_CONFIG_DIR")) "app-gw.yaml"

-- `APP_CONFIG` of the gateway.
unfoldable pub gateway_config :
    {File Value E : Type 0}
    → Files File Value
    → (String → Result String GatewayConfig)
    → Result (StartError E) GatewayConfig
gateway_config files from_str =
    read_config files from_str "yaml file load error" (gateway_file files)
