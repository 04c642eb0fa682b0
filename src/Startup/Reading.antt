-- ===== src/Startup/Reading.antt =====
-- What the configuration files hold when both programs have read them.
use qa_sys.Startup.Web.{gateway_config, GatewayConfig, gateway_file}
use qa_sys.Aes.{and_then, wrap_err}
use qa_sys.Pools.{and_then_iff}
use qa_sys.Startup.{Files, load, contents, Config, read_config}
use qa_sys.Startup.Service.{AppConfig, config_path, app_config}
use qa_sys.Prelude.{String, Result, ok, err, ◌≡◌, ◌↔◌, refl, ap}

pub after_iff :
    {E F A B : Type 0} (f : E → F) (r : Result E A) (k : A → Result F B) (b : B)
    → (and_then (wrap_err f r) k ≡ ok b) ↔ ((a : A) × (r ≡ ok a) × (k a ≡ ok b))
after_iff f (ok a) k b = (λ h. (a, refl, h), λ (a', e, h). cc)
after_iff f (err e) k b = (λ h. cc, λ (a', e', h). cc)

wrap_err_iff :
    {E F A : Type 0} (f : E → F) (r : Result E A) (a : A) → (wrap_err f r ≡ ok a) ↔ (r ≡ ok a)
wrap_err_iff f (ok b) a = (λ h. cc, λ h. cc)
wrap_err_iff f (err e) a = (λ h. cc, λ h. cc)

-- The file of this path holds this value.
abbrev pub HasRead :
    {File Value A : Type 0} → Files File Value → (String → Result String A) → String → A → Type 0
HasRead {File} files from_str path a =
    (file : File) × (text : String) × (files.open_file path ≡ ok file)
    × (files.read_to_string file ≡ ok text)
    × (from_str text ≡ ok a)

abbrev text_in : {E : Type 0} → String → Result E Config → String
text_in default (ok c) = c.sections_text
text_in default (err e) = default

contents_of :
    {E : Type 0} (r : Result E String) (c : Config)
    → and_then r (λ text. ok (record { sections_text = text })) ≡ ok c
    → r ≡ ok c.sections_text
contents_of (ok text) c h = ap ok (ap (text_in text) h)
contents_of (err e) c h = cc

pub read_config_iff :
    {File Value E A : Type 0} (files : Files File Value) (from_str : String → Result String A)
    (missing path : String) (a : A)
    → (read_config {E = E} files from_str missing path ≡ ok a) ↔ HasRead files from_str path a
unfolding load contents
read_config_iff files from_str missing path a = (
  (λ h.
      let (c, loaded, more) = (after_iff _ (load files path) _ a).0 h in
      let (file, opened, got) = (and_then_iff (files.open_file path) _ c).0 loaded in
      let had = contents_of (files.read_to_string file) c got in
      let parsed = (wrap_err_iff _ (from_str c.sections_text) a).0 more in
      (file, c.sections_text, opened, had, parsed)),
  λ (file, text, opened, had, parsed). rw (opened, had, parsed),
)

-- The file that `APP_CONFIG` names, or "./app.yaml", holds this configuration.
abbrev pub IsConfigured :
    {File Value : Type 0}
    → Files File Value
    → (String → Result String AppConfig)
    → AppConfig
    → Type 0
IsConfigured files from_str config = HasRead files from_str (config_path files) config

pub app_config_iff :
    {File Value : Type 0} (files : Files File Value) (from_str : String → Result String AppConfig)
    (config : AppConfig)
    → (app_config files from_str ≡ ok config) ↔ IsConfigured files from_str config
unfolding app_config
app_config_iff files from_str config =
    read_config_iff files from_str "Failed to load config file" (config_path files) config

-- The gateway's configuration is the one in "app-gw.yaml" of the directory that `QA_CONFIG_DIR` names,
-- or of "./".
pub gateway_config_iff :
    {File Value E : Type 0} (files : Files File Value)
    (from_str : String → Result String GatewayConfig) (config : GatewayConfig)
    → (gateway_config {E = E} files from_str ≡ ok config)
      ↔ HasRead files from_str (gateway_file files) config
unfolding gateway_config
gateway_config_iff files from_str config =
    read_config_iff files from_str "yaml file load error" (gateway_file files) config
