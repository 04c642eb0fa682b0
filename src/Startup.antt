-- ===== src/Startup.antt =====
-- crates/core/src/config.rs: the text of a configuration file. The file system, the environment and
-- serde_yaml are the parameter `Files`.
use qa_sys.Aes.{and_then, wrap_err}
use qa_sys.Prelude.{String, Result, ok, err}
pub mod Service
pub mod Web
pub mod Reading
pub mod Started

-- `File::open`, `read_to_string`, `serde_yaml::from_str` at `Value`, `std::env::var`, and `join` of a
-- path.
pub record Files (File Value : Type 0) : Type 0 where
  pub open_file : String → Result String File
  pub read_to_string : File → Result String String
  pub value_from_str : String → Result String Value
  pub env_var : String → Result String String
  pub join : String → String → String

-- What ends a start: a panic with the text that the code gives, or an error that `main` returns.
pub data StartError (E : Type 0) : Type 0 where
  panicked : String → StartError E
  returned : E → StartError E

-- `expect(message)`, and `unwrap()`.
abbrev pub expect : {E F A : Type 0} → String → Result F A → Result (StartError E) A
expect message r = wrap_err (λ e. panicked message) r

abbrev pub unwrap : {E F A : Type 0} → Result F A → Result (StartError E) A
unwrap r = expect "called `Result::unwrap()` on an `Err` value" r

-- `unwrap_or(default)`.
abbrev pub value_or : {F A : Type 0} → A → Result F A → A
value_or default (ok a) = a
value_or default (err e) = default

pub record Config : Type 0 where
  pub sections_text : String

module _ {File Value : Type 0} (files : Files File Value) where
  unfoldable pub load : String → Result String Config
  load path = and_then (files.open_file path) λ file.
      and_then (files.read_to_string file) λ contents. ok (record { sections_text = contents })

  unfoldable pub sections : Config → Result String Value
  sections self = files.value_from_str self.sections_text

unfoldable pub contents : Config → Result String String
contents self = ok self.sections_text

module _ {File Value E A : Type 0} (files : Files File Value)
    (from_str : String → Result String A) where
  -- The closure of both statics `APP_CONFIG`: the file is read, and its text is parsed.
  abbrev pub read_config : String → String → Result (StartError E) A
  read_config missing path = and_then (expect missing (load files path)) λ c.
      and_then (expect "Failed to read config file" (contents c))
        λ text. expect "Failed to parse config file" (from_str text)
