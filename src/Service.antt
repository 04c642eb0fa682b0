-- ===== src/Service.antt =====
-- The gRPC service of crates/qa-svc/src/application/app.rs: what its handlers share. The handlers are
-- the modules below.
pub mod Sessions
pub mod Posts
pub mod Voting
pub mod Reading
use qa_sys.Prelude.Int.{ℤ}
use qa_sys.Prelude.Strings.{format}
use qa_sys.Votes.{is_some}
use qa_sys.Aes.{Crypto, AesCbcCrypto}
use qa_sys.World.{Repo, Externals, AnyError, World, error_text}
use qa_sys.Prelude.{Action, Result, String, Bool, map_err, ok, ◌∷◌, err, []}
use text.Mathlib.Text

-- `tonic::Code`.
pub data Code : Type 0 where
  success cancelled unknown invalid_argument deadline_exceeded not_found already_exists : Code
  permission_denied resource_exhausted failed_precondition aborted out_of_range : Code
  unimplemented internal unavailable data_loss unauthenticated : Code

-- `tonic::Status`, or the panic of an `expect`.
pub data Failure : Type 0 where
  status : Code → String → Failure
  panic : String → Failure

-- A handler of the service.
abbrev pub Handler : Type 0 → Type 0 → Type 0
Handler R A = Action (World R) Failure A

-- What the handlers are given: third-party code, the crypto of `QaServiceImpl`, the clock and the
-- next `Uuid::new_v4()`.
pub record Env (R : Type 0) : Type 0 where
  pub externals : Externals R
  pub crypto : Crypto
  pub aes : AesCbcCrypto
  pub now : ℤ
  pub uuid : String

-- `s.contains(pattern)`.
unfoldable pub contains : String → String → Bool
contains s pattern = is_some (Text.find? s pattern)

-- `Err(err) => return Err(Status::new(code, format!("…{}", err)))`.
abbrev pub or_status : {R A : Type 0} → Externals R → Code → String → Repo R A → Handler R A
or_status x code text m = map_err (λ e. status code (format (text ∷ error_text x e ∷ []))) m

-- `unwrap_or(value)`.
abbrev pub unwrap_or : {R A : Type 0} → A → Result AnyError A × World R → Result Failure A × World R
unwrap_or d (ok a, w) = (ok a, w)
unwrap_or d (err e, w) = (ok d, w)

abbrev pub or_default : {R A : Type 0} → A → Repo R A → Handler R A
or_default d m w = unwrap_or d (m w)
