-- ===== src/Error.antt =====
-- src/error.rs: the errors of the API and their responses.
use Prim.Native.String.{◌++◌ as concat}
use xjp_deploy_agent.Prelude.{ℕ, String, Option, none, some}

pub data ApiError : Type 0 where
  unauthorized : ApiError
  not_found bad_request conflict internal service_unavailable : String → ApiError

pub record Response : Type 0 where
  pub status : ℕ
  pub error : String
  pub message : String

unfoldable pub into_response : ApiError → Response
into_response unauthorized = record {
  status = 401;
  error = "unauthorized";
  message = "Invalid or missing API key";
}
into_response (not_found resource) = record {
  status = 404;
  error = "not_found";
  message = concat resource " not found";
}
into_response (bad_request m) = record { status = 400; error = "bad_request"; message = m }
into_response (conflict m) = record { status = 409; error = "conflict"; message = m }
into_response (internal m) = record { status = 500; error = "internal_error"; message = m }
into_response (service_unavailable m) = record {
  status = 503;
  error = "service_unavailable";
  message = m;
}

-- `Result<T, ApiError>`
pub data ApiResult {ℓ} (A : Type ℓ) : Type ℓ where
  ok : A → ApiResult A
  err : ApiError → ApiResult A

abbrev pub ok_or {ℓ} : {A : Type ℓ} → Option A → ApiError → ApiResult A
ok_or none e = err e
ok_or (some a) e = ok a

infixl 5 ◌>>=◌
abbrev pub ◌>>=◌ {ℓ κ} : {A : Type ℓ} {B : Type κ} → ApiResult A → (A → ApiResult B) → ApiResult B
ok a >>= f = f a
err e >>= f = err e
