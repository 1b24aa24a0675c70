-- ===== src/Auth.antt =====
-- src/middleware/auth.rs: the check of the header `x-api-key`.
use xjp_deploy_agent.Prelude.{
  if◌then◌else◌, ◌==◌, nat_eq, string_eq, String, Bool, true, false, Option, none, some,
}
use xjp_deploy_agent.Error.{ApiResult, ok, err, unauthorized}

-- The header of a request, which may be missing or hold bytes that are no visible ASCII.
pub data Header : Type 0 where
  missing not_ascii : Header
  text : String → Header

unfoldable pub to_str : Header → Option String
to_str missing = none
to_str not_ascii = none
to_str (text key) = some key

unfoldable pub verify_api_key : Header → (expected_key : String) → ApiResult (Unit {0})
verify_api_key header expected_key = elim (to_str header) [
  | some key ↦ if key == expected_key then ok tt else err unauthorized
  | none ↦ err unauthorized
]

-- `OptionalApiKey`: whether the request is authenticated.
unfoldable pub optional_api_key : Header → (api_key : String) → ApiResult Bool
optional_api_key header api_key = elim (to_str header) [
  | some key ↦ if key == api_key then ok true else err unauthorized
  | none ↦ ok false
]
