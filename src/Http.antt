-- ===== src/Http.antt =====
-- What a request of the HTTP client comes to, as src/services/, src/infra/ and src/middleware/ see it;
-- the client itself is a library that the code calls.
use xjp_deploy_agent.Prelude.{ℕ, String, Bool, false, ◌&&◌, leb, ltb}

-- A failed request, or a status with the body.
pub data Answer : Type 0 where
  request_failed : (error : String) → Answer
  answered : (code : ℕ) → (body : String) → Answer

-- `StatusCode::is_success`
unfoldable pub is_success : ℕ → Bool
is_success code = leb 200 code && ltb code 300

abbrev pub is_accepted : Answer → Bool
is_accepted (request_failed e) = false
is_accepted (answered code body) = is_success code
