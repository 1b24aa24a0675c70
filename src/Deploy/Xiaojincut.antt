-- ===== src/Deploy/Xiaojincut.antt =====
-- src/services/deploy/xiaojincut.rs: the task that is handed to the local video service. Its answers,
-- and whether a cancellation is seen during the health request, are given (`Happening`); the log
-- lines are not modelled.
use xjp_deploy_agent.Prelude.{
  if◌then◌else◌, Option-cases, is_some, map_option, unwrap_or, ◌==◌, nat_eq, string_eq, length, ℕ,
  String, ◌≡◌, refl, inl, inr, Bool, true, false, not, ◌&&◌, Option, none, some, List, [], ◌∷◌,
  arith,
}
use xjp_deploy_agent.Prelude.Text.{◌⊕◌, decimal_port}
use xjp_deploy_agent.Prelude.Int.{pos, negsuc}
use xjp_deploy_agent.Http.{Answer, is_accepted}
use xjp_deploy_agent.Task
use xjp_deploy_agent.Task.{is_terminal}
use xjp_deploy_agent.Deploy.Execute.{Outcome}
use xjp_deploy_agent.Deploy.Script.{is_success}

pub record XiaojincutConfig : Type 0 where
  pub task_type : String
  pub input_path : Option String
  pub output_dir : Option String
  pub prompt : Option String
  pub port : Option ℕ

-- The health request is broken off by a cancellation, or answered; then the task's request.
pub record Happening : Type 0 where
  pub health : Option Answer
  pub result : Answer

-- A request, with its address, the field of its JSON, if it has one, and its timeout in seconds.
pub record Request : Type 0 where
  pub is_post : Bool
  pub url : String
  pub body : Option (String × String)
  pub timeout_secs : ℕ

unfoldable pub base_url : XiaojincutConfig → String
base_url config = "http://localhost:" ⊕ decimal_port (unwrap_or config.port 19527) ⊕ "/api"

unfoldable pub get_request : XiaojincutConfig → (path : String) → (timeout_secs : ℕ) → Request
get_request config path timeout_secs = record {
  is_post = false;
  url = base_url config ⊕ path;
  body = none;
  timeout_secs = timeout_secs;
}

unfoldable pub post_request :
    XiaojincutConfig → (path : String) → Option (String × String) → (timeout_secs : ℕ) → Request
post_request config path body timeout_secs = record {
  is_post = true;
  url = base_url config ⊕ path;
  body = body;
  timeout_secs = timeout_secs;
}

-- The request for the task; there is none for an import without a path and for an unknown type.
unfoldable pub request_of : XiaojincutConfig → Option Request
request_of config =
    if config.task_type == "import"
    then map_option (λ path. post_request config "/import" (some ("path", path)) 60)
        config.input_path
    else if config.task_type == "export"
    then some (
        post_request config "/export" (map_option (λ dir. ("output_dir", dir)) config.output_dir)
          300)
    else if config.task_type == "status"
    then some (get_request config "/status" 10)
    else if config.task_type == "timeline"
    then some (get_request config "/timeline" 10)
    else none

unfoldable pub cancelled : Outcome
cancelled = record { status = Task.failed; exit_code = some (negsuc 0); stages = [] }

unfoldable pub ended : (ok : Bool) → Outcome
ended ok = record {
  status = if ok then Task.success else Task.failed;
  exit_code = some (if ok then pos 0 else pos 1);
  stages = [];
}

-- What is handed to `DeployContext::finish`, and the requests that were sent.
unfoldable pub execute : XiaojincutConfig → Happening → Outcome × List Request
execute config h =
    let health = get_request config "/health" 5 in
    elim h.health [
      | none ↦ (cancelled, health ∷ [])
      | some answer ↦
          if not (is_accepted answer)
          then (ended false, health ∷ [])
          else elim (request_of config) [
            | none ↦ (ended false, health ∷ [])
            | some request ↦ (ended (is_accepted h.result), health ∷ request ∷ [])
          ]
    ]

abbrev accepts : Option Answer → Bool
accepts none = false
accepts (some answer) = is_accepted answer

-- The task succeeds exactly if the service is healthy, the type of the task is known, with a path if it
-- is an import, and the service accepts the request; nothing but the health request is sent if the
-- service is not healthy or there is no request. It always ends in a terminal status, with an exit
-- code and without stages.
pub execute_xiaojincut_lem :
    (config : XiaojincutConfig) (h : Happening)
    → let healthy = accepts h.health in
      let known = is_some (request_of config) in
      let (o, requests) = execute config h in
      (is_success o.status ≡ (healthy && known && is_accepted h.result))
      × (length requests ≡ (if healthy && known then 2 else 1))
      × (is_terminal o.status ≡ true)
      × (is_some o.exit_code ≡ true)
      × (length o.stages ≡ 0)
unfolding execute ended cancelled is_success is_terminal
execute_xiaojincut_lem config h = elim (Option-cases (request_of config)) [
  | inl unknown ↦ rw unknown (ground arith)
  | inr (request, known) ↦ rw known (ground arith)
]

-- A task of the type "process", which the configuration names, is not known.
process_unknown :
    (config : XiaojincutConfig) → config.task_type ≡ "process" → request_of config ≡ none
unfolding request_of
process_unknown config h = rw h refl
