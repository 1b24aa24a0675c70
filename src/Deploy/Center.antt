-- ===== src/Deploy/Center.antt =====
-- src/infra/deploy_center.rs: the client of the deploy center. The answers to its requests are given;
-- the bodies of the requests are not modelled.
use xjp_deploy_agent.Prelude.{
  ltb, if◌then◌else◌, Option-cases, is_some, map_option, nat_eq, string_eq, ℕ, zero, suc, ◌+◌, ◌-◌,
  ◌*◌, String, ◌≡◌, inl, inr, Bool, true, false, ◌&&◌, Option, none, some, arith,
}
use xjp_deploy_agent.Prelude.Text.{◌⊕◌}
use xjp_deploy_agent.Project.{RemoteAgentConfig}
use xjp_deploy_agent.Http.{Answer, request_failed, answered, is_success, is_accepted}

pub record DeployCenterClient : Type 0 where
  pub callback_url : Option String

unfoldable pub new : Option String → DeployCenterClient
new callback_url = record { callback_url = callback_url }

unfoldable pub has_callback : DeployCenterClient → Bool
has_callback c = is_some c.callback_url

-- The address that `heartbeat` and `append_log` post to, if they do; what becomes of the request is
-- ignored.
unfoldable pub heartbeat : DeployCenterClient → (task_id : String) → Option String
heartbeat c task_id =
    map_option (λ url. url ⊕ "/api/deploy/logs/" ⊕ task_id ⊕ "/heartbeat") c.callback_url

unfoldable pub append_log : DeployCenterClient → (task_id : String) → Option String
append_log c task_id =
    map_option (λ url. url ⊕ "/api/deploy/logs/" ⊕ task_id ⊕ "/append") c.callback_url

pub data NotifyError : Type 0 where
  network : (error : String) → NotifyError
  non_success_status : NotifyError

-- What a notification comes to: an error, if it fails, the number of requests, and the seconds that
-- are waited between them.
pub record Notified : Type 0 where
  pub error : Option NotifyError
  pub requests : ℕ
  pub waited_secs : ℕ

unfoldable pub last_error_of : Answer → Option String → Option String
last_error_of (request_failed e) last_error = some e
last_error_of (answered code body) last_error = last_error

unfoldable pub give_up : Option String → Option NotifyError
give_up none = some non_success_status
give_up (some e) = some (network e)

-- The attempts of `do_notify` from `attempt` on, with `left` of them left.
unfoldable pub attempts :
    (answers : ℕ → Answer) → (left attempt : ℕ) → (last_error : Option String) → Notified
attempts answers zero attempt last_error = record {
  error = give_up last_error;
  requests = 0;
  waited_secs = 0;
}
attempts answers (suc left) attempt last_error =
    let rest = attempts answers left (attempt + 1) (last_error_of (answers attempt) last_error) in
    let pause : ℕ = if ltb attempt 3 then 2 else 0 in
    if is_accepted (answers attempt)
    then record { error = none; requests = 1; waited_secs = 0 }
    else record rest { requests = 1 + rest.requests; waited_secs = pause + rest.waited_secs }

unfoldable pub do_notify : (answers : ℕ → Answer) → Notified
do_notify answers = attempts answers 3 1 none

-- `notify_status` and `notify_status_with_stages`
unfoldable pub notify_status : DeployCenterClient → (answers : ℕ → Answer) → Notified
notify_status c answers = elim c.callback_url [
  | none ↦ record { error = none; requests = 0; waited_secs = 0 }
  | some url ↦ do_notify answers
]

-- `read_config` reads the body as JSON.
unfoldable pub fetch_config :
    (read_config : String → Option RemoteAgentConfig)
    → DeployCenterClient
    → Answer
    → Option RemoteAgentConfig
fetch_config read_config c answer = elim c.callback_url [
  | none ↦ none
  | some url ↦ elim answer [
    | request_failed e ↦ none
    | answered code body ↦ if is_success code then read_config body else none
  ]
]

-- The last request of the three that failed on the way.
abbrev last_failure : Answer → Answer → Answer → Option NotifyError
last_failure a b (request_failed e) = some (network e)
last_failure a (request_failed e) c = some (network e)
last_failure (request_failed e) b c = some (network e)
last_failure a b c = some non_success_status

abbrev first_accepted : Bool → Bool → Bool → ℕ
first_accepted true b c = 1
first_accepted false true c = 2
first_accepted false false true = 3
first_accepted false false false = 4

-- A notification of a client with a callback address succeeds exactly if one of the first three
-- requests is accepted; it sends no request after that one, and never a fourth, and waits two seconds
-- between two requests. When all three are in vain, the error is the last one of the network, or that
-- no answer was a success if the network did not fail. A client without the address succeeds and
-- sends nothing.
pub notify_status_lem :
    (c : DeployCenterClient) (answers : ℕ → Answer)
    → let n = notify_status c answers in
      let first =
        first_accepted
          (is_accepted (answers 1))
          (is_accepted (answers 2))
          (is_accepted (answers 3)) in
      (n.error ≡ (
        if has_callback c && ltb 3 first
        then last_failure (answers 1) (answers 2) (answers 3)
        else none))
      × (n.requests ≡ (if has_callback c then (if ltb 3 first then 3 else first) else 0))
      × (n.waited_secs ≡ 2 * (n.requests - 1))
unfolding notify_status has_callback do_notify attempts give_up last_error_of
notify_status_lem c answers = elim (Option-cases c.callback_url) [
  | inl missing ↦ rw missing (ground arith)
  | inr (url, there) ↦ rw there (ground arith)
]
