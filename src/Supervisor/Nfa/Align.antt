-- ===== src/Supervisor/Nfa/Align.antt =====
-- src/services/nfa.rs: the requests that are passed on to the alignment service. JSON is a parameter.
pub mod Polls
use xjp_deploy_agent.Prelude.{
  ltb, nat_beq, if◌then◌else◌, unwrap_or, ◌==◌, nat_eq, string_eq, ℕ, ◌+◌, ◌*◌, String, not, ◌||◌,
  Option, none, some, List, [], ◌∷◌,
}
use xjp_deploy_agent.Prelude.Text.{◌⊕◌}
use xjp_deploy_agent.Http.{Answer, request_failed, answered, is_success}
use xjp_deploy_agent.Supervisor.{ProcessState, Query, process_state}
use xjp_deploy_agent.Supervisor.Nfa.{NfaConfig, Starting, ensure_running, nfa_texts, disabled}

-- `serde_json`: what a body is read as, the text of a field, if it is one, and a field's value; and
-- how an error of it and a status are written.
pub record Json : Type 1 where
  pub Value : Type 0
  pub from_str : String → Option Value
  pub str_field : Value → String → Option String
  pub field : Value → String → Option Value
  pub parse_error : String → String
  pub status_text : ℕ → String

pub data Result {ℓ} (A : Type ℓ) : Type ℓ where
  ok : A → Result A
  err : String → Result A

module _ (json : Json) where
  open json use {Value, from_str, str_field, field, parse_error, status_text}

  abbrev http_error : (what : String) → ℕ → String → String
  http_error what code raw = what ⊕ " error " ⊕ status_text code ⊕ ": " ⊕ raw

  abbrev json_error : (what : String) → String → String
  json_error what raw = "Invalid NFA " ⊕ what ⊕ " JSON: " ⊕ parse_error raw ⊕ " (" ⊕ raw ⊕ ")"

  abbrev ok_or : Option String → String → Result String
  ok_or none e = err e
  ok_or (some v) e = ok v

  unfoldable pub create_job : Answer → Result String
  create_job (request_failed e) = err ("NFA create job failed: " ⊕ e)
  create_job (answered code raw) =
      if nat_beq code 404
      then err "NFA job endpoint not found"
      else if not (is_success code)
      then err (http_error "NFA create job" code raw)
      else elim (from_str raw) [
        | none ↦ err (json_error "create job" raw)
        | some v ↦ ok_or (str_field v "job_id") ("Missing job_id in NFA response: " ⊕ raw)
      ]

  -- What one answer means to the loop of `poll_job`: it goes on, or it ends with a result.
  pub data Polled : Type 0 where
    waits : Polled
    ends : Result Value → Polled

  unfoldable pub read_status : Value → Polled
  read_status v =
      let status = unwrap_or (str_field v "status") "unknown" in
      if status == "done"
      then ends (ok (unwrap_or (field v "result") v))
      else if status == "failed"
      then ends (err ("NFA job failed: " ⊕ unwrap_or (str_field v "error") "unknown error"))
      else if status == "pending" || status == "running"
      then waits
      else ends (err ("Unknown NFA job status: " ⊕ status))

  unfoldable pub read_poll : Answer → Polled
  read_poll (request_failed e) = ends (err ("NFA poll failed: " ⊕ e))
  read_poll (answered code raw) =
      if not (is_success code)
      then ends (err (http_error "NFA poll" code raw))
      else elim (from_str raw) [
        | none ↦ ends (err (json_error "poll" raw))
        | some v ↦ read_status v
      ]

  -- The loop of `poll_job` over the looks at the clock, each with the answer to the request that
  -- follows it in time; `none` where it still polls when the list ends.
  unfoldable pub poll_job :
      (deadline : ℕ) → (timeout : String) → List (ℕ × Answer) → Option (Result Value)
  poll_job deadline timeout [] = none
  poll_job deadline timeout ((now, answer) ∷ polls) =
      let rest = poll_job deadline timeout polls in
      if ltb now deadline
      then elim (read_poll answer) [ waits ↦ rest | ends result ↦ some result ]
      else some (err timeout)

  unfoldable pub align_sync : Answer → Result Value
  align_sync (request_failed e) = err ("NFA sync align failed: " ⊕ e)
  align_sync (answered code raw) =
      if not (is_success code)
      then err (http_error "NFA sync align" code raw)
      else elim (from_str raw) [ none ↦ err (json_error "sync align" raw) | some v ↦ ok v ]

  unfoldable pub read_jobs : Answer → Result (Option Value)
  read_jobs (request_failed e) = err ("NFA jobs request failed: " ⊕ e)
  read_jobs (answered code raw) =
      if not (is_success code) then err (http_error "NFA jobs" code raw) else elim (from_str raw) [
        | none ↦ err ("Invalid NFA jobs JSON: " ⊕ parse_error raw)
        | some v ↦ ok (some v)
      ]

  -- What a call of `align` meets; `decimal_secs` is how the timeout is written.
  pub record Aligning : Type 0 where
    pub starting : Starting
    pub created : Answer
    pub polled_at : ℕ
    pub decimal_secs : String
    pub polls : List (ℕ × Answer)
    pub sync : Answer

  -- `align` of a supervisor whose semaphore is never closed, as it is in the code.
  unfoldable pub align : NfaConfig → ProcessState → Aligning → ProcessState × Option (Result Value)
  align config s at =
      let (s', error) = ensure_running config s at.starting in
      let deadline = at.polled_at + 1000 * config.job_timeout_secs in
      let timeout = "NFA job timed out after " ⊕ at.decimal_secs ⊕ "s" in
      elim error [
        | some e ↦ (s', some (err e))
        | none ↦ elim (create_job at.created) [
          | ok job_id ↦ (s', poll_job deadline timeout at.polls)
          | err e ↦ (s', some (align_sync at.sync))
        ]
      ]

  -- `get_jobs`; `none` stands for the fixed answer that says that the service does not run.
  unfoldable pub get_jobs :
      NfaConfig → ProcessState → Query → Answer → ProcessState × Result (Option Value)
  get_jobs config s query answer =
      let (s', running, pid) = process_state nfa_texts s query in
      if not config.enabled
      then (s, err disabled)
      else if running
      then (s', read_jobs answer)
      else (s', ok none)
