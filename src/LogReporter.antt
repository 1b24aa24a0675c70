-- ===== src/LogReporter.antt =====
-- src/services/log_reporter.rs: the agent's own log, which is reported to the deploy center every
-- thirty seconds. `journalctl` is asked through what it prints (`Output`); the answer of the deploy
-- center and the reading of a time stamp by chrono are given. Times are milliseconds.
pub mod Reports
pub mod Delivery
pub mod Loss
mod Tests
use xjp_deploy_agent.Prelude.{
  if◌then◌else◌, unwrap_or, nat_eq, string_eq, retain, take, ℕ, ◌-◌, ◌*◌, ◌/◌, String, Bool, true,
  false, not, Option, none, some, List, [], ◌∷◌, map,
}
use xjp_deploy_agent.Prelude.Text.{◌⊕◌, decimal_port, is_empty_text, split}
use xjp_deploy_agent.Http.{Answer, request_failed, answered, is_success}
use xjp_deploy_agent.Update.{TunnelMode}
use xjp_deploy_agent.Update

abbrev pub report_interval_secs : ℕ
report_interval_secs = 30

abbrev pub max_lines_per_batch : ℕ
max_lines_per_batch = 200

pub record LogReporterState : Type 0 where
  pub last_report : Option ℕ
  pub last_result : Option String

unfoldable pub new : LogReporterState
new = record { last_report = none; last_result = none }

pub record LogLineEntry : Type 0 where
  pub line : String
  pub timestamp : Option ℕ

pub record ReportLogsRequest : Type 0 where
  pub agent_id : String
  pub agent_url : String
  pub logs : List LogLineEntry

-- What a run of `journalctl` comes to: it ends, with success or not, and has printed lines; it cannot
-- be run; or it takes longer than ten seconds.
pub data Output : Type 0 where
  ended : (is_successful : Bool) → (lines : List String) → Output
  not_run timed_out : Output

unfoldable pub fetch_journalctl_logs : Output → List String
fetch_journalctl_logs (ended true lines) = retain (λ line. not (is_empty_text line)) lines
fetch_journalctl_logs (ended false lines) = []
fetch_journalctl_logs not_run = []
fetch_journalctl_logs timed_out = []

abbrev first_part : List String → String
first_part [] = ""
first_part (part ∷ parts) = part

-- The words in front of the first blank, read by chrono.
unfoldable pub parse_journalctl_timestamp : (parse_from_str : String → Option ℕ) → String → Option ℕ
parse_journalctl_timestamp parse_from_str line = parse_from_str (first_part (split 32 line))

-- What the reporter knows of the agent.
pub record Reporter : Type 0 where
  pub callback_url : String
  pub agent_id : String
  pub agent_url : String
  pub parse_from_str : String → Option ℕ

unfoldable pub entries_of : Reporter → List String → List LogLineEntry
entries_of r lines =
    map
      (λ line. record { line = line; timestamp = parse_journalctl_timestamp r.parse_from_str line })
      (take max_lines_per_batch lines)

-- The moment from which the lines are asked for.
unfoldable pub since : LogReporterState → (now : ℕ) → ℕ
since s now = unwrap_or s.last_report (now - 1000 * report_interval_secs)

-- A date and a time of day without a zone, as the seconds from the start of 1970 on the same clock.
abbrev pub WallClock : Type 0
WallClock = ℕ

-- What `--since` names: the time of UTC, without the fraction, and without a zone. `journalctl` reads it
-- on the clock of the machine's own zone.
unfoldable pub since_secs : LogReporterState → (now : ℕ) → WallClock
since_secs s now = since s now / 1000

-- What a report meets: the moment, what `journalctl` prints for the time it is asked for, the answer to
-- the request, and how a status and a number are written.
pub record Round : Type 0 where
  pub now : ℕ
  pub journal : (since : WallClock) → Output
  pub answer : Answer
  pub status_text : String
  pub count_text : String

-- What a report did: the request that it sent, if it did, and its error, if it had one.
pub record Report : Type 0 where
  pub state : LogReporterState
  pub sent : Option ReportLogsRequest
  pub error : Option String

abbrev reported : LogReporterState → ℕ → String → LogReporterState
reported s now result = record s { last_report = some now; last_result = some result }

unfoldable pub conclude : LogReporterState → Round → ReportLogsRequest → Report
conclude s r request = elim r.answer [
  | request_failed e ↦ record { state = s; sent = some request; error = some e }
  | answered code body ↦
      if is_success code
      then record {
        state = reported s r.now ("Reported " ⊕ r.count_text ⊕ " logs");
        sent = some request;
        error = none;
      }
      else record {
        state = s;
        sent = some request;
        error = some ("HTTP " ⊕ r.status_text ⊕ ": " ⊕ body);
      }
]

unfoldable pub report_lines : Reporter → LogReporterState → Round → List String → Report
report_lines reporter s r [] = record {
  state = reported s r.now "No new logs";
  sent = none;
  error = none;
}
report_lines reporter s r (line ∷ lines) = conclude s r (record {
  agent_id = reporter.agent_id;
  agent_url = reporter.agent_url;
  logs = entries_of reporter (line ∷ lines);
})

unfoldable pub report_logs : Reporter → LogReporterState → Round → Report
report_logs reporter s r =
    report_lines reporter s r (fetch_journalctl_logs (r.journal (since_secs s r.now)))

abbrev noted : Report → LogReporterState
noted done = elim done.error [
  | none ↦ done.state
  | some e ↦ record done.state { last_result = some ("Error: " ⊕ e) }
]

-- The loop of `start`, over its rounds; the reports in their order.
unfoldable pub report_rounds :
    Reporter → LogReporterState → List Round → LogReporterState × List Report
report_rounds reporter s [] = (s, [])
report_rounds reporter s (r ∷ rs) =
    let done = report_logs reporter s r in
    let (last, reports) = report_rounds reporter (noted done) rs in (last, done ∷ reports)

-- Without a callback address nothing is reported.
unfoldable pub start : Option String → Reporter → List Round → List Report
start none reporter rs = []
start (some callback_url) reporter rs =
    (report_rounds (record reporter { callback_url = callback_url }) new rs).1

unfoldable pub report_url : Reporter → String
report_url r = r.callback_url ⊕ "/api/deploy/agents/" ⊕ r.agent_id ⊕ "/service-logs"

-- The address that the agent is reached at: through the tunnel, if it is its client.
unfoldable pub get_agent_url :
    TunnelMode
    → (callback_url : Option String) → (client_id hostname : String) → (port : ℕ) → String
get_agent_url Update.client (some callback_url) client_id hostname port =
    callback_url ⊕ "/tunnel/proxy/" ⊕ client_id
get_agent_url mode callback_url client_id hostname port =
    "http://" ⊕ hostname ⊕ ":" ⊕ decimal_port port
