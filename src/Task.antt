-- ===== src/Task.antt =====
-- src/domain/deploy.rs: deploy tasks, their status and their log lines. (`Task.Stage` has the
-- stages, `Project` the deploy types.) Times are milliseconds, given by the caller where the code
-- reads `Utc::now()`.
pub mod Stage
use xjp_deploy_agent.Prelude.{ℕ, String, Bool, true, false, Option, none, some, List, []}
use xjp_deploy_agent.Prelude.Int.{ℤ}
use Stage.{DeployStage}

pub data DeployStatus : Type 0 where
  queued running success failed : DeployStatus

unfoldable pub as_str : DeployStatus → String
as_str queued = "queued"
as_str running = "running"
as_str success = "success"
as_str failed = "failed"

unfoldable pub is_terminal : DeployStatus → Bool
is_terminal success = true
is_terminal failed = true
is_terminal _ = false

pub record DeployTask : Type 0 where
  pub id : String
  pub project : String
  pub status : DeployStatus
  pub started_at : ℕ
  pub finished_at : Option ℕ
  pub exit_code : Option ℤ
  pub stages : List DeployStage

unfoldable pub new : String → String → ℕ → DeployTask
new id project now = record {
  id = id;
  project = project;
  status = running;
  started_at = now;
  finished_at = none;
  exit_code = none;
  stages = [];
}

unfoldable pub new_queued : String → String → ℕ → DeployTask
new_queued id project now = record {
  id = id;
  project = project;
  status = queued;
  started_at = now;
  finished_at = none;
  exit_code = none;
  stages = [];
}

unfoldable pub complete : DeployTask → DeployStatus → Option ℤ → ℕ → DeployTask
complete t status exit_code now = record t {
  status = status;
  finished_at = some now;
  exit_code = exit_code;
}

unfoldable pub set_status : DeployTask → DeployStatus → DeployTask
set_status t status = record t { status = status }

pub record LogLine : Type 0 where
  pub timestamp : ℕ
  pub stream : String
  pub content : String

unfoldable pub log_line : String → String → ℕ → LogLine
log_line stream content now = record { timestamp = now; stream = stream; content = content }
