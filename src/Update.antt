-- ===== src/Update.antt =====
-- src/config/autoupdate.rs and src/services/autoupdate.rs: the state of the automatic update, and what
-- the update meets outside the program: the download, the files, the canary and the new process. A
-- binary is its bytes; the texts of results and errors are constructors. SHA-256 and `to_lowercase`
-- are parameters.
pub mod Version
pub mod Source
pub mod Apply
pub mod Check
pub mod Safety
pub mod Flags
mod Tests
use xjp_deploy_agent.Prelude.{ℕ, String, Bool, false, Option, none, List}

pub record UpdateMetadata : Type 0 where
  pub version : String
  pub released_at : String
  pub changelog : Option String
  pub sha256 : Option String

pub record AutoUpdateConfig : Type 0 where
  pub enabled : Bool
  pub endpoint : String
  pub metadata_path : String
  pub binary_path_template : String
  pub check_interval_secs : ℕ

pub data UpdateError : Type 0 where
  metadata_failed download_failed checksum_failed canary_failed : UpdateError
  io_failed replace_failed restart_failed : UpdateError

-- What `last_check_result` says.
pub data CheckResult : Type 0 where
  up_to_date : CheckResult
  deferred : (version : String) (running : ℕ) → CheckResult
  updated : (version : String) → CheckResult
  update_failed check_failed : UpdateError → CheckResult

pub record AutoUpdateState : Type 0 where
  pub last_check : Option ℕ
  pub last_check_result : Option CheckResult
  pub latest_version : Option String
  pub update_available : Bool
  pub update_progress : String
  pub next_check : Option ℕ
  pub pending_update : Option UpdateMetadata
  pub update_in_progress : Bool

unfoldable pub new : AutoUpdateState
new = record {
  last_check = none;
  last_check_result = none;
  latest_version = none;
  update_available = false;
  update_progress = "none";
  next_check = none;
  pending_update = none;
  update_in_progress = false;
}

-- The agent's own binary, its backup and the downloaded one.
pub record Binaries : Type 0 where
  pub current : Option (List ℕ)
  pub backup : Option (List ℕ)
  pub temp : Option (List ℕ)

pub record Updater : Type 0 where
  pub state : AutoUpdateState
  pub binaries : Binaries

unfoldable pub set_progress : String → Updater → Updater
set_progress progress u = record {
  state = record u.state { update_progress = progress };
  binaries = u.binaries;
}

unfoldable pub set_pending_update : Option UpdateMetadata → AutoUpdateState → AutoUpdateState
set_pending_update metadata s = record s { pending_update = metadata }

unfoldable pub set_update_in_progress : Bool → AutoUpdateState → AutoUpdateState
set_update_in_progress in_progress s = record s { update_in_progress = in_progress }

-- How a function of the update ends: it returns, it returns an error, or the process exits.
pub data Ended : Type 0 where
  returned : Ended
  failed : UpdateError → Ended
  exited : Ended

-- How a download goes: nothing is written, it breaks off with some bytes written, or it completes.
pub data Download : Type 0 where
  refused : Download
  broken complete : List ℕ → Download

-- How the canary does: it cannot be started, it exits within the five seconds, its state cannot be
-- read, its health request fails or is answered with a status.
pub data Canary : Type 0 where
  not_started exits_early unknown unanswered : Canary
  answers : (status : ℕ) → Canary

-- How the new process of a takeover does, up to the old one's decision.
pub data NewProcess : Type 0 where
  not_spawned gone_early unread_early taken_over gone_late running_late unread_late : NewProcess

pub data TunnelMode : Type 0 where
  server client disabled : TunnelMode

pub data RestartMode : Type 0 where
  service console : RestartMode

-- Everything that an update meets outside: each flag says whether that call succeeds.
pub record World : Type 0 where
  pub download : Download
  pub reads_temp : Bool
  pub canary : Canary
  pub knows_current_exe : Bool
  pub backs_up : Bool
  pub replaces : Bool
  pub restores : Bool
  pub sets_permissions : Bool
  pub removes_temp : Bool
  pub removes_backup : Bool
  pub on_windows : Bool
  pub is_service : Bool
  pub tunnel_mode : TunnelMode
  pub new_process : NewProcess
  pub schedules_restart : RestartMode → Bool
