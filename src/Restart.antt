-- ===== src/Restart.antt =====
-- src/services/restart.rs: how the agent has itself restarted. What the system's commands come to is
-- given; their arguments are modelled where the code computes them. Times are seconds.
pub mod Scheduled
mod Tests
use xjp_deploy_agent.Prelude.{
  if◌then◌else◌, nat_eq, string_eq, ℕ, ◌+◌, ◌*◌, ◌/◌, String, ◌⊎◌, inl, inr, Bool, true, false,
  Option, none, some,
}
use xjp_deploy_agent.Prelude.Text.{◌⊕◌}
use xjp_deploy_agent.Update.{RestartMode}
use xjp_deploy_agent.Update

pub data RestartError : Type 0 where
  command_failed : String → RestartError
  io : String → RestartError

-- A command that could not be run, or that ended, with success or not, and with what it printed.
pub data Run : Type 0 where
  not_run : (error : String) → Run
  ended : (is_successful : Bool) → (stderr : String) → Run

-- The ways in which a restart can come about.
pub data Way : Type 0 where
  systemd_run service_recovery batch_script : Way
  scheduled_task : (at : ℕ) → Way

abbrev pub Restarted : Type 0
Restarted = RestartError ⊎ Way

unfoldable pub restart_unix_service : Run → Restarted
restart_unix_service (not_run e) = inl (io e)
restart_unix_service (ended true stderr) = inr systemd_run
restart_unix_service (ended false stderr) = inl (command_failed stderr)

-- `exec` only returns with an error; where it does not, the new binary runs.
unfoldable pub restart_unix_console : (exec_error : String) → RestartError
restart_unix_console exec_error = command_failed ("exec failed: " ⊕ exec_error)

-- What the steps for a Windows service meet.
pub record Windows : Type 0 where
  pub recovery : Run
  pub now : ℕ
  pub create_task : Run
  pub script_error : Option String
  pub wmic : Run
  pub start_error : Option String

unfoldable pub start_script : Option String → Restarted
start_script none = inr batch_script
start_script (some e) = inl (command_failed e)

-- The script is written, and started by WMIC or, if that fails, by `start`.
unfoldable pub restart_windows_service_fallback : Windows → Restarted
restart_windows_service_fallback w = elim w.script_error [
  | some e ↦ inl (io e)
  | none ↦ elim w.wmic [
    | ended is_successful stderr ↦
        if is_successful then inr batch_script else start_script w.start_error
    | not_run e ↦ start_script w.start_error
  ]
]

-- The task is set for ten seconds later, written in hours and minutes.
unfoldable pub scheduled_time : (now : ℕ) → ℕ
scheduled_time now = (now + 10) / 60 * 60

unfoldable pub restart_via_schtasks : Windows → Restarted
restart_via_schtasks w = elim w.create_task [
  | not_run e ↦ inl (io e)
  | ended is_successful stderr ↦
      if is_successful
      then inr (scheduled_task (scheduled_time w.now))
      else restart_windows_service_fallback w
]

unfoldable pub restart_windows_service : Windows → Restarted
restart_windows_service w = elim w.recovery [
  | not_run e ↦ restart_via_schtasks w
  | ended is_successful stderr ↦
      if is_successful then inr service_recovery else restart_via_schtasks w
]

unfoldable pub start_console : Option String → Restarted
start_console none = inr batch_script
start_console (some e) = inl (io e)

-- The console mode has no error of its own for the script's start: it is the system's.
unfoldable pub restart_windows_console : Windows → Restarted
restart_windows_console w = elim w.script_error [
  | some e ↦ inl (io e)
  | none ↦ elim w.wmic [
    | ended is_successful stderr ↦
        if is_successful then inr batch_script else start_console w.start_error
    | not_run e ↦ start_console w.start_error
  ]
]

unfoldable pub schedule_restart_windows : RestartMode → Windows → Restarted
schedule_restart_windows Update.service w = restart_windows_service w
schedule_restart_windows Update.console w = restart_windows_console w
