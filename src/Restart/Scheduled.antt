-- ===== src/Restart/Scheduled.antt =====
-- src/services/restart.rs: the restart of a Windows service.
use xjp_deploy_agent.Prelude.{
  ltb, leb, if◌then◌else◌, Bool-cases, is_some, nat_eq, string_eq, ℕ, ◌%◌, ◌≡◌, inl, inr, Bool,
  true, false, not, ◌&&◌, ◌||◌, Option, none, some, arith,
}
use xjp_deploy_agent.Restart.{
  Run, not_run, ended, Restarted, scheduled_task, Windows, start_script, restart_windows_service,
  restart_windows_service_fallback, restart_via_schtasks, scheduled_time,
}

abbrev pub works : Run → Bool
works (not_run e) = false
works (ended is_successful stderr) = is_successful

abbrev pub could_run : Run → Bool
could_run (not_run e) = false
could_run (ended is_successful stderr) = true

abbrev pub is_arranged : Restarted → Bool
is_arranged (inl e) = false
is_arranged (inr way) = true

-- The script is written, and one of the two ways to start it works.
abbrev pub has_script : Windows → Bool
has_script w = not (is_some w.script_error) && (works w.wmic || not (is_some w.start_error))

abbrev pub task_time : Restarted → Option ℕ
task_time (inr (scheduled_task at)) = some at
task_time other = none

fallback_lem :
    (w : Windows)
    → (is_arranged (restart_windows_service_fallback w) ≡ has_script w)
      × (task_time (restart_windows_service_fallback w) ≡ none)
unfolding restart_windows_service_fallback start_script
fallback_lem w = (ground arith, ground arith)

scheduled_time_past : (now : ℕ) → leb (scheduled_time now) now ≡ ltb (now % 60) 50
unfolding scheduled_time
scheduled_time_past now = elim (Bool-cases (ltb (now % 60) 50)) [
  | inl early ↦ ground (arith, early)
  | inr late ↦ ground (arith, late)
]

-- The restart of a Windows service is arranged exactly if the recovery options can be set, or a task
-- can be created, or `schtasks` could at least be run and the script can be written and started: if
-- `schtasks` cannot be run, the script is not tried. A task is created exactly if the recovery
-- options cannot be set and it can be; its time is not after now in the first fifty seconds of every
-- minute.
pub restart_windows_service_lem :
    (w : Windows)
    → (is_arranged (restart_windows_service w)
        ≡ (works w.recovery || works w.create_task || (could_run w.create_task && has_script w)))
      × (task_time (restart_windows_service w) ≡ (
          if not (works w.recovery) && works w.create_task
          then some (scheduled_time w.now)
          else none))
      × (leb (scheduled_time w.now) w.now ≡ ltb (w.now % 60) 50)
unfolding restart_windows_service restart_via_schtasks
restart_windows_service_lem w =
    let (arranged, untimed) = fallback_lem w in
    (
      ground (arith, arranged, untimed),
      ground (arith, arranged, untimed),
      scheduled_time_past w.now,
    )
