-- ===== src/Restart/Tests.antt =====
-- The theorem on the restart at a concrete input.
use xjp_deploy_agent.Prelude.{ltb, leb, nat_eq, string_eq, ◌%◌, ◌≡◌, refl, true, false, none, some}
use xjp_deploy_agent.Restart.{not_run, ended, Windows, restart_windows_service, scheduled_time}
use xjp_deploy_agent.Restart.Scheduled.{is_arranged, task_time, restart_windows_service_lem}

abbrev no_recovery : Windows
no_recovery = record {
  recovery = ended false "access denied";
  now = 3630;
  create_task = ended true "";
  script_error = none;
  wmic = not_run "not found";
  start_error = none;
}

scheduled_run : scheduled_time 3630 ≡ 3600
unfolding scheduled_time
scheduled_run = refl

restart_windows_service_lem_example :
    (is_arranged (restart_windows_service no_recovery) ≡ true)
    × (task_time (restart_windows_service no_recovery) ≡ some (scheduled_time 3630))
    × (leb (scheduled_time 3630) 3630 ≡ ltb (3630 % 60) 50)
restart_windows_service_lem_example = restart_windows_service_lem no_recovery
