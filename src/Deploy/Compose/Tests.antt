-- ===== src/Deploy/Compose/Tests.antt =====
-- The theorems on the compose strategy at concrete inputs.
use xjp_deploy_agent.Prelude.{
  arith, String, is_some, nat_eq, string_eq, find, any, ◌*◌, ◌≡◌, refl, true, false, none, some, [],
  ◌∷◌, List,
}
use xjp_deploy_agent.Prelude.Text.{has_part, starts_with, byte_length, take_bytes}
use xjp_deploy_agent.Prelude.Int.{pos}
use xjp_deploy_agent.Deploy.DockerBuild.{ran}
use xjp_deploy_agent.Deploy.Compose.{DockerComposeConfig, Happening, canary_container_name, execute}
use xjp_deploy_agent.Deploy.Compose.Canary.{
  CanaryRun, Check, inspected, passes, panics, fails, excerpt, verdict, wait_rounds,
  wait_for_container_healthy, check_logs_for_fatal_patterns, is_ignored, fatal_patterns, interval,
  interval_128,
}
use xjp_deploy_agent.Deploy.Compose.Monitor.{
  Observation, running, run_post_deploy_monitor, monitor_rounds, restarts_since, check_new_logs,
}
use xjp_deploy_agent.Deploy.Compose.Waiting.{interval-le, wait_rounds_lem}
use xjp_deploy_agent.Deploy.Compose.Swap.{Ends, is_finished, execute_compose_lem}

abbrev web : DockerComposeConfig
web = record {
  compose_file = "compose.yml";
  image = "web";
  git_repo_dir = none;
  service = some "web";
  health_port = none;
}

abbrev good_canary : CanaryRun
good_canary = record {
  start = ran (some (pos 0));
  polls = λ n. inspected "running" "healthy";
  elapsed = λ n. n * 2000;
  checked = λ n. n * 2000;
  health_logs = none;
  http = ran (some (pos 0));
  logs = some ("listening" ∷ []);
}

-- The container is created anew while it is watched, and has fewer restarts than before.
abbrev recreated : List Observation
recreated =
    record { state = running 3 "healthy"; logs = none }
    ∷ record { state = running 0 "healthy"; logs = none }
    ∷ []

abbrev good : Happening
good = record {
  git_pull = ran none;
  docker_pull = ran (some (pos 0));
  is_cancelled = false;
  canary = good_canary;
  compose_up = ran (some (pos 0));
  observations = recreated;
  times = λ n. n;
}

-- `has_part` looks for the pattern's own characters, so that a pattern with `.*` finds no such line.
pattern_run : check_logs_for_fatal_patterns (λ s. s) ("database is unavailable" ∷ []) ≡ passes
unfolding check_logs_for_fatal_patterns is_ignored fatal_patterns any find has_part starts_with
pattern_run = refl

fatal_run :
    check_logs_for_fatal_patterns (λ s. s) ("ok" ∷ "a panic here" ∷ [])
    ≡ fails "panic (in: a panic here)"
unfolding check_logs_for_fatal_patterns is_ignored fatal_patterns any find has_part starts_with
    excerpt byte_length
fatal_run = refl

-- Its 80th and 81st bytes are one character.
abbrev long_line : String
long_line = "panicaaaaaaaaaaaaaaaaaaaaaaaaaaaaaaaaaaaaaaaaaaaaaaaaaaaaaaaaaaaaaaaaaaaaaaaaaaéé"

panic_run : check_logs_for_fatal_patterns (λ s. s) (long_line ∷ []) ≡ panics
unfolding check_logs_for_fatal_patterns is_ignored fatal_patterns any find has_part starts_with
    excerpt byte_length take_bytes
panic_run = refl

interval_run : interval 7 ≡ 1708
unfolding interval interval_128
interval_run = refl

wait_rounds_lem_example : (r : Check) × (wait_rounds 602 0 good_canary ≡ some r)
wait_rounds_lem_example = wait_rounds_lem good_canary (λ n. omega (arith, interval-le n))

execute_compose_lem_example :
    let r = execute (λ s. s) "deploy-1" web good in
    (r.1 ≡ true) × (Ends true r.0) × (is_finished r.0 ≡ true)
unfolding check_logs_for_fatal_patterns is_ignored fatal_patterns any find has_part starts_with
    wait_for_container_healthy wait_rounds verdict canary_container_name byte_length
execute_compose_lem_example = execute_compose_lem (λ s. s) "deploy-1" web good

-- Fewer restarts count as a crash loop.
recreated_run : is_some (run_post_deploy_monitor recreated).0 ≡ true
unfolding run_post_deploy_monitor monitor_rounds restarts_since check_new_logs
recreated_run = refl
