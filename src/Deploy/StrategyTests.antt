-- ===== src/Deploy/StrategyTests.antt =====
-- The theorems on the choice of the strategy, the video task and the deploy center at concrete inputs.
use xjp_deploy_agent.Prelude.{
  is_some, nat_eq, string_eq, any, ◌*◌, ◌≡◌, refl, true, false, none, some, [], ◌∷◌, arith,
}
use xjp_deploy_agent.Prelude.Int.{pos}
use xjp_deploy_agent.Http.{answered}
use xjp_deploy_agent.HashMap
use xjp_deploy_agent.Task
use xjp_deploy_agent.Task.{DeployTask, is_terminal}
use xjp_deploy_agent.TaskStore
use xjp_deploy_agent.TaskStore.Invariant.{IsValid}
use xjp_deploy_agent.LogHub
use xjp_deploy_agent.Persistence
use xjp_deploy_agent.Persistence.File.{saves}
use xjp_deploy_agent.Agent.{AgentState}
use xjp_deploy_agent.Agent.Running.{has_running_deploy}
use xjp_deploy_agent.Samples.{json, web, tasks, agent, web_runs, persisted}
use xjp_deploy_agent.Deploy.Script
use xjp_deploy_agent.Deploy.Script.{is_success}
use xjp_deploy_agent.Deploy.DockerBuild
use xjp_deploy_agent.Deploy.DockerBuild.{ran}
use xjp_deploy_agent.Deploy.Compose.Canary.{CanaryRun, inspected}
use xjp_deploy_agent.Deploy.Xiaojincut
use xjp_deploy_agent.Deploy.Xiaojincut.{XiaojincutConfig, request_of, execute_xiaojincut_lem}
use xjp_deploy_agent.Deploy.Strategy.{Work, run_strategy, execute_project, execute_project_lem}
use xjp_deploy_agent.Deploy.Compose.Swap.{is_finished}

abbrev answers_well : Xiaojincut.Happening
answers_well = record { health = some (answered 200 "ok"); result = answered 200 "done" }

abbrev task : DeployTask
task = record {
  id = "t0";
  project = "web";
  status = Task.running;
  started_at = 5;
  finished_at = none;
  exit_code = none;
  stages = [];
}

abbrev at_work : AgentState json
at_work = agent web_runs [] (tasks (("t0", task) ∷ [])) (persisted "t0" "running" ∷ [])

at_work-IsValid : IsValid at_work.task_store
unfolding HashMap.contains_key is_terminal
at_work-IsValid = record {
  bounded = omega arith;
  distinct = (refl, tt);
  sound = ((refl, λ h. cc), tt);
  ended = tt;
}

abbrev canary : CanaryRun
canary = record {
  start = ran (some (pos 0));
  polls = λ n. inspected "running" "healthy";
  elapsed = λ n. n * 2000;
  checked = λ n. n * 2000;
  health_logs = none;
  http = ran (some (pos 0));
  logs = none;
}

abbrev work : Work
work = record {
  by_script = record {
    pull = Script.pulled;
    cancelled_early = false;
    spawn_error = none;
    ending = Script.exited false (some (pos 3));
    at_start = 1;
    at_pull = 2;
    at_script = 2;
    at_end = 3;
  };
  by_compose = record {
    git_pull = ran none;
    docker_pull = ran none;
    is_cancelled = false;
    canary = canary;
    compose_up = ran none;
    observations = [];
    times = λ n. n;
  };
  by_build = record {
    pull = ran none;
    revision = none;
    cancelled_after_pull = false;
    build = DockerBuild.cancelled;
    cancelled_before_push = false;
    push = ran none;
    cancelled_before_latest = false;
    push_latest = ran none;
    times = λ n. n;
  };
  by_xiaojincut = answers_well;
}

execute_project_lem_example :
    let s = execute_project (λ text. text) json at_work "t0" "web" web work 9 saves in
    ((done : DeployTask) × (TaskStore.get_any s.task_store "t0" ≡ some done)
      × (is_terminal done.status ≡ true)
      × (is_some done.exit_code ≡ true)
      × (done.finished_at ≡ some 9)
      × (has_running_deploy s.running_deploys "web" ≡ false)
      × (LogHub.subscribe s.log_hub "t0" ≡ none)
      × (any (Persistence.has_id "t0") s.queue_persistence.queue.tasks ≡ false))
    × (is_finished (run_strategy (λ text. text) "t0" web.deploy_type work) ≡ true)
unfolding TaskStore.get HashMap.get run_strategy
execute_project_lem_example =
    execute_project_lem (λ text. text) json at_work "t0" "web" 9 saves task web work at_work-IsValid
      (omega arith) refl
