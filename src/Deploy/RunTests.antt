-- ===== src/Deploy/RunTests.antt =====
-- The theorems on the run of deploys, on their logs and on the recovery at concrete inputs.
use xjp_deploy_agent.Prelude.{
  String, nat_eq, string_eq, retain, any, take, ◌≤◌, ◌≡◌, refl, true, false, not, none, some, List,
  [], ◌∷◌, ◌++◌, arith,
}
use xjp_deploy_agent.Deploy.DockerBuild
use xjp_deploy_agent.Deploy.DockerBuild.{DockerBuildConfig, ran, full_image, commit_hash}
use xjp_deploy_agent.Deploy.DockerBuild.Pushed.{Ends, execute_build_lem}
use xjp_deploy_agent.Prelude.Int.{pos}
use xjp_deploy_agent.HashMap
use xjp_deploy_agent.Task
use xjp_deploy_agent.Task.{DeployTask, queued as is_queued, running}
use xjp_deploy_agent.TaskStore
use xjp_deploy_agent.TaskStore.Invariant.{IsValid}
use xjp_deploy_agent.LogHub
use xjp_deploy_agent.Persistence
use xjp_deploy_agent.Persistence.File.{saves}
use xjp_deploy_agent.Agent.{AgentState}
use xjp_deploy_agent.Agent.Queue.Fifo.{waiting}
use xjp_deploy_agent.Agent.Running.{has_running_deploy}
use xjp_deploy_agent.Samples.{
  json, no_center, web, queued, persisted, tasks, agent, nothing_runs, web_runs, arrival, outcome,
  round, idle,
}
use xjp_deploy_agent.Deploy.Trigger
use xjp_deploy_agent.Deploy.Trigger.{trigger_deploy, find_project, decide, starts, max_queue_size}
use xjp_deploy_agent.Deploy.Execute.{execute_single, process_queue}
use xjp_deploy_agent.Deploy.Execute.Finish.{execute_single_lem}
use xjp_deploy_agent.Deploy.Execute.Drain.{Drained, process_queue_lem}
use xjp_deploy_agent.Deploy.Queries.{TaskHistoryQuery, get_recent_tasks}
use xjp_deploy_agent.Deploy.Queries.Recent.{get_recent_tasks_lem}
use xjp_deploy_agent.Deploy.Script
use xjp_deploy_agent.Deploy.Script.{Happening, execute_lem, is_stage_success, second}
use xjp_deploy_agent.Deploy.Recover.{recover_all, find_config}
use xjp_deploy_agent.Deploy.Recover.Order.{queued_again, waiting-recover_all}

abbrev task : DeployTask
task = record {
  id = "t0";
  project = "web";
  status = running;
  started_at = 5;
  finished_at = none;
  exit_code = none;
  stages = [];
}

-- The running deploy with its task, and its entry in the persisted queue.
abbrev running_agent : AgentState json
running_agent =
    agent web_runs (("web", queued "t1" ∷ []) ∷ []) (tasks (("t0", task) ∷ []))
      (persisted "t0" "running" ∷ [])

running_agent-IsValid : IsValid running_agent.task_store
unfolding HashMap.contains_key Task.is_terminal
running_agent-IsValid = record {
  bounded = omega arith;
  distinct = (refl, tt);
  sound = ((refl, λ h. cc), tt);
  ended = tt;
}

execute_single_lem_example :
    let s = execute_single json running_agent "t0" "web" outcome 9 saves in
    (TaskStore.get_any s.task_store "t0"
      ≡ some
          (record task { status = Task.success; exit_code = some (pos 0); finished_at = some 9 }))
    × (has_running_deploy s.running_deploys "web" ≡ false)
    × (LogHub.subscribe s.log_hub "t0" ≡ none)
    × (any (Persistence.has_id "t0") s.queue_persistence.queue.tasks ≡ false)
    × (s.deploy_queue ≡ running_agent.deploy_queue)
unfolding TaskStore.get HashMap.get
execute_single_lem_example =
    execute_single_lem json running_agent "t0" "web" outcome 9 saves task running_agent-IsValid
      (omega arith) refl

-- A deploy has ended, and two wait, whose tasks are active.
abbrev waiting_task : String → DeployTask
waiting_task id = record task { id = id; status = is_queued }

abbrev next : AgentState json
next =
    agent nothing_runs (("web", queued "t1" ∷ queued "t2" ∷ []) ∷ [])
      (tasks (("t1", waiting_task "t1") ∷ ("t2", waiting_task "t2") ∷ []))
      (persisted "t1" "queued" ∷ persisted "t2" "queued" ∷ [])

next-IsValid : IsValid next.task_store
unfolding HashMap.contains_key Task.is_terminal
next-IsValid = record {
  bounded = omega arith;
  distinct = (refl, (refl, tt));
  sound = ((refl, λ h. cc), ((refl, λ h. cc), tt));
  ended = tt;
}

process_queue_lem_example :
    let r = process_queue json 5 round next "web" in
    Drained json round "web" 5 next (queued "t1" ∷ queued "t2" ∷ []) (r.0, r.1)
unfolding has_running_deploy HashMap.contains_key HashMap.get TaskStore.get
process_queue_lem_example =
    process_queue_lem json round "web" 5 next (omega arith) next-IsValid (omega arith)
      (refl, (refl, tt), (refl, tt, tt)) refl

abbrev happening : Happening
happening = record {
  pull = Script.pull_failed;
  cancelled_early = false;
  spawn_error = none;
  ending = Script.exited true (some (pos 0));
  at_start = 1;
  at_pull = 2;
  at_script = 2;
  at_end = 3;
}

abbrev draw : Persistence.PersistedTask → Trigger.Arrival json
draw t = arrival "unused"

abbrev waited : List Persistence.PersistedTask
waited = persisted "t1" "queued" ∷ persisted "t2" "queued" ∷ []

waiting-recover_all_example :
    waiting (recover_all json no_center draw idle waited).0.deploy_queue "web"
    ≡ waiting idle.deploy_queue "web" ++ queued_again "web" web waited
unfolding find_config xjp_deploy_agent.Agent.get_project HashMap.get
waiting-recover_all_example = waiting-recover_all json no_center draw idle waited "web" web refl

abbrev web_tasks : TaskHistoryQuery
web_tasks = record { limit = 2; project = some "web"; status = none }

get_recent_tasks_lem_example :
    let s = running_agent.task_store in
    ((get_recent_tasks s web_tasks).tasks
      ≡ take 2 (
          retain
            (TaskStore.matches (some "web") none)
            (retain (λ t. not (Task.is_terminal t.status)) (TaskStore.get_all s) ++ s.history)))
    × ((get_recent_tasks s web_tasks).total ≤ 2)
get_recent_tasks_lem_example = get_recent_tasks_lem running_agent.task_store web_tasks

abbrev build_config : DockerBuildConfig
build_config = record {
  dockerfile = none;
  build_context = none;
  image = "app";
  tag = some "v1";
  push_latest = true;
  branch = none;
}

-- Everything succeeds but the push of `latest`.
abbrev build_happening : DockerBuild.Happening
build_happening = record {
  pull = ran (some (pos 0));
  revision = none;
  cancelled_after_pull = false;
  build = DockerBuild.ended (ran (some (pos 0)));
  cancelled_before_push = false;
  push = ran (some (pos 0));
  cancelled_before_latest = false;
  push_latest = ran none;
  times = λ n. n;
}

execute_build_lem_example :
    Ends (DockerBuild.execute build_config build_happening) true ("app:v1" ∷ "app:latest" ∷ [])
unfolding full_image commit_hash
execute_build_lem_example = execute_build_lem build_config build_happening
