-- ===== src/TaskStore/Tests.antt =====
-- Runs of the task store, as in the code's own tests, and the theorems at concrete inputs.
use xjp_deploy_agent.Prelude.{nat_eq, string_eq, retain, ◌≡◌, refl, none, some, [], ◌∷◌}
use xjp_deploy_agent.Prelude.Int.{pos}
use xjp_deploy_agent.HashMap
use xjp_deploy_agent.Task.{DeployTask, running, success, failed, as_str}
use xjp_deploy_agent.TaskStore
use xjp_deploy_agent.TaskStore.Invariant.{
  IsValid, creates, creates_queued, finishes, updates_status, cleans_up, run,
  run-with_config-IsValid,
}
use xjp_deploy_agent.TaskStore.{
  TaskStore, with_config, get, get_any, create, finish, finished, cleanup_stale, add_to_history,
  get_history,
}

abbrev build : DeployTask
build = record {
  id = "task-1";
  project = "web";
  status = running;
  started_at = 5;
  finished_at = none;
  exit_code = none;
  stages = [];
}

abbrev built : DeployTask
built = record build { status = success; finished_at = some 9; exit_code = some (pos 0) }

abbrev busy : TaskStore
busy = record {
  tasks = ("task-1", build) ∷ [];
  history = record built { id = "task-0" } ∷ [];
  max_active = 2;
  max_history = 1;
  retention = 100;
}

finish_run :
    finish busy "task-1" success (some (pos 0)) 9 ≡ record busy { tasks = []; history = built ∷ [] }
unfolding finish finished add_to_history TaskStore.trim TaskStore.pop_back HashMap.get
    HashMap.remove
finish_run = refl

get_history_run :
    get_history busy 10 (some "web") (some "success") ≡ record built { id = "task-0" } ∷ []
unfolding get_history TaskStore.matches as_str retain
get_history_run = refl

run-with_config-IsValid_example : IsValid (
    run (with_config 10 1 24) (
      (1, creates "a" "web")
      ∷ (2, creates_queued "b" "web")
      ∷ (3, finishes "a" success (some (pos 0)))
      ∷ (4, updates_status "b" failed none)
      ∷ (5, finishes "b" failed none)
      ∷ (90000000, cleans_up)
      ∷ []))
run-with_config-IsValid_example = run-with_config-IsValid 10 1 24 (
    (1, creates "a" "web")
    ∷ (2, creates_queued "b" "web")
    ∷ (3, finishes "a" success (some (pos 0)))
    ∷ (4, updates_status "b" failed none)
    ∷ (5, finishes "b" failed none)
    ∷ (90000000, cleans_up)
    ∷ [])
