-- ===== src/Deploy/Tests.antt =====
-- The theorems on triggers at concrete inputs.
use xjp_deploy_agent.Prelude.{
  is_some, nat_eq, string_eq, length, ◌≤◌, ◌≡◌, refl, true, none, some, List, [], ◌∷◌, arith,
}
use xjp_deploy_agent.HashMap
use xjp_deploy_agent.Task
use xjp_deploy_agent.Task.{DeployTask, queued as is_queued, running}
use xjp_deploy_agent.TaskStore
use xjp_deploy_agent.LogHub
use xjp_deploy_agent.Agent.{AgentState}
use xjp_deploy_agent.Agent.Queue.{QueuedDeploy}
use xjp_deploy_agent.Agent.Queue.Fifo.{waiting}
use xjp_deploy_agent.Agent.Running.{has_running_deploy, get_running_deploy_task_id}
use xjp_deploy_agent.Samples.{
  json, no_center, web, request, queued, tasks, agent, web_runs, arrival, idle, busy,
}
use xjp_deploy_agent.Deploy.Trigger.{trigger_deploy, find_project}
use xjp_deploy_agent.Deploy.Trigger.Branches.{
  map_response, trigger_deploy-queued, trigger_deploy-started,
}
use xjp_deploy_agent.Deploy.Trigger.Bound.{triggers, triggers-IsBounded}

abbrev nine : List QueuedDeploy
nine =
    queued "a"
    ∷ queued "b"
    ∷ queued "c"
    ∷ queued "d"
    ∷ queued "e"
    ∷ queued "f"
    ∷ queued "g"
    ∷ queued "h"
    ∷ queued "i"
    ∷ []

abbrev full : AgentState json
full = agent web_runs (("web", queued "z" ∷ nine) ∷ []) (tasks []) []

trigger_deploy-queued_example :
    let h = trigger_deploy json no_center busy "web" request (arrival "n") in
    (map_response (λ r. r.queue_position) h.response ≡ some (some 2))
    × (waiting h.state.deploy_queue "web"
        ≡ queued "t1" ∷ record (queued "n") { queued_at = 200 } ∷ [])
    × (TaskStore.get h.state.task_store "n" ≡ some (Task.new_queued "n" "web" 200))
    × (h.spawned ≡ none)
    × (h.state.running_deploys ≡ web_runs)
unfolding find_project xjp_deploy_agent.Agent.get_project HashMap.get has_running_deploy
    HashMap.contains_key
trigger_deploy-queued_example =
    trigger_deploy-queued json no_center busy "web" request (arrival "n") web refl refl
      (omega arith)

trigger_deploy-started_example :
    let h = trigger_deploy json no_center idle "web" request (arrival "n") in
    (h.spawned
      ≡ some (record { task_id = "n"; project = "web"; project_config = web; request = request }))
    × (get_running_deploy_task_id h.state.running_deploys "web" ≡ some "n")
    × (TaskStore.get h.state.task_store "n" ≡ some (Task.new "n" "web" 200))
    × (is_some (LogHub.subscribe h.state.log_hub "n") ≡ true)
    × (h.state.deploy_queue ≡ [])
unfolding find_project xjp_deploy_agent.Agent.get_project HashMap.get has_running_deploy
    HashMap.contains_key
trigger_deploy-started_example =
    trigger_deploy-started json no_center idle "web" request (arrival "n") web refl refl

triggers-IsBounded_example :
    length (
      waiting
        (triggers json no_center idle
          (("web", request, arrival "n") ∷ ("web", request, arrival "m") ∷ [])).deploy_queue
        "web")
    ≤ 10
unfolding HashMap.get
triggers-IsBounded_example =
    triggers-IsBounded json no_center idle
      (("web", request, arrival "n") ∷ ("web", request, arrival "m") ∷ []) (λ project. omega arith)
      "web"
