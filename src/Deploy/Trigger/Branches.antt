-- ===== src/Deploy/Trigger/Branches.antt =====
-- What a trigger does on each of its branches.
use xjp_deploy_agent.Prelude.{
  is_some, unwrap_or, length, ℕ, ◌+◌, ◌≤◌, ◌<◌, String, ◌≡◌, refl, ◌∙◌, true, false, Option, none,
  some, [], ◌∷◌, ◌++◌, arith, eq_refl,
}
use xjp_deploy_agent.HashMap.Laws.{get-insert_self}
use xjp_deploy_agent.Task
use xjp_deploy_agent.Task.{DeployTask}
use xjp_deploy_agent.TaskStore
use xjp_deploy_agent.LogHub
use xjp_deploy_agent.TaskStore.Lifecycle.{get-create}
use xjp_deploy_agent.LogHub.Channels.{subscribe-create_self}
use xjp_deploy_agent.Persistence.File.{Json}
use xjp_deploy_agent.Project.{ProjectConfig, RemoteAgentConfig}
use xjp_deploy_agent.Agent.Queue.{TriggerRequest, QueuedDeploy}
use xjp_deploy_agent.Agent.Queue.Fifo.{waiting, enqueue_deploy_lem, get_queue_length-waiting}
use xjp_deploy_agent.Agent.Running.{
  has_running_deploy, register_running_deploy, get_running_deploy_task_id,
}
use xjp_deploy_agent.Agent.{AgentState}
use xjp_deploy_agent.Error.{ApiResult, ApiError, ok, err, into_response}
use xjp_deploy_agent.Deploy.Trigger.{
  Arrival, Handled, TriggerResponse, Decision, starts, waits, refuses, find_project, decide,
  enqueue, start, refuse, carry_out, trigger_deploy, max_queue_size,
}

abbrev pub map_response {ℓ} :
    {A : Type ℓ} → (TriggerResponse → A) → ApiResult TriggerResponse → Option A
map_response f (ok r) = some (f r)
map_response f (err e) = none

-- The HTTP status of an error.
abbrev pub error_status {ℓ} : {A : Type ℓ} → ApiResult A → Option ℕ
error_status (ok r) = none
error_status (err e) = some (into_response e).status

module _ (json : Json) (s : AgentState json) (project : String) where
  pub decide-starts :
      has_running_deploy s.running_deploys project ≡ false → decide json s project ≡ starts
  unfolding decide
  decide-starts idle = rw idle

  pub decide-waits :
      has_running_deploy s.running_deploys project ≡ true
      → length (waiting s.deploy_queue project) < max_queue_size
      → decide json s project ≡ waits
  unfolding decide
  decide-waits busy room = ground (arith, get_queue_length-waiting s.deploy_queue project)

  pub decide-refuses :
      has_running_deploy s.running_deploys project ≡ true
      → max_queue_size ≤ length (waiting s.deploy_queue project)
      → decide json s project ≡ refuses
  unfolding decide
  decide-refuses busy full = ground (arith, get_queue_length-waiting s.deploy_queue project)

module _ (json : Json) (fetch_config : String → Option RemoteAgentConfig) (s : AgentState json)
    (project : String) (request : TriggerRequest) (a : Arrival json) where
  abbrev handled : Handled json
  handled = trigger_deploy json fetch_config s project request a

  -- The id under which the deploy is known.
  abbrev task_id : String
  task_id = unwrap_or request.deploy_log_id a.uuid

  -- A trigger that is answered by an error has changed nothing and spawns nothing.
  pub trigger_deploy-err :
      (e : ApiError) → handled.response ≡ err e → (handled.state ≡ s) × (handled.spawned ≡ none)
  unfolding trigger_deploy carry_out enqueue start refuse
  trigger_deploy-err e h = ground arith

  module _ (config : ProjectConfig)
      (known : find_project json fetch_config s project ≡ ok config) where
    trigger_deploy-decide :
        (d : Decision)
        → decide json s project ≡ d
        → handled ≡ carry_out json d s project config request a
    unfolding trigger_deploy
    trigger_deploy-decide d e = rw (known, trigger_deploy) (rw e)

    -- A trigger for a known project with a deploy running and ten or more waiting is a conflict
    -- (409), changes nothing and spawns nothing.
    pub trigger_deploy-full :
        has_running_deploy s.running_deploys project ≡ true
        → max_queue_size ≤ length (waiting s.deploy_queue project)
        → (error_status handled.response ≡ some 409)
          × (handled.state ≡ s)
          × (handled.spawned ≡ none)
    unfolding carry_out refuse into_response
    trigger_deploy-full busy full =
        rw (trigger_deploy-decide refuses (decide-refuses json s project busy full))
          (refl, refl, refl)

    -- A trigger for a known project with a deploy running and fewer than ten waiting is queued: it is
    -- the last of the project's waiting deploys, at the position that the response names; its task is
    -- stored as queued; nothing is spawned, and the running deploys stay.
    pub trigger_deploy-queued :
        has_running_deploy s.running_deploys project ≡ true
        → length (waiting s.deploy_queue project) < max_queue_size
        → (map_response (λ r. r.queue_position) handled.response
            ≡ some (some (length (waiting s.deploy_queue project) + 1)))
          × (waiting handled.state.deploy_queue project
              ≡ waiting s.deploy_queue project
                ++ record {
                  task_id = task_id;
                  project_config = config;
                  request = request;
                  queued_at = a.now;
                }
                  ∷ [])
          × (TaskStore.get handled.state.task_store task_id
              ≡ some (Task.new_queued task_id project a.now))
          × (handled.spawned ≡ none)
          × (handled.state.running_deploys ≡ s.running_deploys)
    unfolding carry_out enqueue Task.new_queued
    trigger_deploy-queued busy room =
        let d : QueuedDeploy = record {
          task_id = task_id;
          project_config = config;
          request = request;
          queued_at = a.now;
        } in
        let queued = enqueue_deploy_lem s.deploy_queue project project d in
        rw (trigger_deploy-decide waits (decide-waits json s project busy room)) (
          rw (queued.1, get_queue_length-waiting s.deploy_queue project),
          queued.0 ∙ rw (eq_refl project),
          get-create s.task_store _,
          refl,
          refl,
        )

    -- A trigger for a known project with no deploy running starts at once: its deploy is registered
    -- and spawned, its task is stored as running, its log can be followed, and the queues stay.
    pub trigger_deploy-started :
        has_running_deploy s.running_deploys project ≡ false
        → (handled.spawned
            ≡ some (record {
              task_id = task_id;
              project = project;
              project_config = config;
              request = request;
            }))
          × (get_running_deploy_task_id handled.state.running_deploys project ≡ some task_id)
          × (TaskStore.get handled.state.task_store task_id ≡ some (Task.new task_id project a.now))
          × (is_some (LogHub.subscribe handled.state.log_hub task_id) ≡ true)
          × (handled.state.deploy_queue ≡ s.deploy_queue)
    unfolding carry_out start Task.new get_running_deploy_task_id register_running_deploy
    trigger_deploy-started idle =
        rw (trigger_deploy-decide starts (decide-starts json s project idle)) (
          refl,
          rw get-insert_self,
          get-create s.task_store _,
          subscribe-create_self s.log_hub task_id a.sender a.now,
          refl,
        )
