-- ===== src/Deploy/Trigger.antt =====
-- src/api/deploy.rs: `trigger_deploy` and `get_task_status`. The deploy center is a function
-- `fetch_config`; a request comes with what the code draws from its surroundings (`Arrival`). The
-- handler first looks whether the project is busy (`decide`) and then acts on that (`carry_out`),
-- under separate locks.
pub mod Branches
pub mod Bound
pub mod Races
use Prim.Native.String.{◌++◌ as concat}
use xjp_deploy_agent.Prelude.{leb, if◌then◌else◌, unwrap_or, ℕ, ◌/◌, String, Option, none, some}
use xjp_deploy_agent.HashMap
use xjp_deploy_agent.Task
use xjp_deploy_agent.Task.{DeployTask}
use xjp_deploy_agent.TaskStore
use xjp_deploy_agent.LogHub
use xjp_deploy_agent.Persistence.{PersistedTask}
use xjp_deploy_agent.Persistence.File
use xjp_deploy_agent.Persistence.File.{Json, Save}
use xjp_deploy_agent.Project.{ProjectConfig, RemoteAgentConfig, to_project_config}
use xjp_deploy_agent.Agent.Queue.{TriggerRequest, QueuedDeploy, enqueue_deploy, get_queue_length}
use xjp_deploy_agent.Agent.Running.{has_running_deploy, register_running_deploy}
use xjp_deploy_agent.Agent.{AgentState, get_project}
use xjp_deploy_agent.Error.{
  ApiError, ApiResult, ok, err, ok_or, ◌>>=◌, not_found, bad_request, conflict,
}

abbrev pub max_queue_size : ℕ
max_queue_size = 10

pub record TriggerResponse : Type 0 where
  pub task_id : String
  pub project : String
  pub status : String
  pub queue_position : Option ℕ
  pub stream_url : String

-- The background execution that a trigger spawns.
pub record Spawned : Type 0 where
  pub task_id : String
  pub project : String
  pub project_config : ProjectConfig
  pub request : TriggerRequest

-- A new id for the task, a new cancellation token, a new log sender, the time, and what becomes of
-- the save of the queue.
pub record Arrival (json : Json) : Type 0 where
  pub uuid : String
  pub token : ℕ
  pub sender : ℕ
  pub now : ℕ
  pub save : Save json.Text

pub data Decision : Type 0 where
  starts waits refuses : Decision

module _ (json : Json) where
  pub record Handled : Type 0 where
    pub state : AgentState json
    pub response : ApiResult TriggerResponse
    pub spawned : Option Spawned

  -- The local configuration, or that of the deploy center.
  unfoldable pub find_project :
      (String → Option RemoteAgentConfig) → AgentState json → String → ApiResult ProjectConfig
  find_project fetch_config s project = elim (get_project json s project) [
    | some config ↦ ok config
    | none ↦ do
      remote ← ok_or (fetch_config project) (not_found (concat "Project '" (concat project "'")))
      ok_or (to_project_config remote)
          (bad_request "Invalid remote config: missing required fields")
  ]

  unfoldable pub decide : AgentState json → String → Decision
  decide s project =
      if has_running_deploy s.running_deploys project
      then (if leb max_queue_size (get_queue_length s.deploy_queue project) then refuses else waits)
      else starts

  unfoldable pub persisted :
      String → String → TriggerRequest → String → ℕ → Option ℕ → PersistedTask
  persisted task_id project request status queued_at started_at = record {
    task_id = task_id;
    project = project;
    deploy_log_id = request.deploy_log_id;
    commit_hash = request.commit_hash;
    branch = request.branch;
    status = status;
    queued_at = queued_at;
    started_at = started_at;
  }

  -- A save that fails is only logged.
  unfoldable pub enqueue :
      AgentState json → String → String → ProjectConfig → TriggerRequest → Arrival json → Handled
  enqueue s task_id project config request a =
      let (queue, position) = enqueue_deploy s.deploy_queue project (record {
        task_id = task_id;
        project_config = config;
        request = request;
        queued_at = a.now;
      }) in
      record {
        state = record s {
          task_store = TaskStore.create s.task_store (Task.new_queued task_id project a.now);
          deploy_queue = queue;
          queue_persistence =
              (File.add_task json s.queue_persistence
                (persisted task_id project request "queued" a.now none) a.now a.save).0;
        };
        response = ok (record {
          task_id = task_id;
          project = project;
          status = "queued";
          queue_position = some position;
          stream_url = "";
        });
        spawned = none;
      }

  unfoldable pub start :
      AgentState json → String → String → ProjectConfig → TriggerRequest → Arrival json → Handled
  start s task_id project config request a = record {
    state = record s {
      task_store = TaskStore.create s.task_store (Task.new task_id project a.now);
      log_hub = (LogHub.create s.log_hub task_id a.sender a.now).0;
      running_deploys = register_running_deploy s.running_deploys project task_id a.token;
      queue_persistence =
          (File.add_task json s.queue_persistence
            (persisted task_id project request "running" a.now (some a.now)) a.now a.save).0;
    };
    response = ok (record {
      task_id = task_id;
      project = project;
      status = "running";
      queue_position = none;
      stream_url = concat "/logs/" (concat task_id "/stream");
    });
    spawned = some (record {
      task_id = task_id;
      project = project;
      project_config = config;
      request = request;
    });
  }

  unfoldable pub refuse : AgentState json → String → Handled
  refuse s project = record {
    state = s;
    response =
        err (conflict (concat "Deployment queue for '" (concat project "' is full (max 10)")));
    spawned = none;
  }

  unfoldable pub carry_out :
      Decision → AgentState json → String → ProjectConfig → TriggerRequest → Arrival json → Handled
  carry_out starts s project config request a =
      start s (unwrap_or request.deploy_log_id a.uuid) project config request a
  carry_out waits s project config request a =
      enqueue s (unwrap_or request.deploy_log_id a.uuid) project config request a
  carry_out refuses s project config request a = refuse s project

  -- What follows once the project's configuration is known or has been refused.
  unfoldable pub answer :
      AgentState json → String → TriggerRequest → Arrival json → ApiResult ProjectConfig → Handled
  answer s project request a (err e) = record { state = s; response = err e; spawned = none }
  answer s project request a (ok config) = carry_out (decide s project) s project config request a

  unfoldable pub trigger_deploy :
      (String → Option RemoteAgentConfig)
      → AgentState json
      → String
      → TriggerRequest
      → Arrival json
      → Handled
  unfolding answer
  trigger_deploy fetch_config s project request a =
      answer s project request a (find_project fetch_config s project)

  unfoldable pub get_task_status : AgentState json → String → ApiResult DeployTask
  get_task_status s task_id =
      ok_or (TaskStore.get_any s.task_store task_id)
        (not_found (concat "Task '" (concat task_id "'")))
