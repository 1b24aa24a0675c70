-- ===== src/Deploy/Queries.antt =====
-- src/api/deploy.rs: the handlers that only read, `get_recent_tasks`, `get_project_config` and
-- `get_queue_status`. The JSON of a deploy type is the type itself.
pub mod Recent
use Prim.Native.String.{◌++◌ as concat}
use xjp_deploy_agent.Prelude.{
  retain, length, take, ℕ, ◌+◌, String, not, Option, none, some, List, ◌++◌,
}
use xjp_deploy_agent.Task.{DeployTask, is_terminal}
use xjp_deploy_agent.TaskStore
use xjp_deploy_agent.TaskStore.{TaskStore, matches}
use xjp_deploy_agent.Persistence.File.{Json}
use xjp_deploy_agent.Project
use xjp_deploy_agent.Project.{ProjectConfig, DeployType, RemoteAgentConfig, to_project_config}
use xjp_deploy_agent.Agent.{AgentState, get_project}
use xjp_deploy_agent.Agent.Queue.{get_queue_length}
use xjp_deploy_agent.Agent.Running.{get_running_deploy_task_id}
use xjp_deploy_agent.Error.{ApiResult, ok, err, not_found}

pub record TaskHistoryQuery : Type 0 where
  pub limit : ℕ
  pub project : Option String
  pub status : Option String

pub record TaskHistoryResponse : Type 0 where
  pub tasks : List DeployTask
  pub total : ℕ

pub record QueueStatusResponse : Type 0 where
  pub project : String
  pub running_task_id : Option String
  pub queue_length : ℕ

pub record ProjectConfigResponse : Type 0 where
  pub name : String
  pub work_dir : String
  pub deploy_type : String
  pub config : DeployType

-- The history is filtered and cut in the store, and again behind the unfinished tasks.
unfoldable pub get_recent_tasks : TaskStore → TaskHistoryQuery → TaskHistoryResponse
get_recent_tasks s q =
    let history = TaskStore.get_history s q.limit q.project q.status in
    let unfinished = retain (λ t. not (is_terminal t.status)) (TaskStore.get_all s) in
    let filtered = take q.limit (retain (matches q.project q.status) (unfinished ++ history)) in
    record { tasks = filtered; total = length filtered }

unfoldable pub project_response : String → ProjectConfig → ProjectConfigResponse
project_response name config = record {
  name = name;
  work_dir = config.work_dir;
  deploy_type = Project.name config.deploy_type;
  config = config.deploy_type;
}

module _ (json : Json) where
  -- A configuration of the deploy center that cannot be used counts as none.
  unfoldable pub get_project_config :
      (String → Option RemoteAgentConfig)
      → AgentState json
      → String
      → ApiResult ProjectConfigResponse
  get_project_config fetch_config s name = elim (get_project json s name) [
    | some config ↦ ok (project_response name config)
    | none ↦ elim (fetch_config name) [
      | none ↦ err (not_found (concat "Project '" (concat name "'")))
      | some remote ↦ elim (to_project_config remote) [
        | none ↦ err (not_found (concat "Project '" (concat name "'")))
        | some config ↦ ok (project_response name config)
      ]
    ]
  ]

  unfoldable pub get_queue_status : AgentState json → String → QueueStatusResponse
  get_queue_status s project = record {
    project = project;
    running_task_id = get_running_deploy_task_id s.running_deploys project;
    queue_length = get_queue_length s.deploy_queue project;
  }
