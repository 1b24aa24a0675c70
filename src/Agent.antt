-- ===== src/Agent.antt =====
-- src/state/app_state.rs: the state of the agent's deploys. `Agent.Queue` has the waiting deploys of
-- each project, `Agent.Running` the running ones; here they stand together with the task store, the
-- log hub and the persisted queue.
pub mod Queue
pub mod Running
mod Tests
use xjp_deploy_agent.Prelude.{◌==◌, nat_eq, string_eq, String, Bool, false, Option, none, some}
use xjp_deploy_agent.HashMap
use xjp_deploy_agent.HashMap.{HashMap}
use xjp_deploy_agent.TaskStore.{TaskStore}
use xjp_deploy_agent.LogHub.{LogHub}
use xjp_deploy_agent.Persistence.File.{Json, QueuePersistence}
use xjp_deploy_agent.Project.{ProjectConfig}
use Queue.{DeployQueue}
use Running.{RunningDeploys}

-- `pending_update` is the flag `auto_update_state.has_pending_update()`.
pub record AgentState (json : Json) : Type 0 where
  pub api_key : String
  pub projects : HashMap String ProjectConfig
  pub task_store : TaskStore
  pub log_hub : LogHub
  pub running_deploys : RunningDeploys
  pub deploy_queue : DeployQueue
  pub queue_persistence : QueuePersistence json
  pub pending_update : Bool

module _ (json : Json) where
  -- The value of the header `x-api-key`, if it is there and is visible ASCII.
  unfoldable pub verify_api_key : AgentState json → Option String → Bool
  verify_api_key s header = elim header [ none ↦ false | some key ↦ key == s.api_key ]

  unfoldable pub get_project : AgentState json → String → Option ProjectConfig
  get_project s project = HashMap.get s.projects project
