-- ===== src/Agent/Queue.antt =====
-- src/state/app_state.rs: the deploys that wait, a queue for each project.
pub mod Fifo
pub mod Expiry
use xjp_deploy_agent.Prelude.{
  ltb, if◌then◌else◌, map_option, unwrap_or, ◌==◌, nat_eq, string_eq, retain, length, ℕ, ◌+◌, ◌-◌,
  ◌/◌, String, Bool, not, Option, none, some, List, [], ◌∷◌, ◌++◌, map,
}
use xjp_deploy_agent.HashMap
use xjp_deploy_agent.HashMap.{HashMap}
use xjp_deploy_agent.Project.{ProjectConfig}

-- `TriggerRequest` of src/api/deploy.rs.
pub record TriggerRequest : Type 0 where
  pub deploy_log_id : Option String
  pub commit_hash : Option String
  pub branch : Option String

pub record QueuedDeploy : Type 0 where
  pub task_id : String
  pub project_config : ProjectConfig
  pub request : TriggerRequest
  pub queued_at : ℕ

-- The front of a queue is the head of its list.
abbrev pub DeployQueue : Type 0
DeployQueue = HashMap String (List QueuedDeploy)

-- The queue with the deploy at its end, and the deploy's position, from 1.
unfoldable pub enqueue_deploy : DeployQueue → String → QueuedDeploy → DeployQueue × ℕ
enqueue_deploy q project deploy =
    let items = unwrap_or (HashMap.get q project) [] ++ deploy ∷ [] in
    (HashMap.insert q project items, length items)

unfoldable pub pop_front :
    DeployQueue → String → List QueuedDeploy → DeployQueue × Option QueuedDeploy
pop_front q project [] = (q, none)
pop_front q project (d ∷ ds) = (HashMap.insert q project ds, some d)

unfoldable pub dequeue_deploy : DeployQueue → String → DeployQueue × Option QueuedDeploy
dequeue_deploy q project = elim (HashMap.get q project) [
  | none ↦ (q, none)
  | some items ↦ pop_front q project items
]

unfoldable pub get_queue_length : DeployQueue → String → ℕ
get_queue_length q project =
    unwrap_or (map_option (λ (items : List QueuedDeploy). length items) (HashMap.get q project)) 0

-- `for (i, item) in items.iter().enumerate()`, from index `i`.
unfoldable pub position_from : ℕ → String → List QueuedDeploy → ℕ
position_from i task_id [] = 0
position_from i task_id (d ∷ ds) =
    if d.task_id == task_id then i + 1 else position_from (i + 1) task_id ds

-- From 1; 0 if the task does not wait.
unfoldable pub get_queue_position : DeployQueue → String → String → ℕ
get_queue_position q project task_id = elim (HashMap.get q project) [
  | none ↦ 0
  | some items ↦ position_from 0 task_id items
]

-- `age.num_seconds() > timeout_secs`; a task from the future has not expired.
unfoldable pub is_expired : ℕ → ℕ → QueuedDeploy → Bool
is_expired timeout_secs now d = ltb timeout_secs ((now - d.queued_at) / 1000)

-- The queues without the expired deploys, and these as project and task, in the map's order.
unfoldable pub cleanup_expired_queue_items :
    DeployQueue → ℕ → ℕ → DeployQueue × List (String × String)
cleanup_expired_queue_items [] timeout_secs now = ([], [])
cleanup_expired_queue_items ((project, items) ∷ q) timeout_secs now =
    let (q', expired) = cleanup_expired_queue_items q timeout_secs now in
    (
      (project, retain (λ d. not (is_expired timeout_secs now d)) items) ∷ q',
      map (λ d. (project, d.task_id)) (retain (is_expired timeout_secs now) items) ++ expired,
    )
