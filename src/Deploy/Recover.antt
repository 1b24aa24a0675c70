-- ===== src/Deploy/Recover.antt =====
-- src/lib.rs: `recover_persisted_tasks` at the start of the agent, and the expiry of waiting deploys
-- that runs every minute. The executions that the recovery spawns run beside it and are returned.
pub mod Expire
pub mod Order
use xjp_deploy_agent.Prelude.{
  nat_beq, if◌then◌else◌, ◌==◌, nat_eq, string_eq, ℕ, ◌+◌, ◌%◌, String, Bool, Option, none, some,
  List, [], ◌∷◌, ◌++◌,
}
use xjp_deploy_agent.Prelude.Int.{negsuc}
use xjp_deploy_agent.Task
use xjp_deploy_agent.Task.{DeployTask, failed}
use xjp_deploy_agent.TaskStore
use xjp_deploy_agent.TaskStore.{TaskStore}
use xjp_deploy_agent.LogHub
use xjp_deploy_agent.Persistence.{PersistedTask, PersistedQueue}
use xjp_deploy_agent.Persistence.File
use xjp_deploy_agent.Persistence.File.{Json}
use xjp_deploy_agent.Project.{ProjectConfig, RemoteAgentConfig, to_project_config}
use xjp_deploy_agent.Agent.Queue.{
  TriggerRequest, QueuedDeploy, enqueue_deploy, cleanup_expired_queue_items,
}
use xjp_deploy_agent.Agent.Running.{register_running_deploy}
use xjp_deploy_agent.Agent.{AgentState, get_project}
use xjp_deploy_agent.Deploy.Trigger.{Arrival, Spawned}

abbrev pub queue_timeout_secs : ℕ
queue_timeout_secs = 600

unfoldable pub is_running : PersistedTask → Bool
is_running t = t.status == "running"

unfoldable pub request_of : PersistedTask → TriggerRequest
request_of t = record {
  deploy_log_id = t.deploy_log_id;
  commit_hash = t.commit_hash;
  branch = t.branch;
}

unfoldable pub queued_of : PersistedTask → ProjectConfig → QueuedDeploy
queued_of t config = record {
  task_id = t.task_id;
  project_config = config;
  request = request_of t;
  queued_at = t.queued_at;
}

unfoldable pub spawned_for : PersistedTask → ProjectConfig → Spawned
spawned_for t config = record {
  task_id = t.task_id;
  project = t.project;
  project_config = config;
  request = request_of t;
}

-- Each expired task is marked as failed, with the exit code -1.
unfoldable pub fail_all : TaskStore → List (String × String) → ℕ → TaskStore
fail_all tasks [] now = tasks
fail_all tasks ((project, id) ∷ rest) now =
    fail_all (TaskStore.update_status tasks id failed (some (negsuc 0)) now) rest now

module _ (json : Json) (fetch_config : String → Option RemoteAgentConfig)
    (draw : PersistedTask → Arrival json) where
  -- The local configuration, or a usable one of the deploy center.
  unfoldable pub find_config : AgentState json → String → Option ProjectConfig
  find_config s project = elim (get_project json s project) [
    | some config ↦ some config
    | none ↦ elim (fetch_config project) [ some remote ↦ to_project_config remote | none ↦ none ]
  ]

  unfoldable pub restart : AgentState json → PersistedTask → AgentState json
  restart s t =
      let a = draw t in
      record s {
        task_store = TaskStore.create s.task_store (Task.new t.task_id t.project a.now);
        log_hub = (LogHub.create s.log_hub t.task_id a.sender a.now).0;
        running_deploys = register_running_deploy s.running_deploys t.project t.task_id a.token;
      }

  unfoldable pub requeue : AgentState json → PersistedTask → ProjectConfig → AgentState json
  requeue s t config =
      let a = draw t in
      record s {
        task_store = TaskStore.create s.task_store (Task.new_queued t.task_id t.project a.now);
        deploy_queue = (enqueue_deploy s.deploy_queue t.project (queued_of t config)).0;
      }

  -- A task whose project has no usable configuration any more is skipped.
  unfoldable pub recover_task : AgentState json → PersistedTask → AgentState json × List Spawned
  recover_task s t = elim (find_config s t.project) [
    | none ↦ (s, [])
    | some config ↦
        if is_running t then (restart s t, spawned_for t config ∷ []) else (requeue s t config, [])
  ]

  unfoldable pub recover_all : AgentState json → List PersistedTask → AgentState json × List Spawned
  recover_all s [] = (s, [])
  recover_all s (t ∷ ts) =
      let (s', first) = recover_task s t in
      let (s'', rest) = recover_all s' ts in (s'', first ++ rest)

  -- `readable` says whether the file, if it is there, can be read.
  unfoldable pub recover_persisted_tasks : AgentState json → Bool → AgentState json × List Spawned
  recover_persisted_tasks s readable =
      let (p, loaded) = File.load json s.queue_persistence readable in
      let s' = record s { queue_persistence = p } in
      elim loaded [ none ↦ (s', []) | some queue ↦ recover_all s' queue.tasks ]

module _ (json : Json) where
  -- What the task that runs every minute does to the waiting deploys.
  unfoldable pub expire_waiting : AgentState json → ℕ → AgentState json
  expire_waiting s now =
      let (queue, expired) = cleanup_expired_queue_items s.deploy_queue queue_timeout_secs now in
      record s { deploy_queue = queue; task_store = fail_all s.task_store expired now }

  -- One round of the task that runs every minute, with the number of rounds before it: every sixtieth
  -- also cleans up the finished tasks and the logs. `receiver_count` says how many follow a log.
  unfoldable pub periodic : (ℕ → ℕ) → AgentState json → ℕ → ℕ → AgentState json
  periodic receiver_count s count now =
      let s' = expire_waiting s now in
      if nat_beq (count % 60) 0
      then record s' {
        task_store = TaskStore.cleanup_stale s'.task_store now;
        log_hub = LogHub.cleanup_expired receiver_count s'.log_hub 24 now;
      }
      else s'
