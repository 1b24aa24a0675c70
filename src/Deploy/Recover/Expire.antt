-- ===== src/Deploy/Recover/Expire.antt =====
-- What the expiry of waiting deploys does to the tasks.
use xjp_deploy_agent.Prelude.{
  if◌then◌else◌, map_option, ◌==◌, nat_eq, string_eq, retain, ℕ, String, ◌≡◌, refl, Bool, false,
  not, ◌||◌, Option, none, some, List, [], ◌∷◌, arith,
}
use xjp_deploy_agent.Prelude.Int.{negsuc}
use xjp_deploy_agent.HashMap
use xjp_deploy_agent.HashMap.Laws.{get-modify}
use xjp_deploy_agent.Task.{DeployTask, failed, is_terminal}
use xjp_deploy_agent.TaskStore
use xjp_deploy_agent.TaskStore.{TaskStore, mark}
use xjp_deploy_agent.Persistence.File.{Json}
use xjp_deploy_agent.Agent.Queue.{is_expired, cleanup_expired_queue_items}
use xjp_deploy_agent.Agent.Queue.Fifo.{waiting}
use xjp_deploy_agent.Agent.Queue.Expiry.{cleanup_expired_queue_items_lem}
use xjp_deploy_agent.Agent.{AgentState}
use xjp_deploy_agent.Deploy.Recover.{fail_all, expire_waiting, queue_timeout_secs}

-- The report of the expired deploys names the task.
pub names : List (String × String) → String → Bool
names [] id = false
names ((project, task_id) ∷ rest) id = task_id == id || names rest id

abbrev pub marked : ℕ → DeployTask → DeployTask
marked now = mark failed (some (negsuc 0)) now

mark_again :
    (now : ℕ) (o : Option DeployTask)
    → map_option (marked now) (map_option (marked now) o) ≡ map_option (marked now) o
unfolding mark is_terminal
mark_again now none = refl
mark_again now (some t) = refl

get-fail_all :
    (s : TaskStore) (expired : List (String × String)) (now : ℕ) (id : String)
    → TaskStore.get (fail_all s expired now) id ≡ (
        if names expired id
        then map_option (marked now) (TaskStore.get s id)
        else TaskStore.get s id)
unfolding fail_all names TaskStore.get TaskStore.update_status
get-fail_all s [] now id = refl
get-fail_all s ((project, task_id) ∷ rest) now id = ground (
  arith,
  get-fail_all (TaskStore.update_status s task_id failed (some (negsuc 0)) now) rest now id,
  get-modify s.tasks task_id id (marked now),
  mark_again now (HashMap.get s.tasks id),
)

module _ (json : Json) where
  -- The expiry takes exactly the deploys out of each queue that have waited over ten minutes, marks
  -- the tasks that it reports as failed and no others, and leaves the persisted queue as it was.
  pub expire_waiting_lem :
      (s : AgentState json) (now : ℕ) (project id : String)
      → let s' = expire_waiting json s now in
        let expired = (cleanup_expired_queue_items s.deploy_queue queue_timeout_secs now).1 in
        (waiting s'.deploy_queue project
          ≡ retain
              (λ d. not (is_expired queue_timeout_secs now d))
              (waiting s.deploy_queue project))
        × (TaskStore.get s'.task_store id ≡ (
            if names expired id
            then map_option (marked now) (TaskStore.get s.task_store id)
            else TaskStore.get s.task_store id))
        × (s'.queue_persistence ≡ s.queue_persistence)
  unfolding expire_waiting
  expire_waiting_lem s now project id = (
    (cleanup_expired_queue_items_lem s.deploy_queue queue_timeout_secs now project).0,
    get-fail_all s.task_store _ now id,
    refl,
  )
