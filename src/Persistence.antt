-- ===== src/Persistence.antt =====
-- src/services/queue_persistence.rs: the queue of tasks that survives a restart of the agent. This
-- file has the queue itself, `Persistence.File` its file and the manager that keeps both.
-- Times are milliseconds, given by the caller where the code reads `Utc::now()`.
pub mod Distinct
pub mod File
pub mod Durable
mod Tests
use xjp_deploy_agent.Prelude.{
  ltb, nat_beq, if◌then◌else◌, ◌==◌, nat_eq, string_eq, retain, any, length, ℕ, ◌+◌, String, Bool,
  not, Option, none, some, List, [], ◌∷◌, ◌++◌,
}

pub record PersistedTask : Type 0 where
  pub task_id : String
  pub project : String
  pub deploy_log_id : Option String
  pub commit_hash : Option String
  pub branch : Option String
  pub status : String
  pub queued_at : ℕ
  pub started_at : Option ℕ

pub record PersistedQueue : Type 0 where
  pub version : ℕ
  pub tasks : List PersistedTask
  pub saved_at : ℕ
  pub agent_id : Option String

unfoldable pub new : Option String → ℕ → PersistedQueue
new agent_name now = record { version = 1; tasks = []; saved_at = now; agent_id = agent_name }

unfoldable pub has_id : String → PersistedTask → Bool
has_id id t = t.task_id == id

-- A task whose id is there already is not added again.
unfoldable pub add_task : PersistedQueue → PersistedTask → ℕ → PersistedQueue
add_task q task now =
    if not (any (has_id task.task_id) q.tasks)
    then record q { tasks = q.tasks ++ task ∷ []; saved_at = now }
    else q

-- The flag says whether a task was removed.
unfoldable pub remove_task : PersistedQueue → String → ℕ → PersistedQueue × Bool
remove_task q id now =
    let kept = retain (λ t. not (has_id id t)) q.tasks in
    let removed = ltb (length kept) (length q.tasks) in
    (record q { tasks = kept; saved_at = if removed then now else q.saved_at }, removed)

-- The first task with the id, changed.
unfoldable pub update_first :
    String → (PersistedTask → PersistedTask) → List PersistedTask → List PersistedTask
update_first id f [] = []
update_first id f (t ∷ ts) = if has_id id t then f t ∷ ts else t ∷ update_first id f ts

unfoldable pub set_status : String → Option ℕ → PersistedTask → PersistedTask
set_status status none t = record t { status = status }
set_status status (some at) t = record t { status = status; started_at = some at }

unfoldable pub update_task_status : PersistedQueue → String → String → Option ℕ → ℕ → PersistedQueue
update_task_status q id status started_at now =
    if any (has_id id) q.tasks
    then record q { tasks = update_first id (set_status status started_at) q.tasks; saved_at = now }
    else q

unfoldable pub get_queued_tasks : PersistedQueue → List PersistedTask
get_queued_tasks q = retain (λ t. t.status == "queued") q.tasks

unfoldable pub get_running_tasks : PersistedQueue → List PersistedTask
get_running_tasks q = retain (λ t. t.status == "running") q.tasks

unfoldable pub is_empty : PersistedQueue → Bool
is_empty q = nat_beq (length q.tasks) 0
