-- ===== src/Samples.antt =====
-- An agent with two projects, for the tests.
use xjp_deploy_agent.Prelude.{
  nat_eq, string_eq, ℕ, String, false, Option, none, some, List, [], ◌∷◌,
}
use xjp_deploy_agent.Prelude.Int.{pos}
use xjp_deploy_agent.HashMap
use xjp_deploy_agent.Task.{DeployTask, success}
use xjp_deploy_agent.TaskStore.{TaskStore}
use xjp_deploy_agent.Persistence.{PersistedTask, PersistedQueue}
use xjp_deploy_agent.Persistence.File.{Json, saves, QueuePersistence}
use xjp_deploy_agent.Project.{ProjectConfig, RemoteAgentConfig, script}
use xjp_deploy_agent.Agent.{AgentState}
use xjp_deploy_agent.Agent.Queue.{TriggerRequest, QueuedDeploy, DeployQueue}
use xjp_deploy_agent.Agent.Running.{RunningDeploys}
use xjp_deploy_agent.Deploy.Trigger.{Arrival}
use xjp_deploy_agent.Deploy.Execute.{Outcome, Round}

-- A file format that is the queue itself.
abbrev pub json : Json
json = record { Text = PersistedQueue; to_string = λ q. q; from_str = some }

abbrev pub no_center : String → Option RemoteAgentConfig
no_center project = none

abbrev pub web : ProjectConfig
web = record { work_dir = "/srv/web"; deploy_type = script "./deploy.sh" }

abbrev pub request : TriggerRequest
request = record { deploy_log_id = none; commit_hash = some "c0ffee"; branch = none }

abbrev pub queued : String → QueuedDeploy
queued id = record { task_id = id; project_config = web; request = request; queued_at = 100 }

abbrev pub persisted : String → String → PersistedTask
persisted id status = record {
  task_id = id;
  project = "web";
  deploy_log_id = none;
  commit_hash = some "c0ffee";
  branch = none;
  status = status;
  queued_at = 100;
  started_at = none;
}

abbrev pub queue_of : List PersistedTask → PersistedQueue
queue_of ts = record { version = 1; tasks = ts; saved_at = 7; agent_id = none }

abbrev pub stored : List PersistedTask → QueuePersistence json
stored ts = record {
  queue = queue_of ts;
  files = record { queue_file = some (queue_of ts); temp_file = none };
}

abbrev pub tasks : HashMap.HashMap String DeployTask → TaskStore
tasks ts = record { tasks = ts; history = []; max_active = 10; max_history = 100; retention = 1000 }

abbrev pub agent : RunningDeploys → DeployQueue → TaskStore → List PersistedTask → AgentState json
agent running_deploys waits store persisted_tasks = record {
  api_key = "key";
  projects = ("web", web) ∷ [];
  task_store = store;
  log_hub = record { channels = [] };
  running_deploys = running_deploys;
  deploy_queue = waits;
  queue_persistence = stored persisted_tasks;
  pending_update = false;
}

abbrev pub nothing_runs : RunningDeploys
nothing_runs = record { running = []; cancelled = [] }

abbrev pub web_runs : RunningDeploys
web_runs = record {
  running = ("web", record { task_id = "t0"; cancel_token = 1 }) ∷ [];
  cancelled = [];
}

abbrev pub arrival : String → Arrival json
arrival uuid = record { uuid = uuid; token = 5; sender = 6; now = 200; save = saves }

abbrev pub outcome : Outcome
outcome = record { status = success; exit_code = some (pos 0); stages = [] }

abbrev pub round : ℕ → Round json
round k = record {
  started_at = 300;
  ended_at = 400;
  token = k;
  sender = k;
  save_start = saves;
  save_end = saves;
  outcome = outcome;
}

abbrev pub idle : AgentState json
idle = agent nothing_runs [] (tasks []) []

-- A deploy of the project runs and another waits.
abbrev pub busy : AgentState json
busy = agent web_runs (("web", queued "t1" ∷ []) ∷ []) (tasks []) []
