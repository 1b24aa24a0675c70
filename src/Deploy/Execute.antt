-- ===== src/Deploy/Execute.antt =====
-- src/services/deploy/mod.rs and context.rs: the run of one deploy and of those that wait behind it.
-- What a deploy's commands come to is given from outside (`Outcome`); heartbeats, timeouts and the
-- messages to the deploy center leave the agent's state alone and are not modelled.
pub mod Finish
pub mod Rounds
pub mod Drain
use xjp_deploy_agent.Prelude.{
  ltb, nat_beq, if◌then◌else◌, nat_eq, string_eq, length, ℕ, zero, suc, ◌+◌, String, Bool, true,
  false, not, Option, none, some, List, [], ◌∷◌,
}
use xjp_deploy_agent.Prelude.Int.{ℤ}
use xjp_deploy_agent.HashMap
use xjp_deploy_agent.Task.{DeployStatus, running}
use xjp_deploy_agent.Task.Stage.{DeployStage}
use xjp_deploy_agent.TaskStore
use xjp_deploy_agent.LogHub
use xjp_deploy_agent.Persistence.File
use xjp_deploy_agent.Persistence.File.{Json, Save}
use xjp_deploy_agent.Agent.Queue.{DeployQueue, QueuedDeploy, dequeue_deploy}
use xjp_deploy_agent.Agent.Running.{register_running_deploy, unregister_running_deploy}
use xjp_deploy_agent.Agent.{AgentState}

-- What the commands of a deploy come to.
pub record Outcome : Type 0 where
  pub status : DeployStatus
  pub exit_code : Option ℤ
  pub stages : List DeployStage

-- How a deploy's strategy ends: it hands its outcome to `finish`, or it panics, after it has stored
-- stages or not.
pub data Ending : Type 0 where
  finishes : Outcome → Ending
  panics : (stored : Option (List DeployStage)) → Ending

-- What one round of the queue draws from its surroundings: the times of its start and its end, a
-- token, a log sender, what becomes of its two saves, and its outcome.
pub record Round (json : Json) : Type 0 where
  pub started_at : ℕ
  pub ended_at : ℕ
  pub token : ℕ
  pub sender : ℕ
  pub save_start : Save json.Text
  pub save_end : Save json.Text
  pub outcome : Outcome

module _ (json : Json) where
  open json use {Text}

  -- `DeployContext::finish`
  unfoldable pub finish : AgentState json → String → String → Outcome → ℕ → AgentState json
  finish s task_id project o now = record s {
    task_store =
        TaskStore.finish (TaskStore.update_stages s.task_store task_id o.stages) task_id o.status
          o.exit_code now;
    log_hub = LogHub.finish s.log_hub task_id;
    running_deploys = unregister_running_deploy s.running_deploys project;
  }

  -- What `execute_single` does after the deploy's strategy has called `finish`.
  unfoldable pub clean_up : AgentState json → String → String → ℕ → Save Text → AgentState json
  clean_up s task_id project now outcome = record s {
    queue_persistence = (File.remove_task json s.queue_persistence task_id now outcome).0;
    running_deploys = unregister_running_deploy s.running_deploys project;
  }

  unfoldable pub execute_single :
      AgentState json → String → String → Outcome → ℕ → Save Text → AgentState json
  execute_single s task_id project o now outcome =
      clean_up (finish s task_id project o now) task_id project now outcome

  -- What `process_queue` does for a deploy that it has taken from the queue.
  unfoldable pub start_next : AgentState json → String → QueuedDeploy → Round json → AgentState json
  start_next s project next r = record s {
    task_store = TaskStore.update_status s.task_store next.task_id running none r.started_at;
    queue_persistence =
        (File.update_task_status json s.queue_persistence next.task_id "running" (some r.started_at)
          r.started_at r.save_start).0;
    running_deploys = register_running_deploy s.running_deploys project next.task_id r.token;
    log_hub = (LogHub.create s.log_hub next.task_id r.sender r.started_at).0;
  }

  unfoldable pub run_next : AgentState json → String → QueuedDeploy → Round json → AgentState json
  run_next s project next r =
      execute_single (start_next s project next r) next.task_id project r.outcome r.ended_at
        r.save_end

  -- The loop of `process_queue`, at most `fuel` rounds; `round k` serves the round with `k` of them
  -- left. The states of the agent behind each deploy that it ran are returned in their order.
  unfoldable pub drain :
      ℕ → (ℕ → Round json) → AgentState json → String → AgentState json × List (AgentState json)
  drain zero round s project = (s, [])
  drain (suc fuel) round s project =
      let (queue, front) = dequeue_deploy s.deploy_queue project in
      let s' = record s { deploy_queue = queue } in
      elim front [
        | none ↦ (s', [])
        | some next ↦
            let after = run_next s' project next (round fuel) in
            let (done, later) = drain fuel round after project in (done, after ∷ later)
      ]

  unfoldable pub total_queued : DeployQueue → ℕ
  total_queued [] = 0
  total_queued ((project, items) ∷ q) = length items + total_queued q

  -- Whether the pending update is triggered now: no deploy runs and none waits, in any project.
  unfoldable pub triggers_pending_update : AgentState json → Bool
  triggers_pending_update s =
      if not s.pending_update
      then false
      else if not (nat_beq (HashMap.len s.running_deploys.running) 0)
      then false
      else if ltb 0 (total_queued s.deploy_queue)
      then false
      else true

  -- The flag says whether the pending update is triggered at the end.
  unfoldable pub process_queue :
      ℕ
      → (ℕ → Round json)
      → AgentState json
      → String
      → AgentState json × List (AgentState json) × Bool
  process_queue fuel round s project =
      let (s', states) = drain fuel round s project in (s', states, triggers_pending_update s')

  -- `execute`: the deploy itself, then the queue of its project.
  unfoldable pub execute :
      ℕ
      → (ℕ → Round json)
      → AgentState json
      → String
      → String
      → Outcome
      → ℕ
      → Save Text
      → AgentState json × List (AgentState json) × Bool
  execute fuel round s task_id project o now outcome =
      process_queue fuel round (execute_single s task_id project o now outcome) project
