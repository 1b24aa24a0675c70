-- ===== src/Deploy/Execute/Rounds.antt =====
-- What one round of `process_queue` does to its own deploy, and what it leaves to the others.
use xjp_deploy_agent.Prelude.{
  Option-cases, ◌==◌, nat_eq, string_eq, any, ℕ, ◌<◌, String, ◌≡◌, refl, ◌∙◌, inl, inr, false,
  Option, none, some, List, eq_refl,
}
use xjp_deploy_agent.Prelude.Int.{ℤ}
use xjp_deploy_agent.HashMap
use xjp_deploy_agent.HashMap.Laws.{get-modify, get-remove}
use xjp_deploy_agent.Task
use xjp_deploy_agent.Task.{DeployStatus, DeployTask}
use xjp_deploy_agent.Task.Stage.{DeployStage}
use xjp_deploy_agent.TaskStore
use xjp_deploy_agent.TaskStore.Invariant.{
  IsValid, step, step-IsValid, updates_status, updates_stages, finishes,
}
use xjp_deploy_agent.LogHub
use xjp_deploy_agent.Persistence
use xjp_deploy_agent.Persistence.File.{Json}
use xjp_deploy_agent.Agent.Queue.{QueuedDeploy}
use xjp_deploy_agent.Agent.{AgentState}
use xjp_deploy_agent.Deploy.Execute.{Round, execute_single, clean_up, finish, start_next, run_next}
use xjp_deploy_agent.Deploy.Execute.Finish.{execute_single_lem}

get-update_status_other :
    (s : TaskStore.TaskStore) (id j : String) (status : DeployStatus) (code : Option ℤ) (now : ℕ)
    → (id == j) ≡ false
    → TaskStore.get (TaskStore.update_status s id status code now) j ≡ TaskStore.get s j
unfolding TaskStore.get TaskStore.update_status
get-update_status_other s id j status code now other =
    get-modify s.tasks id j (TaskStore.mark status code now) ∙ rw other refl

get-update_stages_other :
    (s : TaskStore.TaskStore) (id j : String) (stages : List DeployStage)
    → (id == j) ≡ false
    → TaskStore.get (TaskStore.update_stages s id stages) j ≡ TaskStore.get s j
unfolding TaskStore.get TaskStore.update_stages
get-update_stages_other s id j stages other =
    get-modify s.tasks id j (λ (t : DeployTask). record t { stages = stages }) ∙ rw other refl

get-finish_other :
    (s : TaskStore.TaskStore) (id j : String) (status : DeployStatus) (code : Option ℤ) (now : ℕ)
    → (id == j) ≡ false
    → TaskStore.get (TaskStore.finish s id status code now) j ≡ TaskStore.get s j
unfolding TaskStore.get TaskStore.finish TaskStore.add_to_history
get-finish_other s id j status code now other = elim (Option-cases (HashMap.get s.tasks id)) [
  | inl missing ↦ rw (missing, TaskStore.finish) refl
  | inr (t, there) ↦ rw (there, TaskStore.finish) (get-remove s.tasks id j ∙ rw other refl)
]

max_history-finish :
    (s : TaskStore.TaskStore) (id : String) (status : DeployStatus) (code : Option ℤ) (now : ℕ)
    → (TaskStore.finish s id status code now).max_history ≡ s.max_history
unfolding TaskStore.finish TaskStore.add_to_history
max_history-finish s id status code now = elim (Option-cases (HashMap.get s.tasks id)) [
  | inl missing ↦ rw (missing, TaskStore.finish) refl
  | inr (t, there) ↦ rw (there, TaskStore.finish) refl
]

-- The deploy is over in the state: its task shows what the round gave, the end included, its log is
-- closed, and it is no longer in the persisted queue in memory.
abbrev pub IsDone : {json : Json} → QueuedDeploy → Round json → AgentState json → Type 0
IsDone d r s =
    (t : DeployTask) × (TaskStore.get_any s.task_store d.task_id ≡ some t)
    × (t.status ≡ r.outcome.status)
    × (t.exit_code ≡ r.outcome.exit_code)
    × (t.stages ≡ r.outcome.stages)
    × (t.finished_at ≡ some r.ended_at)
    × (LogHub.subscribe s.log_hub d.task_id ≡ none)
    × (any (Persistence.has_id d.task_id) s.queue_persistence.queue.tasks ≡ false)

module _ (json : Json) (s : AgentState json) (project : String) (d : QueuedDeploy)
    (r : Round json) where
  pub run_next-IsDone :
      (t : DeployTask)
      → IsValid s.task_store
      → 0 < s.task_store.max_history
      → TaskStore.get s.task_store d.task_id ≡ some t
      → IsDone d r (run_next json s project d r)
  unfolding run_next start_next step TaskStore.update_status TaskStore.get
  run_next-IsDone t v room known =
      let store = TaskStore.update_status s.task_store d.task_id Task.running none r.started_at in
      let marked = TaskStore.mark Task.running none r.started_at t in
      let kept : IsValid store =
        step-IsValid s.task_store (r.started_at, updates_status d.task_id Task.running none) v in
      let there : TaskStore.get store d.task_id ≡ some marked =
        get-modify s.task_store.tasks d.task_id d.task_id
          (TaskStore.mark Task.running none r.started_at)
        ∙ rw (eq_refl d.task_id, known) refl in
      let lem =
        execute_single_lem json (start_next json s project d r) d.task_id project r.outcome
          r.ended_at r.save_end marked kept room there in
      (
        record marked {
          status = r.outcome.status;
          exit_code = r.outcome.exit_code;
          finished_at = some r.ended_at;
          stages = r.outcome.stages;
        },
        lem.0,
        refl,
        refl,
        refl,
        refl,
        lem.2,
        lem.3,
      )

  pub run_next-IsValid : IsValid s.task_store → IsValid (run_next json s project d r).task_store
  unfolding run_next execute_single clean_up finish start_next step
  run_next-IsValid v =
      let s₁ = TaskStore.update_status s.task_store d.task_id Task.running none r.started_at in
      let v₁ =
        step-IsValid s.task_store (r.started_at, updates_status d.task_id Task.running none) v in
      let s₂ = TaskStore.update_stages s₁ d.task_id r.outcome.stages in
      let v₂ = step-IsValid s₁ (r.ended_at, updates_stages d.task_id r.outcome.stages) v₁ in
      step-IsValid s₂ (r.ended_at, finishes d.task_id r.outcome.status r.outcome.exit_code) v₂

  -- The tasks of other deploys stay.
  pub get-run_next_other :
      (j : String)
      → (d.task_id == j) ≡ false
      → TaskStore.get (run_next json s project d r).task_store j ≡ TaskStore.get s.task_store j
  unfolding run_next execute_single clean_up finish start_next
  get-run_next_other j other =
      let s₁ = TaskStore.update_status s.task_store d.task_id Task.running none r.started_at in
      let s₂ = TaskStore.update_stages s₁ d.task_id r.outcome.stages in
      get-finish_other s₂ d.task_id j r.outcome.status r.outcome.exit_code r.ended_at other
      ∙ get-update_stages_other s₁ d.task_id j r.outcome.stages other
      ∙ get-update_status_other s.task_store d.task_id j Task.running none r.started_at other

  pub max_history-run_next :
      (run_next json s project d r).task_store.max_history ≡ s.task_store.max_history
  unfolding run_next execute_single clean_up finish start_next TaskStore.update_status
      TaskStore.update_stages
  max_history-run_next =
      max_history-finish _ d.task_id r.outcome.status r.outcome.exit_code r.ended_at
