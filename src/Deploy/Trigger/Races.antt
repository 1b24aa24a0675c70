-- ===== src/Deploy/Trigger/Races.antt =====
-- Triggers that overlap: `trigger_deploy` looks at the running deploys and at the queue under locks
-- that it has given up again when it acts.
use xjp_deploy_agent.Prelude.{
  is_some, unwrap_or, length, ◌+◌, String, ◌≡◌, refl, true, false, some, arith,
}
use xjp_deploy_agent.HashMap.Laws.{get-insert_self}
use xjp_deploy_agent.Persistence.File.{Json}
use xjp_deploy_agent.Project.{ProjectConfig}
use xjp_deploy_agent.Agent.Queue.{TriggerRequest}
use xjp_deploy_agent.Agent.Queue.Fifo.{waiting, length-enqueue_deploy_self}
use xjp_deploy_agent.Agent.Running.{
  has_running_deploy, register_running_deploy, get_running_deploy_task_id,
}
use xjp_deploy_agent.Agent.{AgentState}
use xjp_deploy_agent.Deploy.Trigger.{
  Arrival, Handled, decide, enqueue, start, carry_out, max_queue_size,
}
use xjp_deploy_agent.Deploy.Trigger.Branches.{decide-starts, decide-waits}

module _ (json : Json) where
  -- Two requests for one project that both look before either acts.
  unfoldable pub overlap :
      AgentState json
      → String
      → ProjectConfig
      → TriggerRequest × Arrival json
      → TriggerRequest × Arrival json
      → Handled json × Handled json
  overlap s project config (r₁, a₁) (r₂, a₂) =
      let d₁ = decide json s project in
      let d₂ = decide json s project in
      let h₁ = carry_out json d₁ s project config r₁ a₁ in
      (h₁, carry_out json d₂ h₁.state project config r₂ a₂)

  -- Two overlapping triggers of an idle project both start: two deploys of the project are spawned,
  -- and only the second is registered as running.
  pub overlap_starts_both :
      (s : AgentState json) (project : String) (config : ProjectConfig) (r₁ r₂ : TriggerRequest)
      (a₁ a₂ : Arrival json)
      → has_running_deploy s.running_deploys project ≡ false
      → let (h₁, h₂) = overlap s project config (r₁, a₁) (r₂, a₂) in
        (is_some h₁.spawned ≡ true)
        × (is_some h₂.spawned ≡ true)
        × (get_running_deploy_task_id h₂.state.running_deploys project
            ≡ some (unwrap_or r₂.deploy_log_id a₂.uuid))
  unfolding overlap carry_out start get_running_deploy_task_id register_running_deploy
  overlap_starts_both s project config r₁ r₂ a₁ a₂ idle =
      rw (decide-starts json s project idle) (refl, refl, rw get-insert_self)

  -- Two overlapping triggers of a busy project whose queue has one place left are both queued: the
  -- queue is then over its limit.
  pub overlap_overfills :
      (s : AgentState json) (project : String) (config : ProjectConfig) (r₁ r₂ : TriggerRequest)
      (a₁ a₂ : Arrival json)
      → has_running_deploy s.running_deploys project ≡ true
      → length (waiting s.deploy_queue project) + 1 ≡ max_queue_size
      → length (waiting (overlap s project config (r₁, a₁) (r₂, a₂)).1.state.deploy_queue project)
        ≡ max_queue_size + 1
  unfolding overlap carry_out enqueue
  overlap_overfills s project config r₁ r₂ a₁ a₂ busy last =
      rw (decide-waits json s project busy (omega arith))
        (simp length-enqueue_deploy_self (omega arith))
