-- ===== src/Deploy/Trigger/Bound.antt =====
-- No sequence of triggers, handled one after another, fills a project's queue past its limit.
use xjp_deploy_agent.Prelude.{length, ◌≤◌, String, ◌≡◌, refl, Option, List, [], ◌∷◌, arith}
use xjp_deploy_agent.Persistence.File.{Json}
use xjp_deploy_agent.Project.{ProjectConfig, RemoteAgentConfig}
use xjp_deploy_agent.Agent.Queue.{TriggerRequest}
use xjp_deploy_agent.Agent.Queue.Fifo.{waiting, length-enqueue_deploy, get_queue_length-waiting}
use xjp_deploy_agent.Agent.{AgentState}
use xjp_deploy_agent.Error.{ok, err}
use xjp_deploy_agent.Deploy.Trigger.{
  Arrival, Decision, starts, waits, refuses, answer, find_project, decide, enqueue, start, refuse,
  carry_out, trigger_deploy, max_queue_size,
}

module _ (json : Json) (fetch_config : String → Option RemoteAgentConfig) where
  abbrev pub IsBounded : AgentState json → Type 0
  IsBounded s = (project : String) → length (waiting s.deploy_queue project) ≤ max_queue_size

  carry_out-IsBounded :
      (d : Decision) (s : AgentState json) (project : String) (config : ProjectConfig)
      (request : TriggerRequest) (a : Arrival json)
      → decide json s project ≡ d
      → IsBounded s
      → IsBounded (carry_out json d s project config request a).state
  unfolding carry_out start enqueue refuse decide
  carry_out-IsBounded starts s project config request a e b j = b j
  carry_out-IsBounded refuses s project config request a e b j = b j
  carry_out-IsBounded waits s project config request a e b j =
      rw length-enqueue_deploy
        (ground (arith, b j, get_queue_length-waiting s.deploy_queue project))

  pub trigger_deploy-IsBounded :
      (s : AgentState json) (project : String) (request : TriggerRequest) (a : Arrival json)
      → IsBounded s
      → IsBounded (trigger_deploy json fetch_config s project request a).state
  unfolding trigger_deploy answer
  trigger_deploy-IsBounded s project request a b =
      elim (find_project json fetch_config s project)
        as (λ found. IsBounded (answer json s project request a found).state) [
          | err e ↦ b
          | ok config ↦
              carry_out-IsBounded (decide json s project) s project config request a refl b
        ]

  unfoldable pub triggers :
      AgentState json → List (String × TriggerRequest × Arrival json) → AgentState json
  triggers s [] = s
  triggers s ((project, request, a) ∷ rest) =
      triggers (trigger_deploy json fetch_config s project request a).state rest

  -- If no project's queue is over the limit of ten, none is after any triggers, for whatever
  -- projects, that are handled one after another.
  pub triggers-IsBounded :
      (s : AgentState json) (arrivals : List (String × TriggerRequest × Arrival json))
      → IsBounded s
      → IsBounded (triggers s arrivals)
  unfolding triggers
  triggers-IsBounded s [] b = b
  triggers-IsBounded s ((project, request, a) ∷ rest) b =
      triggers-IsBounded (trigger_deploy json fetch_config s project request a).state rest
        (trigger_deploy-IsBounded s project request a b)
