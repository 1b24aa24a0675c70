-- ===== src/Deploy/Logs.antt =====
-- src/api/deploy.rs: `stream_logs`, the log of a task as server-sent events. What the receiver of the
-- task's channel gets is a list of messages; the channel closes when its last sender is gone.
use xjp_deploy_agent.Prelude.{
  map_option, ℕ, String, ◌≡◌, refl, ap, ◌∙◌, Option, none, some, List, [], ◌∷◌, eq_refl,
}
use xjp_deploy_agent.Prelude.Int.{ℤ}
use xjp_deploy_agent.Task.{DeployStatus, LogLine}
use xjp_deploy_agent.TaskStore.{TaskStore, get}
use xjp_deploy_agent.TaskStore.Lifecycle.{finish_lem}
use xjp_deploy_agent.LogHub
use xjp_deploy_agent.Persistence.File.{Json}
use xjp_deploy_agent.Agent.{AgentState}
use xjp_deploy_agent.Error.{ApiResult, ok_or, not_found}
use xjp_deploy_agent.Deploy.Execute.{Outcome, finish}

pub data Received : Type 0 where
  line : LogLine → Received
  lagged : ℕ → Received
  closed : Received

pub data Event : Type 0 where
  log : LogLine → Event
  complete : DeployStatus → Option ℤ → Event

-- The closing event, if the task is active when the channel is closed.
unfoldable pub closing : TaskStore → String → List Event
closing tasks task_id = elim (get tasks task_id) [
  | some t ↦ complete t.status t.exit_code ∷ []
  | none ↦ []
]

-- The events for what is received, where `tasks` is the task store when the channel is closed.
unfoldable pub follow : TaskStore → String → List Received → List Event
follow tasks task_id [] = []
follow tasks task_id (line l ∷ rest) = log l ∷ follow tasks task_id rest
follow tasks task_id (lagged n ∷ rest) = follow tasks task_id rest
follow tasks task_id (closed ∷ rest) = closing tasks task_id

-- The lines that were received before the channel was closed.
unfoldable pub lines : List Received → List Event
lines [] = []
lines (line l ∷ rest) = log l ∷ lines rest
lines (lagged n ∷ rest) = lines rest
lines (closed ∷ rest) = []

module _ (json : Json) where
  -- The request is refused if the task has no channel.
  unfoldable pub stream_logs :
      AgentState json → TaskStore → String → List Received → ApiResult (List Event)
  stream_logs s at_close task_id received =
      ok_or
        (map_option (λ (sender : ℕ). follow at_close task_id received)
          (LogHub.subscribe s.log_hub task_id))
        (not_found task_id)

  follow-gone :
      (tasks : TaskStore) (task_id : String) (received : List Received)
      → get tasks task_id ≡ none
      → follow tasks task_id received ≡ lines received
  unfolding follow lines closing
  follow-gone tasks task_id [] e = refl
  follow-gone tasks task_id (line l ∷ rest) e = ap (◌∷◌ (log l)) (follow-gone tasks task_id rest e)
  follow-gone tasks task_id (lagged n ∷ rest) e = follow-gone tasks task_id rest e
  follow-gone tasks task_id (closed ∷ rest) e = rw (e, closing)

  -- A follower of a deploy's log whose channel is closed by the deploy's end gets the lines and
  -- nothing else: the closing event with the status and the exit code is not sent.
  pub follow-finish :
      (s : AgentState json) (task_id project : String) (o : Outcome) (now : ℕ)
      (received : List Received)
      → follow (finish json s task_id project o now).task_store task_id received ≡ lines received
  unfolding finish
  follow-finish s task_id project o now received =
      follow-gone _ task_id received
        ((finish_lem _ task_id o.status o.exit_code now).0 task_id ∙ rw (eq_refl task_id))
