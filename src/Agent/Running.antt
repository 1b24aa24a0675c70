-- ===== src/Agent/Running.antt =====
-- src/state/app_state.rs: the running deploy of each project. A cancellation token is its identity,
-- which the caller supplies for a new token; the cancelled tokens are listed.
use xjp_deploy_agent.Prelude.{
  map_option, ◌==◌, nat_eq, string_eq, any, ℕ, String, Bool, true, false, Option, none, some, List,
  ◌∷◌,
}
use xjp_deploy_agent.HashMap
use xjp_deploy_agent.HashMap.{HashMap}

pub record RunningDeploy : Type 0 where
  pub task_id : String
  pub cancel_token : ℕ

pub record RunningDeploys : Type 0 where
  pub running : HashMap String RunningDeploy
  pub cancelled : List ℕ

unfoldable pub has_running_deploy : RunningDeploys → String → Bool
has_running_deploy r project = HashMap.contains_key r.running project

unfoldable pub register_running_deploy : RunningDeploys → String → String → ℕ → RunningDeploys
register_running_deploy r project task_id token = record r {
  running = HashMap.insert r.running project (record { task_id = task_id; cancel_token = token });
}

unfoldable pub unregister_running_deploy : RunningDeploys → String → RunningDeploys
unregister_running_deploy r project = record r { running = HashMap.remove r.running project }

unfoldable pub get_running_deploy_task_id : RunningDeploys → String → Option String
get_running_deploy_task_id r project =
    map_option (λ (d : RunningDeploy). d.task_id) (HashMap.get r.running project)

-- The flag says whether a deploy was running.
unfoldable pub cancel_deploy : RunningDeploys → String → RunningDeploys × Bool
cancel_deploy r project = elim (HashMap.get r.running project) [
  | some deploy ↦ (record r { cancelled = deploy.cancel_token ∷ r.cancelled }, true)
  | none ↦ (r, false)
]

unfoldable pub is_cancelled : RunningDeploys → ℕ → Bool
is_cancelled r token = any (λ t. t == token) r.cancelled
