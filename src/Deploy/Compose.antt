-- ===== src/Deploy/Compose.antt =====
-- src/services/deploy/docker_compose.rs: the deploy that starts a canary container and then swaps the
-- running one. What each command does is given (`Happening`). The log lines and the removal of stale
-- canaries are not modelled.
pub mod Canary
pub mod Monitor
pub mod Waiting
pub mod Swap
mod Tests
use xjp_deploy_agent.Prelude.{
  map_option, ltb, if◌then◌else◌, is_some, ℕ, String, Bool, true, false, not, ◌&&◌, Option, none,
  some, List, [], ◌∷◌, ◌++◌,
}
use xjp_deploy_agent.Prelude.Int.{ℤ, pos, negsuc}
use xjp_deploy_agent.Task
use xjp_deploy_agent.Task.Stage.{DeployStage}
use xjp_deploy_agent.Task.Stage
use xjp_deploy_agent.Deploy.Execute.{Outcome, Ending, finishes, panics}
use xjp_deploy_agent.Deploy.DockerBuild.{Run, is_zero, end_stage}
use xjp_deploy_agent.Prelude.Text.{◌⊕◌, byte_length, take_bytes}
use Canary.{CanaryRun, run_canary_health_check}
use Canary
use Monitor.{Observation, run_post_deploy_monitor}

pub record DockerComposeConfig : Type 0 where
  pub compose_file : String
  pub image : String
  pub git_repo_dir : Option String
  pub service : Option String
  pub health_port : Option ℕ

pub record Happening : Type 0 where
  pub git_pull : Run
  pub docker_pull : Run
  pub is_cancelled : Bool
  pub canary : CanaryRun
  pub compose_up : Run
  pub observations : List Observation
  pub times : ℕ → ℕ

-- `is_swapped` says whether `compose up --force-recreate` was tried, which replaces the container.
pub record Deploying : Type 0 where
  pub stages : List DeployStage
  pub exit_code : ℤ
  pub is_swapped : Bool

-- The stages that were not reached.
unfoldable pub with_rest : List DeployStage → List DeployStage
with_rest (a ∷ b ∷ []) =
    a
    ∷ b
    ∷ Stage.new "health_check" "Health Check"
    ∷ Stage.new "compose_up" "Compose Up"
    ∷ Stage.new "post_deploy_monitor" "Post-Deploy Monitor"
    ∷ []
with_rest (a ∷ b ∷ c ∷ []) =
    a
    ∷ b
    ∷ c
    ∷ Stage.new "compose_up" "Compose Up"
    ∷ Stage.new "post_deploy_monitor" "Post-Deploy Monitor"
    ∷ []
with_rest (a ∷ b ∷ c ∷ d ∷ []) =
    a ∷ b ∷ c ∷ d ∷ Stage.new "post_deploy_monitor" "Post-Deploy Monitor" ∷ []
with_rest other = other

unfoldable pub if_going : (Deploying → Deploying) → Deploying → Deploying
if_going f d = if is_zero d.exit_code then f d else d

-- None where the code panics: the eighth byte of the task's id ends inside a character.
unfoldable pub canary_container_name : (task_id : String) → Option String
canary_container_name task_id =
    map_option (λ short_id. "deploy-canary-" ⊕ short_id)
      (if ltb 8 (byte_length task_id) then take_bytes 8 task_id else some task_id)

module _ (to_lowercase : String → String) (task_id : String) (config : DockerComposeConfig)
    (h : Happening) where
  unfoldable pub git_stage : DeployStage
  git_stage =
      let stage = Stage.new "git_pull" "Git Pull" in
      elim config.git_repo_dir [
        | none ↦ Stage.skip stage (some "not configured")
        | some dir ↦
            let ended =
              end_stage (Stage.start stage (h.times 0)) h.git_pull "git pull failed, continuing"
                (h.times 1) in
            ended.0
      ]

  -- A failing `git pull` is passed over.
  unfoldable pub pull_both : Deploying
  pull_both =
      let started = Stage.start (Stage.new "docker_pull" "Docker Pull") (h.times 0) in
      let (pulled, code) = end_stage started h.docker_pull "docker pull failed" (h.times 1) in
      record { stages = git_stage ∷ pulled ∷ []; exit_code = code; is_swapped = false }

  unfoldable pub canary_started : DeployStage
  canary_started = Stage.start (Stage.new "health_check" "Health Check") (h.times 2)

  -- None where the check panics.
  unfoldable pub check_canary : Deploying → Option Deploying
  check_canary d = elim (run_canary_health_check to_lowercase h.canary) [
    | Canary.passes ↦
        some
          (record d { stages = d.stages ++ Stage.finish canary_started true none (h.times 3) ∷ [] })
    | Canary.fails e ↦ some (record d {
      stages = d.stages ++ Stage.finish canary_started false (some e) (h.times 3) ∷ [];
      exit_code = negsuc 0;
    })
    | Canary.panics ↦ none
  ]

  unfoldable pub swap : Deploying → Deploying
  swap d =
      let started = Stage.start (Stage.new "compose_up" "Compose Up") (h.times 4) in
      let (up, code) = end_stage started h.compose_up "compose up failed" (h.times 5) in
      record { stages = d.stages ++ up ∷ []; exit_code = code; is_swapped = true }

  -- What the monitor finds is noted in its stage alone.
  unfoldable pub monitor : Deploying → Deploying
  monitor d =
      let started =
        Stage.start (Stage.new "post_deploy_monitor" "Post-Deploy Monitor") (h.times 6) in
      let error = (run_post_deploy_monitor h.observations).0 in
      record d {
        stages = d.stages ++ Stage.finish started (not (is_some error)) error (h.times 7) ∷ [];
      }

  -- What the deploy hands to `DeployContext::finish` at its end.
  unfoldable pub concluded : Deploying → Outcome
  concluded d = record {
    status = if is_zero d.exit_code then Task.success else Task.failed;
    exit_code = some d.exit_code;
    stages = with_rest d.stages;
  }

  -- From the two pulls on; the flag says whether the container was replaced.
  unfoldable pub execute_stages : Ending × Bool
  execute_stages =
      let d = pull_both in
      if h.is_cancelled && is_zero d.exit_code
      then (
        finishes (record {
          status = Task.failed;
          exit_code = some (negsuc 1);
          stages = with_rest d.stages;
        }),
        false,
      )
      else elim (if is_zero d.exit_code then check_canary d else some d) [
        | none ↦ (panics (some (with_rest (d.stages ++ canary_started ∷ []))), false)
        | some checked ↦
            let last = if_going monitor (if_going swap checked) in
            (finishes (concluded last), last.is_swapped)
      ]

  unfoldable pub execute : Ending × Bool
  execute = elim (canary_container_name task_id) [
    | none ↦ (panics none, false)
    | some canary_name ↦ execute_stages
  ]
