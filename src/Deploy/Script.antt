-- ===== src/Deploy/Script.antt =====
-- src/services/deploy/script.rs: the deploy that runs a script. What `git`, the script and a
-- cancellation do is given (`Happening`); the log lines, and the stages that are stored on the way
-- and replaced at the end, are not modelled.
use xjp_deploy_agent.Prelude.{
  if◌then◌else◌, is_some, map_option, unwrap_or, ℕ, String, ◌≡◌, Bool, true, false, not, ◌&&◌,
  Option, none, some, List, [], ◌∷◌, arith,
}
use xjp_deploy_agent.Prelude.Int.{ℤ, negsuc}
use xjp_deploy_agent.Task.{DeployStatus, is_terminal}
use xjp_deploy_agent.Task
use xjp_deploy_agent.Task.Stage.{DeployStage, StageStatus}
use xjp_deploy_agent.Task.Stage
use xjp_deploy_agent.Deploy.Execute.{Outcome}

pub data Pull : Type 0 where
  pulled pull_failed : Pull
  not_started : String → Pull

-- How the wait for the script ends: by a cancellation, by its exit (with its code, if it has one), or
-- by an error.
pub data Ending : Type 0 where
  cancelled wait_error : Ending
  exited : Bool → Option ℤ → Ending

pub record Happening : Type 0 where
  pub pull : Pull
  pub cancelled_early : Bool
  pub spawn_error : Option String
  pub ending : Ending
  pub at_start : ℕ
  pub at_pull : ℕ
  pub at_script : ℕ
  pub at_end : ℕ

unfoldable pub pull_stage : Happening → DeployStage
pull_stage h =
    let started = Stage.start (Stage.new "git_pull" "Git Pull") h.at_start in
    elim h.pull [
      | pulled ↦ Stage.finish started true none h.at_pull
      | pull_failed ↦
          Stage.finish started false (some "git pull failed, continuing anyway") h.at_pull
      | not_started e ↦ Stage.finish started false (some e) h.at_pull
    ]

-- `code().unwrap_or(-1)`, and the status.
unfoldable pub ended : Ending → DeployStatus × ℤ
ended (exited true code) = (Task.success, unwrap_or code (negsuc 0))
ended (exited false code) = (Task.failed, unwrap_or code (negsuc 0))
ended wait_error = (Task.failed, negsuc 0)
ended cancelled = (Task.failed, negsuc 1)

unfoldable pub is_success : DeployStatus → Bool
is_success Task.success = true
is_success _ = false

unfoldable pub after_spawn : Happening → DeployStage → DeployStage → Ending → Outcome
after_spawn h git script cancelled = record {
  status = Task.failed;
  exit_code = some (negsuc 1);
  stages = git ∷ Stage.finish script false (some "cancelled") h.at_end ∷ [];
}
after_spawn h git script e =
    let (status, code) = ended e in
    record {
      status = status;
      exit_code = some code;
      stages = git ∷ Stage.finish script (is_success status) none h.at_end ∷ [];
    }

-- What the deploy hands to `DeployContext::finish`.
unfoldable pub execute : Happening → Outcome
execute h =
    let git = pull_stage h in
    let waiting = Stage.new "execute_script" "Execute Script" in
    let script = Stage.start waiting h.at_script in
    if h.cancelled_early
    then record { status = Task.failed; exit_code = some (negsuc 1); stages = git ∷ waiting ∷ [] }
    else elim h.spawn_error [
      | some e ↦ record {
        status = Task.failed;
        exit_code = some (negsuc 0);
        stages = git ∷ Stage.finish script false (some e) h.at_end ∷ [];
      }
      | none ↦ after_spawn h git script h.ending
    ]

abbrev is_exit_success : Ending → Bool
is_exit_success (exited ok code) = ok
is_exit_success _ = false

abbrev pub is_stage_success : StageStatus → Bool
is_stage_success Stage.success = true
is_stage_success _ = false

abbrev pub second : List DeployStage → Option DeployStage
second (git ∷ script ∷ rest) = some script
second _ = none

-- The script was started and has exited with success.
abbrev pub succeeds : Happening → Bool
succeeds h = not h.cancelled_early && not (is_some h.spawn_error) && is_exit_success h.ending

-- The deploy counts as a success exactly if nothing cancelled it, the script could be started
-- and it exited with success, whatever `git pull` did; it always ends in a terminal status
-- with an exit code, and has a second stage, which is a success exactly if the deploy is.
pub execute_lem :
    (h : Happening)
    → (is_success (execute h).status ≡ succeeds h)
      × (is_terminal (execute h).status ≡ true)
      × (is_some (execute h).exit_code ≡ true)
      × (map_option (λ (d : DeployStage). is_stage_success d.status) (second (execute h).stages)
          ≡ some (succeeds h))
unfolding execute after_spawn ended is_success is_terminal Stage.finish Stage.new Stage.start
execute_lem h = ground arith
