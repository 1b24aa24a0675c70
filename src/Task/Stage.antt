-- ===== src/Task/Stage.antt =====
-- src/domain/deploy.rs: the stages of a deploy.
use xjp_deploy_agent.Prelude.{ℕ, String, Bool, Option, none, some, if◌then◌else◌}
use xjp_deploy_agent.Prelude.Int.{ℤ, sub_ℕ}

pub data StageStatus : Type 0 where
  pending running success failed skipped : StageStatus

pub record DeployStage : Type 0 where
  pub name : String
  pub display_name : String
  pub started_at : Option ℕ
  pub finished_at : Option ℕ
  pub duration_ms : Option ℤ
  pub status : StageStatus
  pub message : Option String

unfoldable pub new : String → String → DeployStage
new name display_name = record {
  name = name;
  display_name = display_name;
  started_at = none;
  finished_at = none;
  duration_ms = none;
  status = pending;
  message = none;
}

unfoldable pub start : DeployStage → ℕ → DeployStage
start s now = record s { started_at = some now; status = running }

-- The duration is written only if the stage was started.
unfoldable pub finish : DeployStage → Bool → Option String → ℕ → DeployStage
finish s ok message now =
    let done = record s {
      finished_at = some now;
      status = if ok then success else failed;
      message = message;
    } in
    elim s.started_at [
      | some started ↦ record done { duration_ms = some (sub_ℕ now started) }
      | none ↦ done
    ]

unfoldable pub skip : DeployStage → Option String → DeployStage
skip s reason = record s { status = skipped; message = reason }
