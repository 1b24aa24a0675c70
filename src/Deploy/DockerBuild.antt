-- ===== src/Deploy/DockerBuild.antt =====
-- src/services/deploy/docker_build.rs: the deploy that builds and pushes an image. What each command
-- does and when a cancellation is seen is given (`Happening`); a status is a success exactly if its
-- code is 0. The log lines and the removal of hung builds are not modelled.
pub mod Pushed
use xjp_deploy_agent.Prelude.{
  nat_beq, if◌then◌else◌, unwrap_or, nat_eq, string_eq, ℕ, ◌+◌, String, Bool, true, false, ◌&&◌,
  Option, none, some, List, [], ◌∷◌, ◌++◌, map,
}
use xjp_deploy_agent.Prelude.Text.{◌⊕◌}
use xjp_deploy_agent.Prelude.Int.{ℤ, pos, negsuc}
use xjp_deploy_agent.Task
use xjp_deploy_agent.Task.Stage.{DeployStage, StageStatus}
use xjp_deploy_agent.Task.Stage
use xjp_deploy_agent.Deploy.Execute.{Outcome}

pub record DockerBuildConfig : Type 0 where
  pub dockerfile : Option String
  pub build_context : Option String
  pub image : String
  pub tag : Option String
  pub push_latest : Bool
  pub branch : Option String

-- A command that was run to its end, with its exit code, if it has one, or that was not, with the
-- message of its stage.
pub data Run : Type 0 where
  ran : Option ℤ → Run
  not_run : String → Run

-- How the wait for the build ends.
pub data Build : Type 0 where
  ended : Run → Build
  not_started : String → Build
  cancelled : Build

pub record Happening : Type 0 where
  pub pull : Run
  pub revision : Option String
  pub cancelled_after_pull : Bool
  pub build : Build
  pub cancelled_before_push : Bool
  pub push : Run
  pub cancelled_before_latest : Bool
  pub push_latest : Run
  pub times : ℕ → ℕ

-- The commands that the deploy tries to run, with what they name.
pub data DockerCommand : Type 0 where
  git_pull : (branch : String) → DockerCommand
  docker_build : (image dockerfile context : String) → DockerCommand
  docker_push : (image : String) → DockerCommand
  docker_tag : (image alias_ : String) → DockerCommand

pub record Building : Type 0 where
  pub pulling : DeployStage
  pub building : DeployStage
  pub pushing : DeployStage
  pub latest : List DeployStage
  pub exit_code : ℤ
  pub commands : List DockerCommand

abbrev pub is_zero : ℤ → Bool
is_zero (pos n) = nat_beq n 0
is_zero (negsuc n) = false

abbrev pub is_success_code : Option ℤ → Bool
is_success_code none = false
is_success_code (some code) = is_zero code

abbrev pub succeeds : Run → Bool
succeeds (ran code) = is_success_code code
succeeds (not_run e) = false

-- The stage at the end of its command, and the exit code of the deploy.
unfoldable pub end_stage : DeployStage → Run → (message : String) → (now : ℕ) → DeployStage × ℤ
end_stage stage (ran code) message now =
    if is_success_code code
    then (Stage.finish stage true none now, pos 0)
    else (Stage.finish stage false (some message) now, unwrap_or code (negsuc 0))
end_stage stage (not_run e) message now = (Stage.finish stage false (some e) now, negsuc 0)

unfoldable pub stages_of : Building → List DeployStage
stages_of b = b.pulling ∷ b.building ∷ b.pushing ∷ b.latest

unfoldable pub stop_cancelled : Building → Outcome × List DockerCommand
stop_cancelled b =
    (record { status = Task.failed; exit_code = some (negsuc 1); stages = stages_of b }, b.commands)

-- A stage that has not ended is marked as skipped.
unfoldable pub skip_open : DeployStage → DeployStage
skip_open stage = elim stage.status [
  | Stage.pending ↦ record stage { status = Stage.skipped }
  | Stage.running ↦ record stage { status = Stage.skipped }
  | Stage.success ↦ stage
  | Stage.failed ↦ stage
  | Stage.skipped ↦ stage
]

unfoldable pub skip_all : Building → Building
skip_all b = record b {
  pulling = skip_open b.pulling;
  building = skip_open b.building;
  pushing = skip_open b.pushing;
  latest = map skip_open b.latest;
}

module _ (config : DockerBuildConfig) (h : Happening) where
  unfoldable pub pull_code : Building
  pull_code =
      let started = Stage.start (Stage.new "git_pull" "Git Pull") (h.times 0) in
      let (pulling, code) = end_stage started h.pull "git pull failed" (h.times 1) in
      record {
        pulling = pulling;
        building = Stage.new "docker_build" "Docker Build";
        pushing = Stage.new "docker_push" "Docker Push";
        latest =
            if config.push_latest
            then Stage.new "docker_push_latest" "Push Latest Tag" ∷ []
            else [];
        exit_code = code;
        commands = git_pull (unwrap_or config.branch "master") ∷ [];
      }

  -- The tag, or the revision that was pulled.
  unfoldable pub commit_hash : String
  commit_hash = unwrap_or config.tag (unwrap_or h.revision "latest")

  unfoldable pub full_image : String
  full_image = config.image ⊕ (":" ⊕ commit_hash)

  unfoldable pub finish : Building → Outcome × List DockerCommand
  finish b = (
    record {
      status = if is_zero b.exit_code then Task.success else Task.failed;
      exit_code = some b.exit_code;
      stages = stages_of b;
    },
    b.commands,
  )

  -- A failure here does not fail the deploy.
  unfoldable pub push_latest_tag : Building → Building
  push_latest_tag b = elim b.latest [
    | [] ↦ b
    | stage ∷ stages ↦ record b {
      latest =
          (end_stage (Stage.start stage (h.times 6)) h.push_latest "push latest failed"
            (h.times 7)).0
          ∷ stages;
      commands =
          b.commands
          ++ docker_tag full_image (config.image ⊕ ":latest")
            ∷ docker_push (config.image ⊕ ":latest")
            ∷ [];
    }
  ]

  unfoldable pub after_push : Building → Outcome × List DockerCommand
  after_push b =
      if is_zero b.exit_code && h.cancelled_before_latest
      then stop_cancelled b
      else finish (if is_zero b.exit_code && config.push_latest then push_latest_tag b else b)

  unfoldable pub push_image : Building → Building
  push_image b =
      let (pushing, code) =
        end_stage (Stage.start b.pushing (h.times 4)) h.push "docker push failed" (h.times 5) in
      record b {
        pushing = pushing;
        exit_code = code;
        commands = b.commands ++ docker_push full_image ∷ [];
      }

  unfoldable pub after_build : Building → Outcome × List DockerCommand
  after_build b =
      if is_zero b.exit_code && h.cancelled_before_push
      then stop_cancelled b
      else after_push (if is_zero b.exit_code then push_image b else b)

  unfoldable pub after_wait : Building → Build → Outcome × List DockerCommand
  after_wait b (not_started e) = after_build (record b {
    building = Stage.finish b.building false (some e) (h.times 3);
    exit_code = negsuc 0;
  })
  after_wait b cancelled = stop_cancelled (skip_all b)
  after_wait b (ended run) =
      let (building, code) = end_stage b.building run "docker build failed" (h.times 3) in
      after_build (record b { building = building; exit_code = code })

  unfoldable pub build_image : Building → Outcome × List DockerCommand
  build_image b =
      after_wait
        (record b {
          building = Stage.start b.building (h.times 2);
          commands =
              b.commands
              ++ docker_build full_image (unwrap_or config.dockerfile "Dockerfile")
                  (unwrap_or config.build_context ".")
                ∷ [];
        })
        h.build

  -- What the deploy hands to `DeployContext::finish`, and the commands that it tried.
  unfoldable pub execute : Outcome × List DockerCommand
  execute =
      if h.cancelled_after_pull
      then stop_cancelled pull_code
      else if is_zero pull_code.exit_code
      then build_image pull_code
      else after_build pull_code
