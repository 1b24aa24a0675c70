-- ===== src/Deploy/Strategy.antt =====
-- src/services/deploy/mod.rs: `execute_single` with the strategy of the project's deploy type, and the
-- tasks that watch over it. What each strategy meets is given (`Work`).
use xjp_deploy_agent.Prelude.{
  Bool, ◌&&◌, not, Option, unwrap_or, List, is_some, nat_eq, string_eq, any, ℕ, ◌<◌, String, ◌≡◌,
  refl, true, false, none, some,
}
use xjp_deploy_agent.Task.Stage.{DeployStage}
use xjp_deploy_agent.Task.{DeployTask, is_terminal}
use xjp_deploy_agent.TaskStore
use xjp_deploy_agent.TaskStore.Invariant.{IsValid}
use xjp_deploy_agent.LogHub
use xjp_deploy_agent.Persistence
use xjp_deploy_agent.Persistence.File.{Json, Save}
use xjp_deploy_agent.Project.{
  DeployType, ProjectConfig, script, docker_compose, docker_build, xiaojincut,
}
use xjp_deploy_agent.Agent.{AgentState}
use xjp_deploy_agent.Agent.Running.{has_running_deploy}
use xjp_deploy_agent.Deploy.Execute.{Ending, finishes, panics, execute_single}
use xjp_deploy_agent.Deploy.Execute.Finish.{execute_single_lem, get-update_stages}
use xjp_deploy_agent.Deploy.Script
use xjp_deploy_agent.Deploy.Compose
use xjp_deploy_agent.Deploy.Compose.{canary_container_name}
use xjp_deploy_agent.Deploy.Compose.Swap.{
  Ends, is_finished, tries_canary, panics_canary, execute_compose_lem,
}
use xjp_deploy_agent.Deploy.DockerBuild
use xjp_deploy_agent.Deploy.DockerBuild.Pushed.{execute_build_lem}
use xjp_deploy_agent.Deploy.Xiaojincut
use xjp_deploy_agent.Deploy.Xiaojincut.{execute_xiaojincut_lem}

-- What the strategies meet; only the one that is chosen counts.
pub record Work : Type 0 where
  pub by_script : Script.Happening
  pub by_compose : Compose.Happening
  pub by_build : DockerBuild.Happening
  pub by_xiaojincut : Xiaojincut.Happening

module _ (to_lowercase : String → String) where
  -- The `match` on the deploy type.
  unfoldable pub run_strategy : (task_id : String) → DeployType → Work → Ending
  run_strategy task_id (script _) w = finishes (Script.execute w.by_script)
  run_strategy task_id (docker_compose compose_file image git_repo_dir service health_port) w =
      (Compose.execute to_lowercase task_id
        (record {
          compose_file = compose_file;
          image = image;
          git_repo_dir = git_repo_dir;
          service = service;
          health_port = health_port;
        })
        w.by_compose).0
  run_strategy task_id (docker_build dockerfile build_context image tag push_latest branch) w =
      finishes
        (DockerBuild.execute
          (record {
            dockerfile = dockerfile;
            build_context = build_context;
            image = image;
            tag = tag;
            push_latest = push_latest;
            branch = branch;
          })
          w.by_build).0
  run_strategy task_id (xiaojincut task_type input_path output_dir prompt port) w =
      finishes
        (Xiaojincut.execute
          (record {
            task_type = task_type;
            input_path = input_path;
            output_dir = output_dir;
            prompt = prompt;
            port = port;
          })
          w.by_xiaojincut).0

  -- The types of deploy but the compose one never panic.
  abbrev pub never_panics : (task_id : String) → DeployType → Work → Bool
  never_panics task_id (docker_compose a b c d e) w =
      is_some (canary_container_name task_id)
      && not (
          tries_canary to_lowercase task_id
            (record { compose_file = a; image = b; git_repo_dir = c; service = d; health_port = e })
            w.by_compose
          && panics_canary to_lowercase w.by_compose.canary)
  never_panics task_id type w = true

  -- An ending with an outcome has a terminal status and an exit code.
  abbrev IsOver : Ending → Type 0
  IsOver (finishes o) = (is_terminal o.status ≡ true) × (is_some o.exit_code ≡ true)
  IsOver (panics stored) = Unit

  IsOver-Ends : (b : Bool) (e : Ending) → Ends b e → IsOver e
  IsOver-Ends b (finishes o) h = (h.1, h.2)
  IsOver-Ends b (panics stored) h = tt

  run_strategy-IsOver :
      (task_id : String) (type : DeployType) (w : Work)
      → IsOver (run_strategy task_id type w)
        × (is_finished (run_strategy task_id type w) ≡ never_panics task_id type w)
  unfolding run_strategy
  run_strategy-IsOver task_id (script _) w =
      let lem = Script.execute_lem w.by_script in ((lem.1, lem.2), refl)
  run_strategy-IsOver task_id (docker_compose a b c d e) w =
      let lem = execute_compose_lem to_lowercase task_id _ w.by_compose in
      (IsOver-Ends _ _ lem.1, lem.2)
  run_strategy-IsOver task_id (docker_build a b c d e f) w =
      let lem = execute_build_lem _ w.by_build in ((lem.1, lem.2), refl)
  run_strategy-IsOver task_id (xiaojincut a b c d e) w =
      let lem = execute_xiaojincut_lem _ w.by_xiaojincut in ((lem.2, lem.3), refl)

  module _ (json : Json) where
    -- A panic ends the task of the deploy, so that nothing is cleaned up; the stages are kept that were
    -- stored before.
    unfoldable pub abandoned :
        AgentState json
        → (task_id : String) → (stored : Option (List DeployStage)) → AgentState json
    abandoned s task_id none = s
    abandoned s task_id (some stages) = record s {
      task_store = TaskStore.update_stages s.task_store task_id stages;
    }

    unfoldable pub end_project :
        AgentState json
        → (task_id project : String) → Ending
        → (now : ℕ) → Save (Json.Text json)
        → AgentState json
    end_project s task_id project (finishes o) now outcome =
        execute_single json s task_id project o now outcome
    end_project s task_id project (panics stored) now outcome = abandoned s task_id stored

    -- `execute_single` with the project's configuration.
    unfoldable pub execute_project :
        AgentState json
        → (task_id project : String) → ProjectConfig
        → Work
        → (now : ℕ) → Save (Json.Text json)
        → AgentState json
    execute_project s task_id project config w now outcome =
        end_project s task_id project (run_strategy task_id config.deploy_type w) now outcome

    -- What a deploy's ending leaves of it in `s'`, when its task was `t` in `s`.
    abbrev pub Left :
        AgentState json
        → DeployTask
        → (project : String) → (now : ℕ) → (task_id : String) → Ending
        → AgentState json
        → Type 0
    Left s t project now task_id (finishes o) s' =
        (done : DeployTask) × (TaskStore.get_any s'.task_store task_id ≡ some done)
        × (is_terminal done.status ≡ true)
        × (is_some done.exit_code ≡ true)
        × (done.finished_at ≡ some now)
        × (has_running_deploy s'.running_deploys project ≡ false)
        × (LogHub.subscribe s'.log_hub task_id ≡ none)
        × (any (Persistence.has_id task_id) s'.queue_persistence.queue.tasks ≡ false)
    Left s t project now task_id (panics stored) s' =
        (TaskStore.get s'.task_store task_id
          ≡ some (record t { stages = unwrap_or stored t.stages }))
        × (s'.running_deploys ≡ s.running_deploys)
        × (s'.log_hub ≡ s.log_hub)
        × (s'.queue_persistence ≡ s.queue_persistence)

    module _ (s : AgentState json) (task_id project : String) (now : ℕ)
        (outcome : Save (Json.Text json)) (t : DeployTask) where
      end_project_lem :
          (e : Ending)
          → IsValid s.task_store
          → 0 < s.task_store.max_history
          → TaskStore.get s.task_store task_id ≡ some t
          → IsOver e
          → Left s t project now task_id e (end_project s task_id project e now outcome)
      unfolding end_project abandoned
      end_project_lem (finishes o) v room known over =
          let lem = execute_single_lem json s task_id project o now outcome t v room known in
          (
            record t {
              status = o.status;
              exit_code = o.exit_code;
              finished_at = some now;
              stages = o.stages;
            },
            lem.0,
            over.0,
            over.1,
            refl,
            lem.1,
            lem.2,
            lem.3,
          )
      end_project_lem (panics none) v room known over = (known, refl, refl, refl)
      end_project_lem (panics (some stages)) v room known over =
          (get-update_stages s.task_store task_id stages t known, refl, refl, refl)

      -- Whatever the type of the project and whatever the commands and services do, a deploy ends unless
      -- it is a compose deploy that panics, in the cases of `execute_compose_lem`. When it ends, its task
      -- can still be asked for, with a terminal status, an exit code, and the end as its end time; no
      -- deploy of the project runs, its log is closed, and it is no longer in the persisted queue in
      -- memory. When it panics, its task keeps its status, and its log, the running deploys and the
      -- persisted queue stay as they were. The task was active in a valid store that keeps a history.
      pub execute_project_lem :
          (config : ProjectConfig) (w : Work)
          → IsValid s.task_store
          → 0 < s.task_store.max_history
          → TaskStore.get s.task_store task_id ≡ some t
          → let ending = run_strategy task_id config.deploy_type w in
            Left s t project now task_id ending
              (execute_project s task_id project config w now outcome)
            × (is_finished ending ≡ never_panics task_id config.deploy_type w)
      unfolding execute_project
      execute_project_lem config w v room known =
          let (over, finished) = run_strategy-IsOver task_id config.deploy_type w in
          (end_project_lem (run_strategy task_id config.deploy_type w) v room known over, finished)
