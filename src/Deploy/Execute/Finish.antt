-- ===== src/Deploy/Execute/Finish.antt =====
-- What is left of a deploy that has run.
use xjp_deploy_agent.Prelude.{
  is_some, nat_eq, string_eq, retain, any, ℕ, ◌<◌, String, ◌≡◌, refl, ap, ◌∙◌, true, false, not,
  Option, none, some, List, [], ◌∷◌, arith, eq_refl,
}
use xjp_deploy_agent.HashMap
use xjp_deploy_agent.HashMap.Laws.{get-modify, get-remove_self, contains_key-get}
use xjp_deploy_agent.Task.{DeployTask}
use xjp_deploy_agent.Task.Stage.{DeployStage}
use xjp_deploy_agent.TaskStore
use xjp_deploy_agent.TaskStore.Invariant.{IsValid, step, step-IsValid, updates_stages}
use xjp_deploy_agent.TaskStore.Lifecycle.{get_any-finish}
use xjp_deploy_agent.LogHub
use xjp_deploy_agent.LogHub.Channels.{subscribe-finish}
use xjp_deploy_agent.Persistence
use xjp_deploy_agent.Persistence.File
use xjp_deploy_agent.Persistence.File.{Json, Save}
use xjp_deploy_agent.Agent.Running.{RunningDeploys, has_running_deploy, unregister_running_deploy}
use xjp_deploy_agent.Agent.{AgentState}
use xjp_deploy_agent.Project.{ProjectConfig, RemoteAgentConfig}
use xjp_deploy_agent.Agent.Queue.{TriggerRequest}
use xjp_deploy_agent.Error.{ok}
use xjp_deploy_agent.Deploy.Trigger.{Arrival, starts, find_project, decide, trigger_deploy}
use xjp_deploy_agent.Deploy.Trigger.Branches.{trigger_deploy-started, decide-starts}
use xjp_deploy_agent.Deploy.Execute.{Outcome, finish, clean_up, execute_single}

pub has_running_deploy-unregister :
    (r : RunningDeploys) (project : String)
    → has_running_deploy (unregister_running_deploy r project) project ≡ false
unfolding has_running_deploy unregister_running_deploy
has_running_deploy-unregister r project =
    contains_key-get (HashMap.remove r.running project) project
    ∙ rw (get-remove_self r.running project)

pub get-update_stages :
    (s : TaskStore.TaskStore) (id : String) (stages : List DeployStage) (t : DeployTask)
    → TaskStore.get s id ≡ some t
    → TaskStore.get (TaskStore.update_stages s id stages) id ≡ some (record t { stages = stages })
unfolding TaskStore.get TaskStore.update_stages
get-update_stages s id stages t e =
    get-modify s.tasks id id (λ (x : DeployTask). record x { stages = stages }) ∙ rw (eq_refl id, e)

any_removed :
    (id : String) (ts : List Persistence.PersistedTask)
    → any (Persistence.has_id id) (retain (λ t. not (Persistence.has_id id t)) ts) ≡ false
unfolding any retain
any_removed id [] = refl
any_removed id (t ∷ ts) = ground (arith, any_removed id ts)

module _ (json : Json) where
  open json use {Text}

  pub any-remove_task :
      (p : File.QueuePersistence json) (id : String) (now : ℕ) (outcome : Save Text)
      → any (Persistence.has_id id) (File.remove_task json p id now outcome).0.queue.tasks ≡ false
  unfolding File.remove_task File.saved Persistence.remove_task
  any-remove_task p id now outcome = ground (arith, any_removed id p.queue.tasks)

  -- When a deploy has run, its task can still be asked for and shows the outcome, stages included;
  -- the project has no running deploy, the log is closed, and the task is no longer in the persisted
  -- queue in memory. The waiting deploys are untouched. The task was active in a valid store that
  -- keeps a history.
  pub execute_single_lem :
      (s : AgentState json) (task_id project : String) (o : Outcome) (now : ℕ) (outcome : Save Text)
      (t : DeployTask)
      → IsValid s.task_store
      → 0 < s.task_store.max_history
      → TaskStore.get s.task_store task_id ≡ some t
      → let s' = execute_single json s task_id project o now outcome in
        (TaskStore.get_any s'.task_store task_id
          ≡ some (record t {
            status = o.status;
            exit_code = o.exit_code;
            finished_at = some now;
            stages = o.stages;
          }))
        × (has_running_deploy s'.running_deploys project ≡ false)
        × (LogHub.subscribe s'.log_hub task_id ≡ none)
        × (any (Persistence.has_id task_id) s'.queue_persistence.queue.tasks ≡ false)
        × (s'.deploy_queue ≡ s.deploy_queue)
  unfolding execute_single clean_up finish TaskStore.finished step TaskStore.update_stages
  execute_single_lem s task_id project o now outcome t v room e =
      let staged = get-update_stages s.task_store task_id o.stages t e in
      let kept = step-IsValid s.task_store (now, updates_stages task_id o.stages) v in
      (
        (get_any-finish _ task_id o.status o.exit_code now (record t { stages = o.stages }) kept
            room staged).1,
        has_running_deploy-unregister (unregister_running_deploy s.running_deploys project) project,
        subscribe-finish s.log_hub task_id task_id ∙ rw (eq_refl task_id),
        any-remove_task s.queue_persistence task_id now outcome,
        refl,
      )

  -- A trigger for a known project that arrives after a deploy of the project has called `finish`, and
  -- before `execute_single` has cleaned up, spawns a deploy; after the clean-up the project counts as
  -- idle all the same, and the next trigger would start too.
  pub late_unregister :
      (fetch_config : String → Option RemoteAgentConfig) (s : AgentState json)
      (ended project : String) (o : Outcome) (now later : ℕ) (outcome : Save Text)
      (request : TriggerRequest) (a : Arrival json) (config : ProjectConfig)
      → find_project json fetch_config (finish json s ended project o now) project ≡ ok config
      → let h =
          trigger_deploy json fetch_config (finish json s ended project o now) project request a in
        let s' = clean_up json h.state ended project later outcome in
        (is_some h.spawned ≡ true)
        × (has_running_deploy s'.running_deploys project ≡ false)
        × (decide json s' project ≡ starts)
  unfolding clean_up finish
  late_unregister fetch_config s ended project o now later outcome request a config known =
      let s₁ = finish json s ended project o now in
      let h = trigger_deploy json fetch_config s₁ project request a in
      let idle : has_running_deploy s₁.running_deploys project ≡ false =
        has_running_deploy-unregister s.running_deploys project in
      let gone = has_running_deploy-unregister h.state.running_deploys project in
      (
        ap is_some
            (trigger_deploy-started json fetch_config s₁ project request a config known idle).0,
        gone,
        decide-starts json _ project gone,
      )
