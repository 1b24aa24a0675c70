-- ===== src/Deploy/Recover/Order.antt =====
-- Which deploys wait and run after a restart.
use xjp_deploy_agent.Prelude.{
  if◌then◌else◌, Bool-cases, Option-cases, ◌==◌, nat_eq, string_eq, All, String, ◌≡◌, refl, sym, ap,
  ◌∙◌, inl, inr, true, false, not, ◌&&◌, Option, none, some, List, [], ◌∷◌, ◌++◌, arith, eq_iff,
}
use xjp_deploy_agent.Persistence.{PersistedTask}
use xjp_deploy_agent.Persistence.File.{Json}
use xjp_deploy_agent.Project.{ProjectConfig, RemoteAgentConfig}
use xjp_deploy_agent.Agent.Queue.{QueuedDeploy}
use xjp_deploy_agent.Agent.Queue.Fifo.{waiting, enqueue_deploy_lem}
use xjp_deploy_agent.Agent.{AgentState, get_project}
use xjp_deploy_agent.Deploy.Trigger.{Arrival, Spawned}
use xjp_deploy_agent.Deploy.Recover.{
  is_running, queued_of, find_config, spawned_for, restart, requeue, recover_task, recover_all,
}
use mathlib.Core.Path.{ap₂}
use mathlib.Core.List.{append-nil, append_assoc}

-- The persisted tasks of a project that were queued, in their order, as deploys that wait.
pub queued_again : String → ProjectConfig → List PersistedTask → List QueuedDeploy
queued_again project config [] = []
queued_again project config (t ∷ ts) =
    let rest = queued_again project config ts in
    if t.project == project && not (is_running t) then queued_of t config ∷ rest else rest

queued_again-cons :
    (project : String) (config : ProjectConfig) (t : PersistedTask) (ts : List PersistedTask)
    → queued_again project config (t ∷ []) ++ queued_again project config ts
      ≡ queued_again project config (t ∷ ts)
unfolding queued_again
queued_again-cons project config t ts = ground arith

absent {ℓ} : {A : Type ℓ} {a : A} → none ≡ some a → ⊥
absent e = cc

some_eq {ℓ} : {A : Type ℓ} {a b : A} → some a ≡ some b → a ≡ b
some_eq e = cc

module _ (json : Json) (fetch_config : String → Option RemoteAgentConfig)
    (draw : PersistedTask → Arrival json) where
  abbrev config_of : AgentState json → String → Option ProjectConfig
  config_of = find_config json fetch_config draw

  recover_task_cases {ℓ} :
      (P : AgentState json × List Spawned → Type ℓ) (s : AgentState json) (t : PersistedTask)
      → (config_of s t.project ≡ none → P (s, []))
      → ((config : ProjectConfig)
          → config_of s t.project ≡ some config
          → is_running t ≡ true
          → P (restart json fetch_config draw s t, spawned_for t config ∷ []))
      → ((config : ProjectConfig)
          → config_of s t.project ≡ some config
          → is_running t ≡ false
          → P (requeue json fetch_config draw s t config, []))
      → P (recover_task json fetch_config draw s t)
  unfolding recover_task
  recover_task_cases P s t skipped restarted requeued =
      elim (Option-cases (config_of s t.project)) [
        | inl missing ↦ rw (missing, recover_task) (skipped missing)
        | inr (config, found) ↦ elim (Bool-cases (is_running t)) [
          | inl runs ↦ rw (found, runs, recover_task) (restarted config found runs)
          | inr idle ↦ rw (found, idle, recover_task) (requeued config found idle)
        ]
      ]

  config_of-step :
      (s : AgentState json) (t : PersistedTask) (project : String)
      → config_of (recover_task json fetch_config draw s t).0 project ≡ config_of s project
  unfolding find_config get_project restart requeue
  config_of-step s t project =
      recover_task_cases (λ r. config_of r.0 project ≡ config_of s project) s t (λ e. refl)
        (λ config e h. refl) (λ config e h. refl)

  waiting-step :
      (s : AgentState json) (t : PersistedTask) (project : String) (config : ProjectConfig)
      → config_of s project ≡ some config
      → waiting (recover_task json fetch_config draw s t).0.deploy_queue project
        ≡ waiting s.deploy_queue project ++ queued_again project config (t ∷ [])
  unfolding queued_again restart requeue
  waiting-step s t project config found =
      let same = λ (e : t.project ≡ project). ap (config_of s) e ∙ found in
      recover_task_cases
        (λ r.
          waiting r.0.deploy_queue project
          ≡ waiting s.deploy_queue project ++ queued_again project config (t ∷ []))
        s t
        (λ missing. elim (Bool-cases (t.project == project)) [
          | inl h ↦ absurd (absent (sym missing ∙ same ((eq_iff t.project project).0 h)))
          | inr h ↦ rw h (sym (append-nil _))
        ])
        (λ other e runs. elim (Bool-cases (t.project == project)) [
          | inl h ↦ rw (h, runs) (sym (append-nil _))
          | inr h ↦ rw h (sym (append-nil _))
        ])
        (λ other e idle.
          let lemma = enqueue_deploy_lem s.deploy_queue t.project project (queued_of t other) in
          elim (Bool-cases (t.project == project)) [
            | inl h ↦
                let p = (eq_iff t.project project).0 h in
                let q : other ≡ config = some_eq (sym e ∙ same p) in
                lemma.0
                ∙ rw (h, idle) (ap₂ (λ j c. waiting s.deploy_queue j ++ queued_of t c ∷ []) p q)
            | inr h ↦ lemma.0 ∙ rw h (sym (append-nil _))
          ])

  -- When the persisted tasks are recovered, the deploys of a project that were persisted as
  -- queued wait again, in their order, behind those that wait already. The project has a
  -- usable configuration.
  pub waiting-recover_all :
      (s : AgentState json) (ts : List PersistedTask) (project : String) (config : ProjectConfig)
      → find_config json fetch_config draw s project ≡ some config
      → waiting (recover_all json fetch_config draw s ts).0.deploy_queue project
        ≡ waiting s.deploy_queue project ++ queued_again project config ts
  unfolding recover_all queued_again
  waiting-recover_all s [] project config found = sym (append-nil _)
  waiting-recover_all s (t ∷ ts) project config found =
      waiting-recover_all (recover_task json fetch_config draw s t).0 ts project config
        (config_of-step s t project ∙ found)
      ∙ ap (λ ds. ds ++ queued_again project config ts) (waiting-step s t project config found)
      ∙ append_assoc (waiting s.deploy_queue project) _ _
      ∙ ap (◌++◌ (waiting s.deploy_queue project)) (queued_again-cons project config t ts)

  strands-step :
      (s : AgentState json) (t : PersistedTask)
      → is_running t ≡ false
      → ((recover_task json fetch_config draw s t).1 ≡ [])
        × ((recover_task json fetch_config draw s t).0.running_deploys ≡ s.running_deploys)
  unfolding requeue
  strands-step s t idle =
      recover_task_cases (λ r. (r.1 ≡ []) × (r.0.running_deploys ≡ s.running_deploys)) s t
        (λ e. (refl, refl)) (λ config e runs. cc) (λ config e h. (refl, refl))

  -- If no persisted task was running, the recovery spawns no deploy and registers none as running.
  pub recover_all_strands :
      (s : AgentState json) (ts : List PersistedTask)
      → All (λ t. is_running t ≡ false) ts
      → ((recover_all json fetch_config draw s ts).1 ≡ [])
        × ((recover_all json fetch_config draw s ts).0.running_deploys ≡ s.running_deploys)
  unfolding recover_all
  recover_all_strands s [] a = (refl, refl)
  recover_all_strands s (t ∷ ts) a =
      let now = strands-step s t a.0 in
      let rest = recover_all_strands (recover_task json fetch_config draw s t).0 ts a.1 in
      (rw (now.0, rest.0), rest.1 ∙ now.1)
