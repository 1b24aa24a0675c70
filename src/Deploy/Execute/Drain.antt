-- ===== src/Deploy/Execute/Drain.antt =====
-- The loop of `process_queue` ends with nothing left to wait.
use xjp_deploy_agent.Prelude.{
  is_some, All, true, Option, subst, sym, if◌then◌else◌, ◌==◌, nat_eq, string_eq, length, ℕ, zero,
  suc, ◌<◌, String, ◌≡◌, refl, ap, ◌∙◌, false, none, some, List, [], ◌∷◌, arith, eq_refl,
}
use xjp_deploy_agent.Persistence.File.{Json}
use xjp_deploy_agent.Agent.Queue.{QueuedDeploy, dequeue_deploy}
use xjp_deploy_agent.Agent.Queue.Fifo.{waiting, dequeue_deploy_lem, front, behind}
use xjp_deploy_agent.Agent.Running.{has_running_deploy}
use xjp_deploy_agent.Agent.{AgentState}
use xjp_deploy_agent.Deploy.Execute.{
  Round, execute_single, clean_up, finish, start_next, run_next, drain, process_queue,
}
use xjp_deploy_agent.TaskStore
use xjp_deploy_agent.TaskStore.{TaskStore}
use xjp_deploy_agent.TaskStore.Invariant.{IsValid}
use xjp_deploy_agent.Deploy.Execute.Rounds.{
  IsDone, run_next-IsDone, run_next-IsValid, get-run_next_other, max_history-run_next,
}
use xjp_deploy_agent.Deploy.Execute.Finish.{has_running_deploy-unregister}

is_some-there : {A : Type 0} → (o : Option A) → is_some o ≡ true → (a : A) × (o ≡ some a)
is_some-there none h = cc
is_some-there (some a) h = (a, refl)

module _ (json : Json) (round : ℕ → Round json) (project : String) where
  deploy_queue-run_next :
      (s : AgentState json) (next : QueuedDeploy) (r : Round json)
      → (run_next json s project next r).deploy_queue ≡ s.deploy_queue
  unfolding run_next execute_single clean_up finish start_next
  deploy_queue-run_next s next r = refl

  idle-run_next :
      (s : AgentState json) (next : QueuedDeploy) (r : Round json)
      → has_running_deploy (run_next json s project next r).running_deploys project ≡ false
  unfolding run_next execute_single clean_up
  idle-run_next s next r = has_running_deploy-unregister _ project

  drain-done :
      (fuel : ℕ) (s : AgentState json)
      → (dequeue_deploy s.deploy_queue project).1 ≡ none
      → drain json (suc fuel) round s project
        ≡ (record s { deploy_queue = (dequeue_deploy s.deploy_queue project).0 }, [])
  unfolding drain
  drain-done fuel s e = rw (e, drain)

  -- The state behind one round of the loop that runs `next`.
  abbrev after_round : ℕ → AgentState json → QueuedDeploy → AgentState json
  after_round fuel s next =
      run_next json (record s { deploy_queue = (dequeue_deploy s.deploy_queue project).0 }) project
        next (round fuel)

  drain-round :
      (fuel : ℕ) (s : AgentState json) (next : QueuedDeploy)
      → (dequeue_deploy s.deploy_queue project).1 ≡ some next
      → drain json (suc fuel) round s project ≡ (
        (drain json fuel round (after_round fuel s next) project).0,
        after_round fuel s next ∷ (drain json fuel round (after_round fuel s next) project).1,
      )
  unfolding drain
  drain-round fuel s next e = rw (e, drain)

  -- The states behind the rounds, in their order, are those behind the deploys `ds`: each is over in its
  -- state, as its own round gave it. `fuel` rounds were left at the first.
  abbrev pub AreDone : ℕ → List QueuedDeploy → List (AgentState json) → Type 0
  AreDone fuel [] [] = Unit
  AreDone (suc fuel) (d ∷ ds) (s ∷ states) = IsDone d (round fuel) s × AreDone fuel ds states
  AreDone fuel ds states = ⊥

  -- The task store behind the last round.
  abbrev pub last_store : AgentState json → List (AgentState json) → TaskStore
  last_store s [] = s.task_store
  last_store s (s' ∷ states) = last_store s' states

  -- The loop from `s` has ended and has run `ds`.
  abbrev pub Drained :
      ℕ → AgentState json → List QueuedDeploy → AgentState json × List (AgentState json) → Type 0
  Drained fuel s ds (ended, states) =
      AreDone fuel ds states
      × (ended.task_store ≡ last_store s states)
      × ((j : String)
          → waiting ended.deploy_queue j ≡ (if project == j then [] else waiting s.deploy_queue j))
      × (has_running_deploy ended.running_deploys project ≡ false)

  -- The deploys have different tasks, and each of these is active.
  abbrev pub AreActive : TaskStore → List QueuedDeploy → Type 0
  AreActive store [] = Unit
  AreActive store (d ∷ ds) =
      (is_some (TaskStore.get store d.task_id) ≡ true)
      × All (λ (x : QueuedDeploy). (d.task_id == x.task_id) ≡ false) ds
      × AreActive store ds

  AreActive-run_next :
      (s : AgentState json) (d : QueuedDeploy) (r : Round json) (ds : List QueuedDeploy)
      → All (λ (x : QueuedDeploy). (d.task_id == x.task_id) ≡ false) ds
      → AreActive s.task_store ds
      → AreActive (run_next json s project d r).task_store ds
  AreActive-run_next s d r [] others active = tt
  AreActive-run_next s d r (x ∷ ds) others active = (
    ap is_some (get-run_next_other json s project d r x.task_id others.0) ∙ active.0,
    active.1,
    AreActive-run_next s d r ds others.1 active.2,
  )

  drain_from :
      (ds : List QueuedDeploy) (fuel : ℕ) (s : AgentState json)
      → waiting s.deploy_queue project ≡ ds
      → length ds < fuel
      → IsValid s.task_store
      → 0 < s.task_store.max_history
      → AreActive s.task_store ds
      → has_running_deploy s.running_deploys project ≡ false
      → Drained fuel s ds (drain json fuel round s project)
  drain_from [] zero s e short v room active idle = absurd (omega arith)
  drain_from (d ∷ ds) zero s e short v room active idle = absurd (omega arith)
  drain_from [] (suc fuel) s e short v room active idle =
      let taken = dequeue_deploy_lem s.deploy_queue project in
      rw (drain-done fuel s ((taken project).0 ∙ ap front e)) (
        tt,
        refl,
        λ j.
            (taken j).1 ∙ ap (λ ds. if project == j then behind ds else waiting s.deploy_queue j) e,
        idle,
      )
  drain_from (d ∷ ds) (suc fuel) s e short v room active idle =
      let taken = dequeue_deploy_lem s.deploy_queue project in
      let s₀ = record s { deploy_queue = (dequeue_deploy s.deploy_queue project).0 } in
      let s' = after_round fuel s d in
      let same : (j : String)
          → waiting s'.deploy_queue j ≡ waiting (dequeue_deploy s.deploy_queue project).0 j =
        λ j. ap (λ q. waiting q j) (deploy_queue-run_next _ d (round fuel)) in
      let next : waiting s'.deploy_queue project ≡ ds =
        same project ∙ (taken project).1 ∙ rw (eq_refl project) (ap behind e) in
      let rest =
        drain_from ds fuel s' next (omega arith) (run_next-IsValid json s₀ project d (round fuel) v)
          (subst (λ n. 0 < n) (sym (max_history-run_next json s₀ project d (round fuel))) room)
          (AreActive-run_next s₀ d (round fuel) ds active.1 active.2)
          (idle-run_next _ d (round fuel)) in
      let (t, there) = is_some-there (TaskStore.get s.task_store d.task_id) active.0 in
      rw (drain-round fuel s d ((taken project).0 ∙ ap front e)) (
        (run_next-IsDone json s₀ project d (round fuel) t v room there, rest.0),
        rest.1,
        λ j. rest.2 j ∙ ground (arith, same j, (taken j).1),
        rest.3,
      )

  -- With more fuel than deploys that wait, and no deploy of the project running, `process_queue`
  -- runs the deploys that wait, each once and in the order in which they were queued: behind each of
  -- its rounds, the next of them is over, with the outcome, the stages and the end of this round shown
  -- by its task, its log closed, and itself no longer in the persisted queue in memory. Afterwards none
  -- waits and none runs, and the task store is the one behind the last round. The queues of other
  -- projects stay. The deploys have different tasks, each active in a valid store that keeps a history,
  -- and each round gives an outcome: no strategy panics.
  pub process_queue_lem :
      (fuel : ℕ) (s : AgentState json)
      → length (waiting s.deploy_queue project) < fuel
      → IsValid s.task_store
      → 0 < s.task_store.max_history
      → AreActive s.task_store (waiting s.deploy_queue project)
      → has_running_deploy s.running_deploys project ≡ false
      → let r = process_queue json fuel round s project in
        Drained fuel s (waiting s.deploy_queue project) (r.0, r.1)
  unfolding process_queue
  process_queue_lem fuel s short v room active idle =
      drain_from _ fuel s refl short v room active idle
