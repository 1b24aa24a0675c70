-- ===== src/Persistence/Durable.antt =====
-- What a restart of the agent finds in the queue's file.
use xjp_deploy_agent.Prelude.{
  if◌then◌else◌, Bool-cases, retain_eq, ℕ, String, ◌≡◌, refl, ap, inl, inr, Bool, true, false, not,
  ◌&&◌, Option, some, List, [], ◌∷◌, arith,
}
use xjp_deploy_agent.Persistence
use xjp_deploy_agent.Persistence.{PersistedTask, PersistedQueue}
use xjp_deploy_agent.Persistence.Distinct.{
  AreDistinct, add_task-AreDistinct, remove_task-AreDistinct, update_task_status-AreDistinct,
}
use xjp_deploy_agent.Persistence.File.{
  Json, Save, Files, QueuePersistence, no_directory, write_fails, rename_fails, saves, save,
  load_file, saved, add_task, remove_task, update_task_status,
}

-- serde_json reads back what it wrote.
abbrev pub RoundTrips : Json → Type 0
RoundTrips json = (q : PersistedQueue) → json.from_str (json.to_string q) ≡ some q

-- The calls that change the queue.
pub data Call : Type 0 where
  adds : PersistedTask → Call
  removes : String → Call
  updates : String → String → Option ℕ → Call

module _ (json : Json) where
  open json use {Text, to_string, from_str}

  unfoldable pub step : QueuePersistence json → ℕ × Call × Save Text → QueuePersistence json × Bool
  step p (now, adds task, outcome) = add_task json p task now outcome
  step p (now, removes id, outcome) = remove_task json p id now outcome
  step p (now, updates id status at, outcome) = update_task_status json p id status at now outcome

  -- The flag says that no call returned an error.
  unfoldable pub run :
      QueuePersistence json → List (ℕ × Call × Save Text) → QueuePersistence json × Bool
  run p [] = (p, true)
  run p (c ∷ cs) = let (p', done) = step p c in let (p'', rest) = run p' cs in (p'', done && rest)

  -- The file reads as the queue in memory.
  abbrev pub IsInStep : QueuePersistence json → Type 0
  IsInStep p = load_file json p.files true ≡ some p.queue

  -- A save that fails, at whatever step, leaves the queue's file as it was, and one that
  -- succeeds replaces it whole by the queue.
  pub save_atomic :
      (q : PersistedQueue) (f : Files Text) (outcome : Save Text)
      → (save json q f outcome).0.queue_file
        ≡ (if (save json q f outcome).1 then some (to_string q) else f.queue_file)
  unfolding save
  save_atomic q f no_directory = refl
  save_atomic q f rename_fails = refl
  save_atomic q f saves = refl
  save_atomic q f (write_fails left) = refl

-- A removal that finds nothing leaves the queue as it was, its time stamp included.
remove_task_missing :
    (q : PersistedQueue) (id : String) (now : ℕ)
    → (Persistence.remove_task q id now).1 ≡ false
    → (Persistence.remove_task q id now).0 ≡ q
unfolding Persistence.remove_task
remove_task_missing q id now h =
    let same = retain_eq (λ t. not (Persistence.has_id id t)) q.tasks (ground arith) in
    rw h (ap (λ (ts : List PersistedTask). record q { tasks = ts }) same)

module _ (json : Json) (trips : RoundTrips json) where
  open json use {Text, to_string, from_str}

  saved-IsInStep :
      (p : QueuePersistence json) (outcome : Save Text)
      → (saved json p outcome).1 ≡ true
      → IsInStep json (saved json p outcome).0
  unfolding saved save load_file
  saved-IsInStep p no_directory h = cc
  saved-IsInStep p rename_fails h = cc
  saved-IsInStep p saves h = trips p.queue
  saved-IsInStep p (write_fails left) h = cc

  step-IsInStep :
      (p : QueuePersistence json) (c : ℕ × Call × Save Text)
      → IsInStep json p
      → (step json p c).1 ≡ true
      → IsInStep json (step json p c).0
  unfolding step add_task remove_task update_task_status load_file
  step-IsInStep p (now, adds task, outcome) s h = saved-IsInStep _ outcome h
  step-IsInStep p (now, updates id status at, outcome) s h = saved-IsInStep _ outcome h
  step-IsInStep p (now, removes id, outcome) s h =
      elim (Bool-cases (Persistence.remove_task p.queue id now).1) [
        | inl removed ↦
            rw (removed, remove_task) (saved-IsInStep _ outcome (rw (removed, remove_task) at h))
        | inr missing ↦
            rw (missing, remove_task) (rw (remove_task_missing p.queue id now missing) s)
      ]

  -- If no call returned an error, a restart loads exactly the queue that the agent had in
  -- memory. JSON reads back what it wrote, and the file was in step with the memory before.
  pub run-IsInStep :
      (p : QueuePersistence json) (cs : List (ℕ × Call × Save Text))
      → IsInStep json p
      → (run json p cs).1 ≡ true
      → IsInStep json (run json p cs).0
  unfolding run
  run-IsInStep p [] s h = s
  run-IsInStep p (c ∷ cs) s h =
      run-IsInStep (step json p c).0 cs (step-IsInStep p c s (ground arith)) (ground arith)

module _ (json : Json) where
  open json use {Text}

  queue-saved :
      (p : QueuePersistence json) (outcome : Save Text) → (saved json p outcome).0.queue ≡ p.queue
  unfolding saved
  queue-saved p outcome = refl

  step-AreDistinct :
      (p : QueuePersistence json) (c : ℕ × Call × Save Text)
      → AreDistinct p.queue.tasks
      → AreDistinct (step json p c).0.queue.tasks
  unfolding step add_task remove_task update_task_status
  step-AreDistinct p (now, adds task, outcome) d =
      rw queue-saved (add_task-AreDistinct p.queue task now d)
  step-AreDistinct p (now, removes id, outcome) d =
      elim (Bool-cases (Persistence.remove_task p.queue id now).1) [
        | inl removed ↦ rw removed (rw queue-saved (remove_task-AreDistinct p.queue id now d))
        | inr missing ↦ rw missing (remove_task-AreDistinct p.queue id now d)
      ]
  step-AreDistinct p (now, updates id status at, outcome) d =
      rw queue-saved (update_task_status-AreDistinct p.queue id status at now d)

  -- Whatever the calls and their errors, no task stands twice in the queue if none did
  -- before.
  pub run-AreDistinct :
      (p : QueuePersistence json) (cs : List (ℕ × Call × Save Text))
      → AreDistinct p.queue.tasks
      → AreDistinct (run json p cs).0.queue.tasks
  unfolding run
  run-AreDistinct p [] d = d
  run-AreDistinct p (c ∷ cs) d = run-AreDistinct (step json p c).0 cs (step-AreDistinct p c d)
