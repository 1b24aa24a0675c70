-- ===== src/TaskStore/Invariant.antt =====
-- What every sequence of the program's calls on the task store keeps.
use xjp_deploy_agent.Prelude.{
  Option-cases, is_some, nat_eq, string_eq, length, take, All, length-take-le, length-retain-le,
  All-retain, ℕ, zero, suc, ◌≤◌, String, ◌≡◌, refl, inl, inr, true, Option, List, [], ◌∷◌, arith,
}
use xjp_deploy_agent.Prelude.Int.{ℤ}
use xjp_deploy_agent.HashMap
use xjp_deploy_agent.HashMap.{HashMap}
use xjp_deploy_agent.HashMap.Keys.{
  HasDistinctKeys, insert-HasDistinctKeys, remove-HasDistinctKeys, modify-HasDistinctKeys,
  retain_entries-HasDistinctKeys,
}
use xjp_deploy_agent.HashMap.Entries.{
  Entries, insert-Entries, remove-Entries, modify-Entries, retain_entries-Entries,
}
use xjp_deploy_agent.Task
use xjp_deploy_agent.Task.{DeployStatus, DeployTask, is_terminal}
use xjp_deploy_agent.Task.Stage.{DeployStage}
use xjp_deploy_agent.TaskStore.History.{history-add_to_history}
use xjp_deploy_agent.TaskStore.{
  TaskStore, with_config, create, mark, update_status, update_stages, add_to_history, finished,
  finish, is_recent, cleanup_stale,
}

-- A task is filed under its own id, and one that has ended has its end time.
abbrev pub IsSound : String → DeployTask → Type 0
IsSound id t = (id ≡ t.id) × (is_terminal t.status ≡ true → is_some t.finished_at ≡ true)

abbrev pub IsEnded : DeployTask → Type 0
IsEnded t = is_some t.finished_at ≡ true

pub record IsValid (s : TaskStore) : Type 0 where
  pub bounded : length s.history ≤ s.max_history
  pub distinct : HasDistinctKeys s.tasks
  pub sound : Entries IsSound s.tasks
  pub ended : All IsEnded s.history

-- The calls that the program makes; `add_to_history` is called by `finish` only.
pub data Call : Type 0 where
  creates creates_queued : String → String → Call
  updates_status finishes : String → DeployStatus → Option ℤ → Call
  updates_stages : String → List DeployStage → Call
  cleans_up : Call

unfoldable pub step : TaskStore → ℕ × Call → TaskStore
step s (now, creates id project) = create s (Task.new id project now)
step s (now, creates_queued id project) = create s (Task.new_queued id project now)
step s (now, updates_status id status code) = update_status s id status code now
step s (now, finishes id status code) = finish s id status code now
step s (now, updates_stages id stages) = update_stages s id stages
step s (now, cleans_up) = cleanup_stale s now

unfoldable pub run : TaskStore → List (ℕ × Call) → TaskStore
run s [] = s
run s (c ∷ cs) = run (step s c) cs

create-IsValid :
    (s : TaskStore) (t : DeployTask) → IsSound t.id t → IsValid s → IsValid (create s t)
unfolding create
create-IsValid s t p v = record {
  bounded = v.bounded;
  distinct = insert-HasDistinctKeys s.tasks t.id t v.distinct;
  sound = insert-Entries IsSound s.tasks t.id t p v.sound;
  ended = v.ended;
}

mark-IsSound :
    (status : DeployStatus) (code : Option ℤ) (now : ℕ) (id : String) (t : DeployTask)
    → IsSound id t
    → IsSound id (mark status code now t)
unfolding mark is_terminal
mark-IsSound status code now id t p = ground arith

modify-IsValid :
    (s : TaskStore) (id : String) (f : DeployTask → DeployTask)
    → ((j : String) (t : DeployTask) → IsSound j t → IsSound j (f t))
    → IsValid s
    → IsValid (record s { tasks = HashMap.modify s.tasks id f })
modify-IsValid s id f keep v = record {
  bounded = v.bounded;
  distinct = modify-HasDistinctKeys s.tasks id f v.distinct;
  sound = modify-Entries IsSound s.tasks id f keep v.sound;
  ended = v.ended;
}

All-take {κ} :
    (P : DeployTask → Type κ) (n : ℕ) (xs : List DeployTask) → All P xs → All P (take n xs)
All-take P zero xs a = tt
All-take P (suc n) [] a = tt
All-take P (suc n) (x ∷ xs) a = (a.0, All-take P n xs a.1)

add_to_history-IsValid :
    (s : TaskStore) (t : DeployTask) → IsEnded t → IsValid s → IsValid (add_to_history s t)
unfolding add_to_history
add_to_history-IsValid s t e v = record {
  bounded = rw history-add_to_history (length-take-le s.max_history (t ∷ s.history));
  distinct = v.distinct;
  sound = v.sound;
  ended = rw history-add_to_history (All-take IsEnded s.max_history (t ∷ s.history) (e, v.ended));
}

finish-IsValid :
    (s : TaskStore) (id : String) (status : DeployStatus) (code : Option ℤ) (now : ℕ)
    → IsValid s
    → IsValid (finish s id status code now)
unfolding finish finished
finish-IsValid s id status code now v = elim (Option-cases (HashMap.get s.tasks id)) [
  | inl missing ↦ rw (missing, finish) v
  | inr (t, found) ↦
      rw (found, finish)
        (add_to_history-IsValid _ _ refl (record {
          bounded = v.bounded;
          distinct = remove-HasDistinctKeys s.tasks id v.distinct;
          sound = remove-Entries IsSound s.tasks id v.sound;
          ended = v.ended;
        }))
]

cleanup_stale-IsValid : (s : TaskStore) (now : ℕ) → IsValid s → IsValid (cleanup_stale s now)
unfolding cleanup_stale
cleanup_stale-IsValid s now v = record {
  bounded = omega (arith, length-retain-le (is_recent s.retention now) s.history, v.bounded);
  distinct = retain_entries-HasDistinctKeys s.tasks _ v.distinct;
  sound = retain_entries-Entries IsSound s.tasks _ v.sound;
  ended = All-retain IsEnded (is_recent s.retention now) s.history v.ended;
}

-- Each call of the program keeps the store valid.
pub step-IsValid : (s : TaskStore) (c : ℕ × Call) → IsValid s → IsValid (step s c)
unfolding step update_status update_stages Task.new Task.new_queued is_terminal
step-IsValid s (now, creates id project) v = create-IsValid s _ (refl, λ h. cc) v
step-IsValid s (now, creates_queued id project) v = create-IsValid s _ (refl, λ h. cc) v
step-IsValid s (now, updates_status id status code) v =
    modify-IsValid s id _ (mark-IsSound status code now) v
step-IsValid s (now, finishes id status code) v = finish-IsValid s id status code now v
step-IsValid s (now, updates_stages id stages) v = modify-IsValid s id _ (λ j t p. p) v
step-IsValid s (now, cleans_up) v = cleanup_stale-IsValid s now v

pub run-IsValid : (s : TaskStore) (cs : List (ℕ × Call)) → IsValid s → IsValid (run s cs)
unfolding run
run-IsValid s [] v = v
run-IsValid s (c ∷ cs) v = run-IsValid (step s c) cs (step-IsValid s c v)

-- After any calls on a new store, whatever its limits: the history holds at most `max_history`
-- tasks, all with an end time; the active tasks have distinct ids, each is filed under its own id,
-- and each with a terminal status has an end time.
pub run-with_config-IsValid :
    (max_active max_history hours : ℕ) (cs : List (ℕ × Call))
    → IsValid (run (with_config max_active max_history hours) cs)
unfolding with_config
run-with_config-IsValid max_active max_history hours cs =
    run-IsValid _ cs (record { bounded = omega arith; distinct = tt; sound = tt; ended = tt })
