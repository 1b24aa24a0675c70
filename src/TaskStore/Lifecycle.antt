-- ===== src/TaskStore/Lifecycle.antt =====
-- What `finish` and `get_any` do to the tasks that a client asks for.
use xjp_deploy_agent.Prelude.{
  if◌then◌else◌, Option-cases, ◌==◌, nat_eq, string_eq, beq_refl, find, take, ℕ, zero, suc, ◌<◌,
  String, ◌≡◌, refl, sym, ◌∙◌, inl, inr, true, Option, none, some, List, ◌∷◌, arith, eq_iff,
}
use xjp_deploy_agent.Prelude.Int.{ℤ}
use xjp_deploy_agent.HashMap
use xjp_deploy_agent.HashMap.Laws.{get-insert_self, get-remove}
use xjp_deploy_agent.HashMap.Entries.{get-Entries}
use xjp_deploy_agent.Task.{DeployStatus, DeployTask}
use xjp_deploy_agent.TaskStore.History.{history-add_to_history}
use xjp_deploy_agent.TaskStore.Invariant.{IsValid, IsSound}
use xjp_deploy_agent.TaskStore.{TaskStore, create, get, get_any, add_to_history, finished, finish}

pub get-create : (s : TaskStore) (t : DeployTask) → get (create s t) t.id ≡ some t
unfolding get create
get-create s t = get-insert_self s.tasks t.id t

get_any_archived :
    (s : TaskStore) (id : String)
    → get s id ≡ none
    → get_any s id ≡ find (λ t. t.id == id) s.history
unfolding get_any
get_any_archived s id e = rw (e, get_any)

find_front :
    (id : String) (n : ℕ) (t : DeployTask) (xs : List DeployTask)
    → 0 < n
    → (t.id == id) ≡ true
    → find (λ x. x.id == id) (take n (t ∷ xs)) ≡ some t
unfolding find
find_front id zero t xs room same = absurd (omega arith)
find_front id (suc n) t xs room same = rw same

module _ (s : TaskStore) (id : String) (status : DeployStatus) (code : Option ℤ) (now : ℕ) where
  -- `finish` takes the task out of the active tasks, if it is there, and no other task. The history
  -- becomes its newest `max_history` tasks with the finished task, stamped, in front; for an
  -- unknown id it stays as it was.
  pub finish_lem :
      ((j : String) → get (finish s id status code now) j ≡ (if id == j then none else get s j))
      × ((finish s id status code now).history ≡ elim (get s id) [
        | none ↦ s.history
        | some t ↦ take s.max_history (finished status code now t ∷ s.history)
      ])
  unfolding finish get
  finish_lem = elim (Option-cases (HashMap.get s.tasks id)) [
    | inl missing ↦ rw (missing, finish) (λ j. ground (arith, eq_iff id j), refl)
    | inr (t, found) ↦
        rw (found, finish)
          (λ j. unfold add_to_history in get-remove s.tasks id j, history-add_to_history _ _)
  ]

  -- A finished task is gone from the active tasks and still found by `get_any`, with its final
  -- status, exit code and end time: nothing is lost on the way to the history. The store is valid
  -- and its history has room for a task.
  pub get_any-finish :
      (t : DeployTask)
      → IsValid s
      → 0 < s.max_history
      → get s id ≡ some t
      → (get (finish s id status code now) id ≡ none)
        × (get_any (finish s id status code now) id ≡ some (finished status code now t))
  unfolding get finished
  get_any-finish t v room e =
      let gone : get (finish s id status code now) id ≡ none = finish_lem.0 id ∙ rw (beq_refl id) in
      let kept : (finish s id status code now).history
          ≡ take s.max_history (finished status code now t ∷ s.history) =
        finish_lem.1 ∙ rw e in
      let same : (t.id == id) ≡ true =
        (eq_iff t.id id).1 (sym (get-Entries IsSound s.tasks id v.sound e).0) in
      (
        gone,
        get_any_archived _ id gone ∙ rw kept (find_front id s.max_history _ s.history room same),
      )
