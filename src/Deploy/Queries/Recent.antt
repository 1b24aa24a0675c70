-- ===== src/Deploy/Queries/Recent.antt =====
-- What `get_recent_tasks` shows: cutting the history early loses nothing.
use xjp_deploy_agent.Prelude.{
  retain, take, All, length-take-le, retain-append, ℕ, zero, suc, ◌≤◌, ◌≡◌, refl, sym, ap, ◌∙◌,
  Bool, true, not, List, [], ◌∷◌, ◌++◌, arith,
}
use xjp_deploy_agent.Task.{DeployTask, is_terminal}
use xjp_deploy_agent.TaskStore
use xjp_deploy_agent.TaskStore.{TaskStore, matches}
use xjp_deploy_agent.Deploy.Queries.{TaskHistoryQuery, get_recent_tasks}

module _ (p : DeployTask → Bool) where
  retain_again : (ts : List DeployTask) → All (λ t. p t ≡ true) (retain p ts)
  unfolding retain
  retain_again [] = tt
  retain_again (t ∷ ts) = ground (arith, retain_again ts)

  retain-take :
      (n : ℕ) (ts : List DeployTask) → All (λ t. p t ≡ true) ts → retain p (take n ts) ≡ take n ts
  unfolding retain
  retain-take zero ts a = refl
  retain-take (suc n) [] a = refl
  retain-take (suc n) (t ∷ ts) a = ground (arith, retain-take n ts a.1)

-- A list that is cut where it is longer than what can be seen of it.
take-append-take :
    (n k : ℕ) (xs ys : List DeployTask) → n ≤ k → take n (xs ++ take k ys) ≡ take n (xs ++ ys)
take-append-take zero k xs ys low = refl
take-append-take (suc n) zero xs ys low = absurd (omega arith)
take-append-take (suc n) (suc k) [] [] low = refl
take-append-take (suc n) (suc k) [] (y ∷ ys) low =
    ap (◌∷◌ y) (take-append-take n k [] ys (omega (arith, low)))
take-append-take (suc n) (suc k) (x ∷ xs) ys low =
    ap (◌∷◌ x) (take-append-take n (suc k) xs ys (omega (arith, low)))

-- The recent tasks are the first `limit` of all tasks that match the query, the unfinished ones
-- before the history: that the store cuts the history before the tasks are put together loses none.
pub get_recent_tasks_lem :
    (s : TaskStore) (q : TaskHistoryQuery)
    → let unfinished = retain (λ t. not (is_terminal t.status)) (TaskStore.get_all s) in
      ((get_recent_tasks s q).tasks
        ≡ take q.limit (retain (matches q.project q.status) (unfinished ++ s.history)))
      × ((get_recent_tasks s q).total ≤ q.limit)
unfolding get_recent_tasks TaskStore.get_history
get_recent_tasks_lem s q =
    let p = matches q.project q.status in
    let unfinished =
      retain (λ (t : DeployTask). not (is_terminal t.status)) (TaskStore.get_all s) in
    (
      ap (take q.limit) (
            retain-append p unfinished (take q.limit (retain p s.history))
            ∙ ap (◌++◌ (retain p unfinished))
                (retain-take p q.limit (retain p s.history) (retain_again p s.history)))
          ∙ take-append-take q.limit q.limit (retain p unfinished) (retain p s.history)
              (omega arith)
          ∙ ap (take q.limit) (sym (retain-append p unfinished s.history)),
      length-take-le q.limit _,
    )
