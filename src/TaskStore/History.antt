-- ===== src/TaskStore/History.antt =====
-- The loop that trims the history, and what `add_to_history` leaves.
use xjp_deploy_agent.Prelude.{
  ltb, Bool-cases, length, take, take_all, ℕ, zero, suc, ◌+◌, ◌≤◌, ◌≡◌, refl, sym, ap, ◌∙◌, inl,
  inr, List, [], ◌∷◌, arith,
}
use xjp_deploy_agent.Task.{DeployTask}
use xjp_deploy_agent.TaskStore.{TaskStore, pop_back, trim, add_to_history}

length-pop_back : (x : DeployTask) (xs : List DeployTask) → length (pop_back (x ∷ xs)) ≡ length xs
unfolding pop_back
length-pop_back x [] = refl
length-pop_back x (y ∷ xs) = ap suc (length-pop_back y xs)

take-pop_back :
    (n : ℕ) (x : DeployTask) (xs : List DeployTask)
    → n ≤ length xs
    → take n (pop_back (x ∷ xs)) ≡ take n (x ∷ xs)
unfolding pop_back
take-pop_back zero x xs h = refl
take-pop_back (suc n) x [] h = absurd (omega arith)
take-pop_back (suc n) x (y ∷ xs) h = ap (◌∷◌ x) (take-pop_back n y xs (omega arith))

-- With fuel for every task above the limit, the loop keeps the newest `max_history` tasks.
pub trim-eq-take :
    (fuel max_history : ℕ) (xs : List DeployTask)
    → length xs ≤ fuel + max_history
    → trim fuel max_history xs ≡ take max_history xs
unfolding trim
trim-eq-take zero n xs h = sym (take_all n xs (omega arith))
trim-eq-take (suc fuel) n [] h = rw (take_all {A = DeployTask} n [] (omega arith)) (ground arith)
trim-eq-take (suc fuel) n (x ∷ xs) h = elim (Bool-cases (ltb n (length (x ∷ xs)))) [
  | inl over ↦ rw over (
      trim-eq-take fuel n (pop_back (x ∷ xs)) (omega (arith, length-pop_back x xs))
      ∙ take-pop_back n x xs (ground arith))
  | inr fits ↦ rw fits (sym (take_all n (x ∷ xs) (ground arith)))
]

-- After `add_to_history` the history is the newest `max_history` of the tasks, the added one
-- first.
pub history-add_to_history :
    (s : TaskStore) (t : DeployTask)
    → (add_to_history s t).history ≡ take s.max_history (t ∷ s.history)
unfolding add_to_history
history-add_to_history s t = trim-eq-take _ s.max_history (t ∷ s.history) (omega arith)
