-- ===== src/Persistence/Distinct.antt =====
-- A task stands in the persisted queue at most once, whatever is added, removed and updated.
use xjp_deploy_agent.Prelude.{
  any-append, retain, any, ℕ, String, ◌≡◌, refl, Bool, false, Option, List, [], ◌∷◌, ◌++◌, arith,
  eq_iff,
}
use xjp_deploy_agent.Persistence.{
  PersistedTask, PersistedQueue, has_id, add_task, remove_task, update_first, update_task_status,
  set_status,
}

abbrev pub AreDistinct : List PersistedTask → Type 0
AreDistinct [] = Unit
AreDistinct (t ∷ ts) = (any (has_id t.task_id) ts ≡ false) × AreDistinct ts

AreDistinct-append :
    (ts : List PersistedTask) (t : PersistedTask)
    → any (has_id t.task_id) ts ≡ false
    → AreDistinct ts
    → AreDistinct (ts ++ t ∷ [])
unfolding any has_id
AreDistinct-append [] t n d = (refl, tt)
AreDistinct-append (x ∷ xs) t n d = ground (
  arith,
  AreDistinct-append xs t,
  any-append (has_id x.task_id) xs (t ∷ []),
  eq_iff t.task_id x.task_id,
  eq_iff x.task_id t.task_id,
)

any-retain :
    (p q : PersistedTask → Bool) (ts : List PersistedTask)
    → any p ts ≡ false
    → any p (retain q ts) ≡ false
unfolding any retain
any-retain p q [] h = refl
any-retain p q (t ∷ ts) h = ground (arith, any-retain p q ts)

AreDistinct-retain :
    (q : PersistedTask → Bool) (ts : List PersistedTask)
    → AreDistinct ts
    → AreDistinct (retain q ts)
unfolding retain
AreDistinct-retain q [] d = tt
AreDistinct-retain q (t ∷ ts) d =
    ground (arith, AreDistinct-retain q ts d.1, any-retain (has_id t.task_id) q ts)

any-update_first :
    (id j : String) (status : String) (at : Option ℕ) (ts : List PersistedTask)
    → any (has_id j) (update_first id (set_status status at) ts) ≡ any (has_id j) ts
unfolding any update_first has_id set_status
any-update_first id j status at [] = refl
any-update_first id j status at (t ∷ ts) = ground (arith, any-update_first id j status at ts)

task_id-set_status :
    (status : String) (at : Option ℕ) (t : PersistedTask)
    → (set_status status at t).task_id ≡ t.task_id
unfolding set_status
task_id-set_status status at t = ground arith

AreDistinct-update_first :
    (id : String) (status : String) (at : Option ℕ) (ts : List PersistedTask)
    → AreDistinct ts
    → AreDistinct (update_first id (set_status status at) ts)
unfolding update_first
AreDistinct-update_first id status at [] d = tt
AreDistinct-update_first id status at (t ∷ ts) d = ground (
  arith,
  AreDistinct-update_first id status at ts d.1,
  any-update_first id t.task_id status at ts,
  task_id-set_status status at t,
)

pub add_task-AreDistinct :
    (q : PersistedQueue) (t : PersistedTask) (now : ℕ)
    → AreDistinct q.tasks
    → AreDistinct (add_task q t now).tasks
unfolding add_task
add_task-AreDistinct q t now d = ground (arith, AreDistinct-append q.tasks t)

pub remove_task-AreDistinct :
    (q : PersistedQueue) (id : String) (now : ℕ)
    → AreDistinct q.tasks
    → AreDistinct (remove_task q id now).0.tasks
unfolding remove_task
remove_task-AreDistinct q id now d = AreDistinct-retain _ q.tasks d

pub update_task_status-AreDistinct :
    (q : PersistedQueue) (id status : String) (at : Option ℕ) (now : ℕ)
    → AreDistinct q.tasks
    → AreDistinct (update_task_status q id status at now).tasks
unfolding update_task_status
update_task_status-AreDistinct q id status at now d =
    ground (arith, AreDistinct-update_first id status at q.tasks)
