-- ===== src/Agent/Queue/Fifo.antt =====
-- The queue of each project as a list: first in, first out, and no project disturbs another.
use xjp_deploy_agent.Prelude.{
  if◌then◌else◌, Option-cases, unwrap_or, ◌==◌, nat_eq, string_eq, any, length, length-append, ℕ,
  ◌+◌, String, ◌≡◌, refl, sym, ◌∙◌, inl, inr, false, Option, none, some, List, [], ◌∷◌, ◌++◌, arith,
  eq_iff, eq_refl,
}
use xjp_deploy_agent.HashMap
use xjp_deploy_agent.HashMap.Laws.{get-insert, get-insert_self}
use xjp_deploy_agent.Agent.Queue.{
  DeployQueue, QueuedDeploy, enqueue_deploy, dequeue_deploy, pop_front, get_queue_length,
  get_queue_position, position_from,
}

-- The deploys of a project that wait, the next one first.
abbrev pub waiting : DeployQueue → String → List QueuedDeploy
waiting q project = unwrap_or (HashMap.get q project) []

pub get_queue_length-waiting :
    (q : DeployQueue) (project : String) → get_queue_length q project ≡ length (waiting q project)
unfolding get_queue_length
get_queue_length-waiting q project = ground arith

-- A new deploy goes to the end of its project's queue, the position that is returned is the new
-- length of that queue, and every other project's queue stays.
pub enqueue_deploy_lem :
    (q : DeployQueue) (project j : String) (d : QueuedDeploy)
    → let (q', position) = enqueue_deploy q project d in
      (waiting q' j ≡ (if project == j then waiting q project ++ d ∷ [] else waiting q j))
      × (position ≡ get_queue_length q project + 1)
      × (position ≡ get_queue_length q' project)
unfolding enqueue_deploy
enqueue_deploy_lem q project j d =
    let items = unwrap_or (HashMap.get q project) [] ++ d ∷ [] in
    (
      ground (arith, get-insert q project j items, eq_iff project j),
      length-append (waiting q project) (d ∷ []) ∙ rw (get_queue_length-waiting q project),
      sym (get_queue_length-waiting _ project ∙ rw (get-insert_self q project items)),
    )

abbrev pub front : List QueuedDeploy → Option QueuedDeploy
front [] = none
front (d ∷ ds) = some d

abbrev pub behind : List QueuedDeploy → List QueuedDeploy
behind [] = []
behind (d ∷ ds) = ds

-- What is taken out is the deploy that has waited longest, or nothing if the project's queue is
-- empty; the others keep their order, and every other project's queue stays.
pub dequeue_deploy_lem :
    (q : DeployQueue) (project j : String)
    → let (q', next) = dequeue_deploy q project in
      (next ≡ front (waiting q project))
      × (waiting q' j ≡ (if project == j then behind (waiting q project) else waiting q j))
unfolding dequeue_deploy pop_front
dequeue_deploy_lem q project j = elim (Option-cases (HashMap.get q project)) [
  | inl missing ↦ rw (missing, dequeue_deploy) (refl, ground (arith, eq_iff project j))
  | inr ([], found) ↦ rw (found, dequeue_deploy) (refl, ground (arith, eq_iff project j))
  | inr (d ∷ ds, found) ↦
      rw (found, dequeue_deploy) (refl, ground (arith, get-insert q project j ds, eq_iff project j))
]

position_from-append :
    (i : ℕ) (id : String) (ds : List QueuedDeploy) (d : QueuedDeploy)
    → any (λ x. x.task_id == id) ds ≡ false
    → d.task_id ≡ id
    → position_from i id (ds ++ d ∷ []) ≡ i + length ds + 1
unfolding position_from any
position_from-append i id [] d absent same = ground (arith, eq_iff d.task_id id)
position_from-append i id (x ∷ xs) d absent same =
    ground (arith, position_from-append (i + 1) id xs d)

-- The position that `enqueue_deploy` returns is the one that `get_queue_position` then reports. The
-- task did not wait in that queue before.
pub get_queue_position-enqueue_deploy :
    (q : DeployQueue) (project : String) (d : QueuedDeploy)
    → any (λ x. x.task_id == d.task_id) (waiting q project) ≡ false
    → get_queue_position (enqueue_deploy q project d).0 project d.task_id
      ≡ (enqueue_deploy q project d).1
unfolding get_queue_position enqueue_deploy
get_queue_position-enqueue_deploy q project d absent =
    rw (get-insert_self q project (waiting q project ++ d ∷ []), get_queue_position)
      (position_from-append 0 d.task_id (waiting q project) d absent refl
        ∙ omega (arith, length-append (waiting q project) (d ∷ [])))

pub length-enqueue_deploy :
    (q : DeployQueue) (project j : String) (d : QueuedDeploy)
    → length (waiting (enqueue_deploy q project d).0 j)
      ≡ (if project == j then length (waiting q project) + 1 else length (waiting q j))
length-enqueue_deploy q project j d =
    rw ((enqueue_deploy_lem q project j d).0)
      (ground (arith, length-append (waiting q project) (d ∷ [])))

pub length-enqueue_deploy_self :
    (q : DeployQueue) (project : String) (d : QueuedDeploy)
    → length (waiting (enqueue_deploy q project d).0 project) ≡ length (waiting q project) + 1
length-enqueue_deploy_self q project d =
    length-enqueue_deploy q project project d ∙ rw (eq_refl project)
