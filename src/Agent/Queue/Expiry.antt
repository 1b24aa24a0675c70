-- ===== src/Agent/Queue/Expiry.antt =====
-- What the expiry of waiting deploys removes and reports.
use xjp_deploy_agent.Prelude.{
  nat_eq, string_eq, retain, length, length-append, ℕ, suc, ◌+◌, String, ◌≡◌, refl, ap, Bool, not,
  List, [], ◌∷◌, map, arith,
}
use xjp_deploy_agent.HashMap
use xjp_deploy_agent.Agent.Queue.{
  DeployQueue, QueuedDeploy, is_expired, cleanup_expired_queue_items,
}
use xjp_deploy_agent.Agent.Queue.Fifo.{waiting}

-- How many waiting deploys of all projects there are.
pub total_waiting : DeployQueue → ℕ
total_waiting [] = 0
total_waiting ((project, items) ∷ q) = length items + total_waiting q

length-map-String :
    (f : QueuedDeploy → String × String) (ds : List QueuedDeploy) → length (map f ds) ≡ length ds
length-map-String f [] = refl
length-map-String f (d ∷ ds) = ap suc (length-map-String f ds)

length-retain_split :
    (p : QueuedDeploy → Bool) (ds : List QueuedDeploy)
    → length (retain p ds) + length (retain (λ d. not (p d)) ds) ≡ length ds
unfolding retain
length-retain_split p [] = refl
length-retain_split p (d ∷ ds) = ground (arith, length-retain_split p ds)

-- Each project keeps its deploys that have not expired, in their order; the numbers of those
-- that are left and of those that are reported add up to the number of all that waited.
pub cleanup_expired_queue_items_lem :
    (q : DeployQueue) (timeout_secs now : ℕ) (project : String)
    → let (q', expired) = cleanup_expired_queue_items q timeout_secs now in
      (waiting q' project ≡ retain (λ d. not (is_expired timeout_secs now d)) (waiting q project))
      × (total_waiting q' + length expired ≡ total_waiting q)
unfolding cleanup_expired_queue_items total_waiting HashMap.get retain
cleanup_expired_queue_items_lem [] timeout now project = (refl, refl)
cleanup_expired_queue_items_lem ((p, items) ∷ q) timeout now project =
    let rest = cleanup_expired_queue_items_lem q timeout now project in
    (
      ground (arith, rest.0),
      omega (
        arith,
        rest.1,
        length-retain_split (is_expired timeout now) items,
        length-map-String (λ d. (p, d.task_id)) (retain (is_expired timeout now) items),
        length-append
            (map (λ (d : QueuedDeploy). (p, d.task_id)) (retain (is_expired timeout now) items))
            (cleanup_expired_queue_items q timeout now).1,
      ),
    )
