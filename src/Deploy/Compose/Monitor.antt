-- ===== src/Deploy/Compose/Monitor.antt =====
-- src/services/deploy/docker_compose.rs: the monitor of the container after the swap. What it sees in
-- each round within the ninety seconds is given. An error leaves out the numbers that it says, and the
-- counters are `u32`, whose difference wraps around in a release build.
use xjp_deploy_agent.Prelude.{
  ◌≡◌, refl, ◌⊎◌, inl, inr, any, is_some, arith, leb, ltb, if◌then◌else◌, unwrap_or, ◌==◌, nat_eq,
  string_eq, find, ℕ, ◌+◌, ◌-◌, ◌%◌, String, ap, Bool, true, false, Option, none, some, List, [],
  ◌∷◌, ◌++◌,
}
use xjp_deploy_agent.Prelude.Text.{has_part, byte_length}
use xjp_deploy_agent.Prelude.Int.{ℤ}
use xjp_deploy_agent.Deploy.Compose.Canary.{fatal_patterns}

pub data ContainerState : Type 0 where
  running : (restart_count : ℕ) (health_status : String) → ContainerState
  exited : (exit_code : ℤ) → ContainerState
  not_found : ContainerState
  unknown : (status : String) → ContainerState

-- The state of the container in a round, and its last log lines in lower case, if they can be read.
pub record Observation : Type 0 where
  pub state : ContainerState
  pub logs : Option String

-- What is reported to the deploy center.
pub data Issue : Type 0 where
  restarted : (times : ℕ) → Issue
  is_unhealthy : Issue
  has_pattern : String → Issue
  has_exited : ℤ → Issue

-- The logs are looked at only when they are longer than ever before.
unfoldable pub check_new_logs : (last_position : ℕ) → Option String → ℕ × Option String
check_new_logs last_position none = (last_position, none)
check_new_logs last_position (some combined) =
    let length_ = byte_length combined in
    if ltb last_position length_
    then (length_, find (λ p. has_part p combined) fatal_patterns)
    else (last_position, none)

unfoldable pub restarts_since : (initial restart_count : ℕ) → ℕ
restarts_since initial restart_count = (restart_count + 4294967296 - initial) % 4294967296

unfoldable pub issues_of : (restarts : ℕ) → (health_status : String) → Option String → List Issue
issues_of restarts health pattern_ =
    (if ltb 0 restarts then restarted restarts ∷ [] else [])
    ++ ((if health == "unhealthy" then is_unhealthy ∷ [] else [])
        ++ (elim pattern_ [ none ↦ [] | some p ↦ has_pattern p ∷ [] ]))

-- The error of the monitor, if there is one, and what it reported.
unfoldable pub monitor_rounds :
    (initial : Option ℕ) → (last_position : ℕ) → List Observation → Option String × List Issue
monitor_rounds initial last_position [] = (none, [])
monitor_rounds initial last_position (o ∷ os) = elim o.state [
  | exited code ↦ (some "Container exited", has_exited code ∷ [])
  | not_found ↦ (some "Container no longer exists", [])
  | unknown status ↦ monitor_rounds initial last_position os
  | running count health ↦
      let first = unwrap_or initial count in
      let restarts = restarts_since first count in
      let (position, pattern_) = check_new_logs last_position o.logs in
      let (error, later) = monitor_rounds (some first) position os in
      if leb 2 restarts
      then (some "Container in crash loop", restarted restarts ∷ [])
      else (error, issues_of restarts health pattern_ ++ later)
]

unfoldable pub run_post_deploy_monitor : List Observation → Option String × List Issue
run_post_deploy_monitor os = monitor_rounds none 0 os

-- The restart count of the first round in which the container ran.
abbrev pub first_count : List Observation → ℕ
first_count [] = 0
first_count (o ∷ os) = elim o.state [
  | exited code ↦ first_count os
  | not_found ↦ first_count os
  | unknown status ↦ first_count os
  | running count health ↦ count
]

-- The container is gone, or it runs and has restarted at least twice since it had the restart count
-- `first`, by the difference of the counters modulo 2 ^ 32.
abbrev pub is_bad : (first : ℕ) → Observation → Bool
is_bad first o = elim o.state [
  | exited code ↦ true
  | not_found ↦ true
  | unknown status ↦ false
  | running count health ↦ leb 2 ((count + 4294967296 - first) % 4294967296)
]

ContainerState-cases :
    (s : ContainerState)
    → ((code : ℤ) × (s ≡ exited code))
      ⊎ ((s ≡ not_found)
          ⊎ (((status : String) × (s ≡ unknown status))
              ⊎ ((count : ℕ) × (health : String) × (s ≡ running count health))))
ContainerState-cases (exited code) = inl (code, refl)
ContainerState-cases not_found = inr (inl refl)
ContainerState-cases (unknown status) = inr (inr (inl (status, refl)))
ContainerState-cases (running count health) = inr (inr (inr (count, health, refl)))

monitor_rounds-started :
    (first position : ℕ) (os : List Observation)
    → is_some (monitor_rounds (some first) position os).0 ≡ any (is_bad first) os
unfolding monitor_rounds any restarts_since
monitor_rounds-started first position [] = refl
monitor_rounds-started first position (o ∷ os) = elim (ContainerState-cases o.state) [
  | inl (code, e) ↦ ground (arith, e)
  | inr (inl e) ↦ ground (arith, e)
  | inr (inr (inl (status, e))) ↦ ground (arith, e, monitor_rounds-started first position os)
  | inr (inr (inr (count, health, e))) ↦
      ground (arith, e, monitor_rounds-started first (check_new_logs position o.logs).0 os)
]

monitor_rounds-fresh :
    (first position : ℕ) (os : List Observation)
    → first ≡ first_count os
    → is_some (monitor_rounds none position os).0 ≡ any (is_bad first) os
unfolding monitor_rounds any restarts_since
monitor_rounds-fresh first position [] h = refl
monitor_rounds-fresh first position (o ∷ os) h = elim (ContainerState-cases o.state) [
  | inl (code, e) ↦ ground (arith, e)
  | inr (inl e) ↦ ground (arith, e)
  | inr (inr (inl (status, e))) ↦
      ground (arith, e, monitor_rounds-fresh first position os (ground (arith, e, h)))
  | inr (inr (inr (count, health, e))) ↦
      let same : first ≡ count = ground (arith, e, h) in
      ground (
        arith,
        e,
        same,
        monitor_rounds-started first (check_new_logs position o.logs).0 os,
        ap (λ n. (monitor_rounds (some n) (check_new_logs position o.logs).0 os).0) same,
      )
]

-- The monitor ends with an error exactly if in some round the container is gone, or runs with a restart
-- count whose difference to that of the first round in which it ran is at least two, modulo 2 ^ 32.
pub run_post_deploy_monitor_lem :
    (os : List Observation)
    → is_some (run_post_deploy_monitor os).0 ≡ any (is_bad (first_count os)) os
unfolding run_post_deploy_monitor
run_post_deploy_monitor_lem os = monitor_rounds-fresh (first_count os) 0 os refl
