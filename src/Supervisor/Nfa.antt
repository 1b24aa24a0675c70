-- ===== src/Supervisor/Nfa.antt =====
-- src/services/nfa.rs: the supervisor of the alignment service. What the system, the clock and the
-- service answer is given from outside.
pub mod Align
pub mod Rounds
use xjp_deploy_agent.Prelude.{
  ltb, if◌then◌else◌, unwrap_or, nat_eq, string_eq, ℕ, ◌+◌, String, ◌⊎◌, Bool, true, false, not,
  Option, none, some, List, [], ◌∷◌,
}
use xjp_deploy_agent.Prelude.Text.{◌⊕◌, decimal_port}
use xjp_deploy_agent.Supervisor
use xjp_deploy_agent.Supervisor.{
  ProcessState, Texts, Query, process_state, push_log, spawn_child, count_restart, stop,
}

pub record NfaConfig : Type 0 where
  pub enabled : Bool
  pub auto_start : Bool
  pub python_path : String
  pub script_path : String
  pub port : ℕ
  pub max_concurrent : ℕ
  pub poll_interval_ms : ℕ
  pub job_timeout_secs : ℕ
  pub restart_backoff_ms : ℕ

pub record NfaStatus : Type 0 where
  pub enabled : Bool
  pub desired_running : Bool
  pub running : Bool
  pub healthy : Bool
  pub pid : Option ℕ
  pub port : ℕ
  pub python_path : String
  pub script_path : String
  pub started_at : Option ℕ
  pub restart_count : ℕ
  pub last_error : Option String

abbrev pub nfa_texts : Texts
nfa_texts = record { program = "nfa_service"; tag = "[supervisor] " }

abbrev pub disabled : String
disabled = "NFA is disabled (NFA_ENABLED=false)"

unfoldable pub new : NfaConfig → ProcessState
new config = Supervisor.new config.auto_start

-- The health request is answered with success, with another status, or not at all; the error is
-- taken for `false`.
unfoldable pub status :
    NfaConfig → ProcessState → Query → (health : Option Bool) → ProcessState × NfaStatus
status config s query health =
    let (s', running, pid) = process_state nfa_texts s query in
    (
      s',
      record {
        enabled = config.enabled;
        desired_running = s.desired_running;
        running = running;
        healthy = unwrap_or health false;
        pid = pid;
        port = config.port;
        python_path = config.python_path;
        script_path = config.script_path;
        started_at = s'.started_at;
        restart_count = s'.restart_count;
        last_error = s'.last_error;
      },
    )

unfoldable pub announcement : NfaConfig → String
announcement config =
    "[supervisor] starting nfa_service: "
    ⊕ config.python_path
    ⊕ " "
    ⊕ config.script_path
    ⊕ " --port "
    ⊕ decimal_port config.port

-- A look at the clock and the answer to the health request that follows it.
abbrev pub Look : Type 0
Look = ℕ × Option Bool

-- The wait of twenty seconds for the health; where the list ends, they are over.
unfoldable pub is_ready : (deadline : ℕ) → List Look → Bool
is_ready deadline [] = false
is_ready deadline ((now, health) ∷ looks) =
    let rest = is_ready deadline looks in
    if ltb now deadline then (if unwrap_or health false then true else rest) else false

-- What a call of `start` meets.
pub record Starting : Type 0 where
  pub query : Query
  pub spawned : String ⊎ ℕ
  pub now : ℕ
  pub looks : List Look

unfoldable pub await_health : ProcessState → ℕ → List Look → ProcessState
await_health s now looks = push_log s (
    if is_ready (now + 20000) looks
    then "[supervisor] nfa_service healthy"
    else "[supervisor] nfa_service started (health pending)")

-- The part of `start` under the lock of the child, which is held during the wait too.
unfoldable pub launch : NfaConfig → ProcessState → Starting → ProcessState × Option String
launch config s at = elim s.child [
  | some pid ↦ (s, none)
  | none ↦
      let (s', error) =
        spawn_child (announcement config) "Failed to start nfa_service: " s at.spawned at.now in
      elim error [ none ↦ (await_health s' at.now at.looks, none) | some e ↦ (s', some e) ]
]

-- `start`, with the error that it returns, if it does.
unfoldable pub start : NfaConfig → ProcessState → Starting → ProcessState × Option String
start config s at =
    let (s', running, pid) =
      process_state nfa_texts (record s { desired_running = true }) at.query in
    let launched = launch config s' at in
    if not config.enabled then (s, some disabled) else if running then (s', none) else launched

unfoldable pub restart :
    NfaConfig → ProcessState → (kill wait : Option String) → Starting → ProcessState × Option String
restart config s kill wait at = start config (count_restart (stop nfa_texts s kill wait)) at

-- `ensure_running`
unfoldable pub ensure_running : NfaConfig → ProcessState → Starting → ProcessState × Option String
ensure_running config s at =
    let started = start config s at in
    let (s', running, pid) = process_state nfa_texts s at.query in
    if not config.enabled
    then (s, some disabled)
    else if config.auto_start
    then started
    else if running
    then (s', none)
    else (s', some "NFA is not running (NFA_AUTO_START=false)")

-- A round of `supervise` up to its pause: the flag says whether the service is started after it.
unfoldable pub check_round : ProcessState → Query → (backoff : String) → ProcessState × Bool
check_round s query backoff =
    let (s', running, pid) = process_state nfa_texts s query in
    if not s.desired_running then (s, false) else if running then (s', false) else (
      push_log (count_restart s')
          ("[supervisor] nfa_service not running, restarting after " ⊕ backoff),
      true,
    )

-- What a whole round meets.
pub record Supervising : Type 0 where
  pub query : Query
  pub backoff : String
  pub starting : Starting

-- A round in which nothing else happens during the pause.
unfoldable pub supervise_round : NfaConfig → ProcessState → Supervising → ProcessState
supervise_round config s r =
    let (s', due) = check_round s r.query r.backoff in
    if due then (start config s' r.starting).0 else s'

unfoldable pub supervise_rounds : NfaConfig → ProcessState → List Supervising → ProcessState
supervise_rounds config s [] = s
supervise_rounds config s (r ∷ rs) = supervise_rounds config (supervise_round config s r) rs

unfoldable pub supervise : NfaConfig → ProcessState → Starting → List Supervising → ProcessState
supervise config s first rs =
    let started = (start config s first).0 in
    if not config.enabled
    then s
    else supervise_rounds config (if config.auto_start then started else s) rs
