-- ===== src/Supervisor/Nfa/Rounds.antt =====
-- src/services/nfa.rs: the supervision, and a stop that it meets.
use xjp_deploy_agent.Prelude.{
  nat_eq, string_eq, length, All, ℕ, ◌+◌, ◌%◌, String, ◌≡◌, refl, ◌∙◌, inl, inr, true, false,
  Option, none, some, List, [], ◌∷◌, ◌++◌, arith,
}
use xjp_deploy_agent.Supervisor.{
  ProcessState, Query, Texts, stop, end_child, process_state, push_log, spawn_child, count_restart,
}
use xjp_deploy_agent.Supervisor.Nfa.{
  NfaConfig, Starting, Supervising, nfa_texts, start, launch, await_health, check_round,
  supervise_round, supervise_rounds,
}

abbrev pub IsStopped : ProcessState → Type 0
IsStopped s = (s.desired_running ≡ false) × (s.child ≡ none)

stop-IsStopped :
    (texts : Texts) (s : ProcessState) (kill wait : Option String)
    → IsStopped (stop texts s kill wait)
unfolding stop end_child push_log
stop-IsStopped texts s kill wait = ground arith

supervise_round_stopped :
    (config : NfaConfig) (s : ProcessState) (r : Supervising)
    → s.desired_running ≡ false
    → supervise_round config s r ≡ s
unfolding supervise_round check_round
supervise_round_stopped config s r h = ground (arith, h)

supervise_rounds_stopped :
    (config : NfaConfig) (s : ProcessState) (rs : List Supervising)
    → s.desired_running ≡ false
    → supervise_rounds config s rs ≡ s
unfolding supervise_rounds
supervise_rounds_stopped config s [] h = refl
supervise_rounds_stopped config s (r ∷ rs) h =
    rw (supervise_round_stopped config s r h) (supervise_rounds_stopped config s rs h)

start_made :
    (config : NfaConfig) (s : ProcessState) (at : Starting) (pid : ℕ)
    → config.enabled ≡ true
    → s.child ≡ none
    → at.spawned ≡ inr pid
    → let s' = (start config s at).0 in
      (s'.child ≡ some pid)
      × (s'.desired_running ≡ true)
      × (s'.last_error ≡ none)
      × (s'.restart_count ≡ s.restart_count)
unfolding start process_state launch spawn_child await_health push_log
start_made config s at pid on free made = ground (arith, on, free, made)

start_refused :
    (config : NfaConfig) (s : ProcessState) (at : Starting) (error : String)
    → config.enabled ≡ true
    → s.child ≡ none
    → at.spawned ≡ inl error
    → let s' = (start config s at).0 in
      (s'.child ≡ none) × (s'.desired_running ≡ true) × (s'.restart_count ≡ s.restart_count)
unfolding start process_state launch spawn_child await_health push_log
start_refused config s at error on free refused = ground (arith, on, free, refused)

-- A stop whose child is ended, whatever errors that meets, holds against every later round of the
-- supervision; but when a round has found the service gone before the stop, and starts it after its
-- pause, the stop is undone: the service runs again, and is wanted again.
pub stop_undone :
    (config : NfaConfig) (s : ProcessState) (kill wait : Option String) (rs : List Supervising)
    (query : Query) (backoff : String) (at : Starting) (pid : ℕ)
    → config.enabled ≡ true
    → (check_round s query backoff).1 ≡ true
    → at.spawned ≡ inr pid
    → let stopped = stop nfa_texts s kill wait in
      let stopped_in_pause = stop nfa_texts (check_round s query backoff).0 kill wait in
      let restarted = (start config stopped_in_pause at).0 in
      (supervise_rounds config stopped rs ≡ stopped)
      × IsStopped stopped
      × IsStopped stopped_in_pause
      × (restarted.child ≡ some pid)
      × (restarted.desired_running ≡ true)
stop_undone config s kill wait rs query backoff at pid on due made =
    let stopped = stop-IsStopped nfa_texts s kill wait in
    let paused = stop-IsStopped nfa_texts (check_round s query backoff).0 kill wait in
    let again =
      start_made config (stop nfa_texts (check_round s query backoff).0 kill wait) at pid on
        paused.1 made in
    (
      supervise_rounds_stopped config (stop nfa_texts s kill wait) rs stopped.0,
      stopped,
      paused,
      again.0,
      again.1,
    )

-- The service is wanted, and no process of it is held.
abbrev pub IsWanted : ProcessState → Type 0
IsWanted s = (s.desired_running ≡ true) × (s.child ≡ none)

abbrev pub FailsToStart : Supervising → Type 0
FailsToStart r = (error : String) × (r.starting.spawned ≡ inl error)

check_round_due :
    (s : ProcessState) (query : Query) (backoff : String)
    → IsWanted s
    → let (s', due) = check_round s query backoff in
      (due ≡ true) × IsWanted s' × (s'.restart_count ≡ (s.restart_count + 1) % 4294967296)
unfolding check_round process_state count_restart push_log
check_round_due s query backoff (wanted, free) = ground (arith, wanted, free)

supervise_round_due :
    (config : NfaConfig) (s : ProcessState) (r : Supervising)
    → (check_round s r.query r.backoff).1 ≡ true
    → supervise_round config s r ≡ (start config (check_round s r.query r.backoff).0 r.starting).0
unfolding supervise_round
supervise_round_due config s r due = rw due refl

supervise_round_failed :
    (config : NfaConfig) (s : ProcessState) (r : Supervising)
    → config.enabled ≡ true
    → IsWanted s
    → FailsToStart r
    → let s' = supervise_round config s r in
      IsWanted s' × (s'.restart_count ≡ (s.restart_count + 1) % 4294967296)
supervise_round_failed config s r on wanted (error, fails) =
    let (due, wanted', count) = check_round_due s r.query r.backoff wanted in
    let refused =
      start_refused config (check_round s r.query r.backoff).0 r.starting error on wanted'.1
        fails in
    rw (supervise_round_due config s r due) ((refused.1, refused.0), refused.2 ∙ count)

supervise_rounds_failed :
    (config : NfaConfig) (s : ProcessState) (rs : List Supervising)
    → config.enabled ≡ true
    → IsWanted s
    → All FailsToStart rs
    → let s' = supervise_rounds config s rs in
      IsWanted s' × (s'.restart_count % 4294967296 ≡ (s.restart_count + length rs) % 4294967296)
unfolding supervise_rounds
supervise_rounds_failed config s [] on wanted fails = (wanted, omega arith)
supervise_rounds_failed config s (r ∷ rs) on wanted fails =
    let (wanted', count) = supervise_round_failed config s r on wanted fails.0 in
    let (kept, sum) =
      supervise_rounds_failed config (supervise_round config s r) rs on wanted' fails.1 in
    (kept, omega (arith, count, sum))

supervise_rounds-append :
    (config : NfaConfig) (s : ProcessState) (rs later : List Supervising)
    → supervise_rounds config s (rs ++ later)
      ≡ supervise_rounds config (supervise_rounds config s rs) later
unfolding supervise_rounds
supervise_rounds-append config s [] later = refl
supervise_rounds-append config s (r ∷ rs) later =
    supervise_rounds-append config (supervise_round config s r) rs later

-- While the service is wanted and cannot be started, the supervision neither gives up nor forgets to
-- count a round, modulo 2 ^ 32; and the first round in which the service can be started starts it,
-- and clears the error. Nobody else calls the supervisor meanwhile.
pub supervise_rounds_lem :
    (config : NfaConfig) (s : ProcessState) (rs : List Supervising) (r : Supervising) (pid : ℕ)
    → config.enabled ≡ true
    → IsWanted s
    → All FailsToStart rs
    → r.starting.spawned ≡ inr pid
    → let waiting = supervise_rounds config s rs in
      let started = supervise_rounds config s (rs ++ r ∷ []) in
      IsWanted waiting
      × (started.child ≡ some pid)
      × (started.desired_running ≡ true)
      × (started.last_error ≡ none)
      × (started.restart_count ≡ (s.restart_count + length rs + 1) % 4294967296)
unfolding supervise_rounds
supervise_rounds_lem config s rs r pid on wanted fails made =
    let (kept, sum) = supervise_rounds_failed config s rs on wanted fails in
    let w = supervise_rounds config s rs in
    let (due, wanted', count) = check_round_due w r.query r.backoff kept in
    let again =
      start_made config (check_round w r.query r.backoff).0 r.starting pid on wanted'.1 made in
    rw (supervise_rounds-append config s rs (r ∷ []), supervise_round_due config w r due)
      (kept, again.0, again.1, again.2, omega (arith, again.3, count, sum))
