-- ===== src/Supervisor/Single.antt =====
-- src/services/nfa.rs: how many processes of the service run. The calls of a supervisor overlap: each
-- gives up the lock of the child between the parts (`Section`) that it runs under it.
use xjp_deploy_agent.Prelude.{
  if◌then◌else◌, ◌==◌, nat_eq, string_eq, retain, All, ℕ, String, ◌≡◌, refl, ◌⊎◌, inl, inr, true,
  false, not, Option, none, some, List, [], ◌∷◌, arith,
}
use xjp_deploy_agent.Supervisor.{
  ProcessState, Query, still_runs, exited, not_known, process_state, query_child, spawn_child,
  end_child, count_restart, push_log, stop,
}
use xjp_deploy_agent.Supervisor.Nfa.{
  NfaConfig, Starting, nfa_texts, launch, await_health, new, start,
}

-- The supervisor, and the processes that it has made and that are alive in the system.
pub record World : Type 0 where
  pub state : ProcessState
  pub alive : List ℕ

-- What a call does without a break: `start` is `wants`, `asks` and `launches`, `stop` is `unwants` and
-- `ends`, and `supervise` does `asks`, `counts` and then `start`. A process ends by itself by `dies`.
pub data Section : Type 0 where
  wants unwants counts : Section
  asks : Query → Section
  launches : Starting → Section
  ends : (kill wait : Option String) → Section
  dies : (pid : ℕ) → Section

abbrev pub without : ℕ → List ℕ → List ℕ
without pid alive = retain (λ p. not (p == pid)) alive

-- An answer that the child has exited means that it is no longer alive.
abbrev alive_after_query : Option ℕ → Query → List ℕ → List ℕ
alive_after_query (some pid) (exited status) alive = without pid alive
alive_after_query _ query alive = alive

abbrev alive_after_launch : Option ℕ → String ⊎ ℕ → List ℕ → List ℕ
alive_after_launch none (inr pid) alive = pid ∷ alive
alive_after_launch child spawned alive = alive

-- A `kill` without an error ends the process.
abbrev alive_after_kill : Option ℕ → (kill : Option String) → List ℕ → List ℕ
alive_after_kill (some pid) none alive = without pid alive
alive_after_kill child kill alive = alive

unfoldable pub run_section : NfaConfig → World → Section → World
run_section config w wants = record w { state = record w.state { desired_running = true } }
run_section config w unwants = record w { state = record w.state { desired_running = false } }
run_section config w counts = record w { state = count_restart w.state }
run_section config w (asks query) = record {
  state = (process_state nfa_texts w.state query).0;
  alive = alive_after_query w.state.child query w.alive;
}
run_section config w (launches at) = record {
  state = (launch config w.state at).0;
  alive = alive_after_launch w.state.child at.spawned w.alive;
}
run_section config w (ends kill wait) = record {
  state = end_child nfa_texts w.state kill wait;
  alive = alive_after_kill w.state.child kill w.alive;
}
run_section config w (dies pid) = record w { alive = without pid w.alive }

unfoldable pub run_sections : NfaConfig → World → List Section → World
run_sections config w [] = w
run_sections config w (section ∷ sections) =
    run_sections config (run_section config w section) sections

-- The process that is alive, if one is, is the child.
abbrev pub Owns : Option ℕ → List ℕ → Type 0
Owns child [] = Unit
Owns child (p ∷ []) = child ≡ some p
Owns child (p ∷ q ∷ alive) = ⊥

Owns-without :
    (child : Option ℕ) (pid : ℕ) (alive : List ℕ)
    → Owns child alive
    → Owns child (without pid alive)
unfolding retain
Owns-without child pid [] h = tt
Owns-without child pid (p ∷ []) h = ground arith
Owns-without child pid (p ∷ q ∷ alive) h = absurd h

without-Owns : (pid : ℕ) (alive : List ℕ) → Owns (some pid) alive → without pid alive ≡ []
unfolding retain
without-Owns pid [] h = refl
without-Owns pid (p ∷ []) h = ground arith
without-Owns pid (p ∷ q ∷ alive) h = absurd h

Owns-none : (alive : List ℕ) → Owns none alive → alive ≡ []
Owns-none [] h = refl
Owns-none (p ∷ []) h = cc
Owns-none (p ∷ q ∷ alive) h = absurd h

abbrev KillsWork : Section → Type 0
KillsWork (ends kill wait) = kill ≡ none
KillsWork other = Unit

-- What each part does to the child.
abbrev child_after_query : Option ℕ → Query → Option ℕ
child_after_query (some pid) (exited status) = none
child_after_query child query = child

abbrev child_after_launch : Option ℕ → String ⊎ ℕ → Option ℕ
child_after_launch none (inr pid) = some pid
child_after_launch child spawned = child

child-process_state :
    (s : ProcessState) (query : Query)
    → (process_state nfa_texts s query).0.child ≡ child_after_query s.child query
unfolding process_state query_child push_log
child-process_state s query = ground arith

child-launch :
    (config : NfaConfig) (s : ProcessState) (at : Starting)
    → (launch config s at).0.child ≡ child_after_launch s.child at.spawned
unfolding launch spawn_child await_health push_log
child-launch config s at = ground arith

child-end_child :
    (s : ProcessState) (kill wait : Option String) → (end_child nfa_texts s kill wait).child ≡ none
unfolding end_child push_log
child-end_child s kill wait = ground arith

Owns-query :
    (child : Option ℕ) (query : Query) (alive : List ℕ)
    → Owns child alive
    → Owns (child_after_query child query) (alive_after_query child query alive)
Owns-query none query alive h = h
Owns-query (some pid) still_runs alive h = h
Owns-query (some pid) (not_known error) alive h = h
Owns-query (some pid) (exited status) alive h = rw (without-Owns pid alive h) tt

Owns-launch :
    (child : Option ℕ) (spawned : String ⊎ ℕ) (alive : List ℕ)
    → Owns child alive
    → Owns (child_after_launch child spawned) (alive_after_launch child spawned alive)
Owns-launch (some pid) spawned alive h = h
Owns-launch none (inl error) alive h = h
Owns-launch none (inr pid) alive h = rw (Owns-none alive h) refl

Owns-kill :
    (child : Option ℕ) (alive : List ℕ)
    → Owns child alive
    → Owns none (alive_after_kill child none alive)
Owns-kill none alive h = h
Owns-kill (some pid) alive h = rw (without-Owns pid alive h) tt

Owns-run_section :
    (config : NfaConfig) (w : World) (section : Section)
    → KillsWork section
    → Owns w.state.child w.alive
    → Owns (run_section config w section).state.child (run_section config w section).alive
unfolding run_section count_restart
Owns-run_section config w wants k h = h
Owns-run_section config w unwants k h = h
Owns-run_section config w counts k h = h
Owns-run_section config w (asks query) k h =
    rw (child-process_state w.state query) (Owns-query w.state.child query w.alive h)
Owns-run_section config w (launches at) k h =
    rw (child-launch config w.state at) (Owns-launch w.state.child at.spawned w.alive h)
Owns-run_section config w (ends kill wait) k h =
    rw (child-end_child w.state kill wait, k) (Owns-kill w.state.child w.alive h)
Owns-run_section config w (dies pid) k h = Owns-without w.state.child pid w.alive h

Owns-run_sections :
    (config : NfaConfig) (w : World) (sections : List Section)
    → All KillsWork sections
    → Owns w.state.child w.alive
    → Owns (run_sections config w sections).state.child (run_sections config w sections).alive
unfolding run_sections
Owns-run_sections config w [] k h = h
Owns-run_sections config w (section ∷ sections) k h =
    Owns-run_sections config (run_section config w section) sections k.1
      (Owns-run_section config w section k.0 h)

abbrev pub initial : NfaConfig → World
initial config = record { state = new config; alive = [] }

-- However the calls of a new supervisor overlap, and whenever processes end by themselves: at most one
-- process of the service is alive, and it is the one that the supervisor holds as its child. Each
-- `kill` is taken to succeed.
pub run_sections-Owns :
    (config : NfaConfig) (sections : List Section)
    → All KillsWork sections
    → Owns
        (run_sections config (initial config) sections).state.child
        (run_sections config (initial config) sections).alive
run_sections-Owns config sections k = Owns-run_sections config (initial config) sections k tt

-- A start runs its parts, with nothing between them.
start-run_sections :
    (config : NfaConfig) (w : World) (at : Starting)
    → config.enabled ≡ true
    → (start config w.state at).0 ≡ (
        if (process_state nfa_texts (record w.state { desired_running = true }) at.query).1
        then (run_sections config w (wants ∷ asks at.query ∷ [])).state
        else (run_sections config w (wants ∷ asks at.query ∷ launches at ∷ [])).state)
unfolding start run_sections run_section
start-run_sections config w at h = ground (arith, h)

stop-run_sections :
    (config : NfaConfig) (w : World) (kill wait : Option String)
    → stop nfa_texts w.state kill wait
      ≡ (run_sections config w (unwants ∷ ends kill wait ∷ [])).state
unfolding stop run_sections run_section
stop-run_sections config w kill wait = refl
