-- ===== src/Supervisor.antt =====
-- src/services/nfa.rs and src/services/frp.rs: what the two supervisors of a child process have in
-- common, the process's state and its log. The two files write the same code twice, but for the
-- texts (`Texts`). `push_log_line` of nfa.rs writes in a task of its own, here at once.
pub mod Logs
pub mod Single
mod Tests
pub mod Nfa
pub mod Frp
use xjp_deploy_agent.Prelude.{
  ltb, if◌then◌else◌, nat_eq, string_eq, length, ℕ, zero, suc, ◌+◌, ◌-◌, ◌%◌, String, ◌⊎◌, inl, inr,
  Bool, true, false, Option, none, some, List, [], ◌∷◌, ◌++◌,
}
use xjp_deploy_agent.Prelude.Text.{◌⊕◌}

-- How the messages call the process, and what they begin with.
pub record Texts : Type 0 where
  pub program : String
  pub tag : String

-- The fields of `NfaProcessState` with the flag and the log of the supervisor; a child is its number.
pub record ProcessState : Type 0 where
  pub desired_running : Bool
  pub child : Option ℕ
  pub started_at : Option ℕ
  pub last_error : Option String
  pub restart_count : ℕ
  pub log_lines : List String

unfoldable pub new : (desired : Bool) → ProcessState
new desired = record {
  desired_running = desired;
  child = none;
  started_at = none;
  last_error = none;
  restart_count = 0;
  log_lines = [];
}

abbrev pub max_lines : ℕ
max_lines = 5000

-- `while lines.len() > MAX_LINES { lines.pop_front(); }`
unfoldable pub trim_front : ℕ → List String → List String
trim_front max [] = []
trim_front max (line ∷ lines) =
    let rest = trim_front max lines in
    if ltb max (length (line ∷ lines)) then rest else line ∷ lines

unfoldable pub push_line : List String → String → List String
push_line lines line = trim_front max_lines (lines ++ line ∷ [])

unfoldable pub push_log : ProcessState → String → ProcessState
push_log s line = record s { log_lines = push_line s.log_lines line }

unfoldable pub skip_lines : ℕ → List String → List String
skip_lines zero lines = lines
skip_lines (suc n) [] = []
skip_lines (suc n) (line ∷ lines) = skip_lines n lines

-- `tail.clamp(1, 5000)`
unfoldable pub clamp_tail : ℕ → ℕ
clamp_tail tail = if ltb tail 1 then 1 else if ltb max_lines tail then max_lines else tail

unfoldable pub tail_logs : ProcessState → ℕ → List String
tail_logs s tail = skip_lines (length s.log_lines - clamp_tail tail) s.log_lines

-- What `try_wait` says of a child.
pub data Query : Type 0 where
  still_runs : Query
  exited : (status : String) → Query
  not_known : (error : String) → Query

module _ (texts : Texts) where
  abbrev note_error : ProcessState → String → ProcessState
  note_error s msg = push_log (record s { last_error = some msg }) (texts.tag ⊕ msg)

  -- A child that has exited is let go; one that cannot be asked counts as running.
  unfoldable pub query_child : ProcessState → ℕ → Query → ProcessState × Bool × Option ℕ
  query_child s pid still_runs = (s, true, some pid)
  query_child s pid (exited status) =
      let msg = texts.program ⊕ " exited: " ⊕ status in
      (record (note_error s msg) { child = none }, false, none)
  query_child s pid (not_known error) =
      let msg = "Failed to query " ⊕ texts.program ⊕ " status: " ⊕ error in
      (note_error s msg, true, some pid)

  unfoldable pub process_state : ProcessState → Query → ProcessState × Bool × Option ℕ
  process_state s query = elim s.child [
    | none ↦ (s, false, none)
    | some pid ↦ query_child s pid query
  ]

  abbrev note_if : ProcessState → String → Option String → ProcessState
  note_if s what none = s
  note_if s what (some error) = note_error s ("Failed to " ⊕ what ⊕ texts.program ⊕ ": " ⊕ error)

  -- The part of `stop` under the lock of the child, with the errors of its `kill` and its `wait`.
  unfoldable pub end_child : ProcessState → (kill wait : Option String) → ProcessState
  end_child s kill wait = elim s.child [
    | none ↦ s
    | some pid ↦
        let taken =
          push_log (record s { child = none }) (texts.tag ⊕ "stopping " ⊕ texts.program) in
        note_if (note_if taken "kill " kill) "wait for " wait
  ]

  unfoldable pub stop : ProcessState → (kill wait : Option String) → ProcessState
  stop s kill wait = end_child (record s { desired_running = false }) kill wait

-- The part of `start` under the lock of the child, in which the child is made: it is left as it is if
-- there is one by now.
unfoldable pub spawn_child :
    (announcement failure : String)
    → ProcessState
    → (spawned : String ⊎ ℕ) → (now : ℕ) → ProcessState × Option String
spawn_child announcement failure s spawned now =
    let told = push_log s announcement in
    elim s.child [
      | some pid ↦ (s, none)
      | none ↦ elim spawned [
        | inl error ↦ (told, some (failure ⊕ error))
        | inr pid ↦
            (record told { child = some pid; started_at = some now; last_error = none }, none)
      ]
    ]

-- `restart_count.fetch_add(1)` of an `AtomicU32`, which wraps around.
unfoldable pub count_restart : ProcessState → ProcessState
count_restart s = record s { restart_count = (s.restart_count + 1) % 4294967296 }
