-- ===== src/Deploy/Compose/Canary.antt =====
-- src/services/deploy/docker_compose.rs: the check of the canary container. Its log is a list of lines;
-- the commands that show logs and remove the container are not modelled, and an error leaves out what
-- other commands say.
use xjp_deploy_agent.Prelude.{
  map_option, ◌-◌, ltb, leb, if◌then◌else◌, unwrap_or, ◌==◌, nat_eq, string_eq, find, any, ℕ, zero,
  suc, ◌*◌, ◌/◌, String, Bool, not, ◌&&◌, ◌||◌, Option, none, some, List, [], ◌∷◌,
}
use xjp_deploy_agent.Prelude.Text.{
  ◌⊕◌, has_part, is_empty_text, trim, byte_length, take_bytes, drop_bytes,
}
use xjp_deploy_agent.Deploy.DockerBuild.{Run, succeeds}

-- What `docker inspect` says: the fields of the container, that it fails (with what it says), or that it
-- cannot be run.
pub data Poll : Type 0 where
  inspected : (status health : String) → Poll
  fails_with : (stderr : String) → Poll
  not_inspected : Poll

-- `elapsed n` is the time since the start at the head of the loop's round `n`, `checked n` that at its
-- check of a container without a health check, both in milliseconds. `health_logs` is what the last
-- health checks wrote and `logs` what the container did, each if docker shows it.
pub record CanaryRun : Type 0 where
  pub start : Run
  pub polls : ℕ → Poll
  pub elapsed : ℕ → ℕ
  pub checked : ℕ → ℕ
  pub health_logs : Option String
  pub http : Run
  pub logs : Option (List String)

-- What a check comes to: no error, an error, or a panic of the deploy's task.
pub data Check : Type 0 where
  passes panics : Check
  fails : (error : String) → Check

pub data Verdict : Type 0 where
  waits : Verdict
  ends : Check → Verdict

-- None where the code panics: the last 200 bytes may start inside a character.
unfoldable pub get_health_check_logs : Option String → Option String
get_health_check_logs none = some "Failed to get health check logs"
get_health_check_logs (some stdout) =
    let logs = trim stdout in
    if is_empty_text logs
    then some "No health check logs available"
    else if ltb 200 (byte_length logs)
    then map_option (λ tail. "..." ⊕ tail) (drop_bytes (byte_length logs - 200) logs)
    else some logs

unfoldable pub marked_unhealthy : (health_logs : Option String) → Check
marked_unhealthy health_logs = elim (get_health_check_logs health_logs) [
  | none ↦ panics
  | some logs ↦ fails ("Container marked unhealthy: " ⊕ logs)
]

unfoldable pub verdict : (health_logs : Option String) → (checked_secs : ℕ) → Poll → Verdict
verdict health_logs secs (inspected status health) =
    if status == "exited" || status == "dead"
    then ends (fails "Container died")
    else if health == "healthy"
    then ends passes
    else if health == "unhealthy"
    then ends (marked_unhealthy health_logs)
    else if (health == "none" || health == "") && status == "running" && leb 3 secs
    then ends passes
    else waits
verdict health_logs secs (fails_with stderr) =
    if has_part "No such object" stderr then ends (fails "Container no longer exists") else waits
verdict health_logs secs not_inspected = ends (fails "Failed to inspect container")

-- The pause after the round `n`, in parts of a millisecond of which 128 make one: it starts at 100
-- milliseconds and grows by half, to at most 2000. All its values are exact in `f64`.
unfoldable pub interval_128 : ℕ → ℕ
interval_128 zero = 12800
interval_128 (suc n) = let next = interval_128 n * 3 / 2 in if ltb 256000 next then 256000 else next

unfoldable pub interval : ℕ → ℕ
interval n = interval_128 n / 128

-- The result of the wait; none where the fuel is used up.
unfoldable pub wait_rounds : (fuel n : ℕ) → CanaryRun → Option Check
wait_rounds zero n c = none
wait_rounds (suc fuel) n c =
    let rest = wait_rounds fuel (suc n) c in
    if ltb 60000 (c.elapsed n)
    then some (fails "Timeout")
    else elim (verdict c.health_logs (c.checked n / 1000) (c.polls n)) [
      | ends check ↦ some check
      | waits ↦ rest
    ]

-- A minute and pauses of 100 milliseconds or more make 602 rounds at most.
unfoldable pub wait_for_container_healthy : CanaryRun → Check
wait_for_container_healthy c = unwrap_or (wait_rounds 602 0 c) (fails "Timeout")

unfoldable pub fatal_patterns : List String
fatal_patterns =
    "panic" ∷ "fatal error" ∷ "segmentation fault" ∷ "core dumped" ∷ "killed" ∷ "out of memory"
    ∷ "oom" ∷ "overlapping" ∷ "route conflict" ∷ "handler already registered" ∷ "duplicate route"
    ∷ "thread.*panicked" ∷ "called `result::unwrap()` on an `err`"
    ∷ "called `option::unwrap()` on a `none`" ∷ "stack backtrace" ∷ "assertion failed"
    ∷ "index out of bounds" ∷ "sigabrt" ∷ "sigsegv" ∷ "sigkill" ∷ "signal 6" ∷ "signal 9"
    ∷ "signal 11" ∷ "exit code 134" ∷ "exit code 139" ∷ "exited with code 1" ∷ "connection refused"
    ∷ "connection reset by peer" ∷ "database.*unavailable" ∷ "migration failed"
    ∷ "cannot start service" ∷ "no such host" ∷ []

abbrev pub ignore_patterns : List String
ignore_patterns = "already exists, skipping" ∷ "if not exists" ∷ "or replace" ∷ "on conflict" ∷ []

unfoldable pub is_ignored : String → Bool
is_ignored line = any (λ p. has_part p line) ignore_patterns

-- At most 80 bytes of the line; none where the code panics, since the 80th ends inside a character.
unfoldable pub excerpt : (line : String) → Option String
excerpt line = if ltb 80 (byte_length line) then take_bytes 80 line else some line

-- The first pattern that a line has, for the first line that is not ignored and has one.
unfoldable pub check_logs_for_fatal_patterns :
    (to_lowercase : String → String) → List String → Check
check_logs_for_fatal_patterns to_lowercase [] = passes
check_logs_for_fatal_patterns to_lowercase (line ∷ lines) =
    let rest = check_logs_for_fatal_patterns to_lowercase lines in
    let lower = to_lowercase line in
    if is_ignored lower then rest else elim (find (λ p. has_part p lower) fatal_patterns) [
      | none ↦ rest
      | some p ↦ elim (excerpt line) [ none ↦ panics | some cut ↦ fails (p ⊕ " (in: " ⊕ cut ⊕ ")") ]
    ]

unfoldable pub check_logs : (to_lowercase : String → String) → Option (List String) → Check
check_logs to_lowercase none = passes
check_logs to_lowercase (some lines) = elim (check_logs_for_fatal_patterns to_lowercase lines) [
  | passes ↦ passes
  | panics ↦ panics
  | fails pattern_ ↦ fails ("Canary container has fatal error: " ⊕ pattern_)
]

unfoldable pub run_canary_health_check : (to_lowercase : String → String) → CanaryRun → Check
run_canary_health_check to_lowercase c =
    if not (succeeds c.start)
    then fails "Failed to start canary container"
    else elim (wait_for_container_healthy c) [
      | fails error ↦ fails error
      | panics ↦ panics
      | passes ↦
          if not (succeeds c.http)
          then fails "Canary HTTP health check failed"
          else check_logs to_lowercase c.logs
    ]
