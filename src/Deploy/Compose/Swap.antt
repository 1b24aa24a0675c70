-- ===== src/Deploy/Compose/Swap.antt =====
-- src/services/deploy/docker_compose.rs: when the running container is replaced, and when the deploy
-- succeeds or panics.
use xjp_deploy_agent.Prelude.{
  is_some, nat_eq, string_eq, find, any, length, String, ◌≡◌, refl, Bool, true, false, not, ◌&&◌,
  ◌||◌, ◌⊎◌, inl, inr, Option, none, some, List, [], ◌∷◌, arith, Option-cases,
}
use xjp_deploy_agent.Prelude.Text.{has_part}
use xjp_deploy_agent.Task.{is_terminal}
use xjp_deploy_agent.Task.Stage
use xjp_deploy_agent.Deploy.Script.{is_success}
use xjp_deploy_agent.Deploy.Execute.{Ending, finishes, panics}
use xjp_deploy_agent.Deploy.DockerBuild.{succeeds}
use xjp_deploy_agent.Deploy.DockerBuild.Pushed.{code-end_stage}
use xjp_deploy_agent.Deploy.Compose.Canary
use xjp_deploy_agent.Deploy.Compose.Canary.{
  CanaryRun, Check, is_ignored, fatal_patterns, excerpt, wait_for_container_healthy,
  check_logs_for_fatal_patterns, check_logs, run_canary_health_check,
}
use xjp_deploy_agent.Deploy.Compose.{
  DockerComposeConfig, Happening, canary_container_name, pull_both, check_canary, swap, monitor,
  if_going, with_rest, concluded, execute_stages, execute,
}

abbrev pub is_passed : Check → Bool
is_passed Canary.passes = true
is_passed other = false

abbrev pub is_panic : Check → Bool
is_panic Canary.panics = true
is_panic other = false

abbrev pub is_finished : Ending → Bool
is_finished (finishes o) = true
is_finished (panics stored) = false

-- A deploy that ends has a terminal status, which is a success or not as given, an exit code and five
-- stages.
abbrev pub Ends : (succeeded : Bool) → Ending → Type 0
Ends succeeded (finishes o) =
    (is_success o.status ≡ succeeded)
    × (is_terminal o.status ≡ true)
    × (is_some o.exit_code ≡ true)
    × (length o.stages ≡ 5)
Ends succeeded (panics stored) = Unit

find-any : (p : String → Bool) (xs : List String) → is_some (find p xs) ≡ any p xs
unfolding find any
find-any p [] = refl
find-any p (x ∷ xs) = ground (arith, find-any p xs)

Check-cases :
    (c : Check)
    → (c ≡ Canary.passes) ⊎ ((c ≡ Canary.panics) ⊎ ((e : String) × (c ≡ Canary.fails e)))
Check-cases Canary.passes = inl refl
Check-cases Canary.panics = inr (inl refl)
Check-cases (Canary.fails e) = inr (inr (e, refl))

module _ (to_lowercase : String → String) where
  -- A line that is not ignored and has a fatal pattern.
  abbrev pub is_fatal : String → Bool
  is_fatal line =
      not (is_ignored (to_lowercase line))
      && any (λ p. has_part p (to_lowercase line)) fatal_patterns

  -- The log could not be read, or no line of it is fatal.
  abbrev pub is_clean : Option (List String) → Bool
  is_clean none = true
  is_clean (some lines) = not (any is_fatal lines)

  -- The first fatal line of the log cannot be cut after 80 bytes.
  abbrev pub is_uncut : Option (List String) → Bool
  is_uncut none = false
  is_uncut (some lines) = elim (find is_fatal lines) [
    | none ↦ false
    | some line ↦ not (is_some (excerpt line))
  ]

  abbrev pub passes_canary : CanaryRun → Bool
  passes_canary c =
      succeeds c.start
      && is_passed (wait_for_container_healthy c)
      && succeeds c.http
      && is_clean c.logs

  abbrev pub panics_canary : CanaryRun → Bool
  panics_canary c =
      succeeds c.start
      && (is_panic (wait_for_container_healthy c)
          || (is_passed (wait_for_container_healthy c) && succeeds c.http && is_uncut c.logs))

  check_logs_lem :
      (lines : List String)
      → let check = check_logs_for_fatal_patterns to_lowercase lines in
        (is_passed check ≡ not (any is_fatal lines)) × (is_panic check ≡ is_uncut (some lines))
  unfolding check_logs_for_fatal_patterns any find
  check_logs_lem [] = (refl, refl)
  check_logs_lem (line ∷ lines) =
      let rest = check_logs_lem lines in
      let found = find-any (λ p. has_part p (to_lowercase line)) fatal_patterns in
      (ground (arith, rest.0, found), ground (arith, rest.1, found))

  check_logs_all :
      (logs : Option (List String))
      → (is_passed (check_logs to_lowercase logs) ≡ is_clean logs)
        × (is_panic (check_logs to_lowercase logs) ≡ is_uncut logs)
  unfolding check_logs
  check_logs_all none = (refl, refl)
  check_logs_all (some lines) =
      let (passed, panicked) = check_logs_lem lines in
      elim (Check-cases (check_logs_for_fatal_patterns to_lowercase lines)) [
        | inl e ↦ (ground (arith, e, passed), ground (arith, e, panicked))
        | inr (inl e) ↦ (ground (arith, e, passed), ground (arith, e, panicked))
        | inr (inr (error, e)) ↦ (ground (arith, e, passed), ground (arith, e, panicked))
      ]

  run_canary_health_check_lem :
      (c : CanaryRun)
      → let check = run_canary_health_check to_lowercase c in
        (is_passed check ≡ passes_canary c) × (is_panic check ≡ panics_canary c)
  unfolding run_canary_health_check
  run_canary_health_check_lem c =
      let (passed, panicked) = check_logs_all c.logs in
      elim (Check-cases (wait_for_container_healthy c)) [
        | inl e ↦ (ground (arith, e, passed), ground (arith, e, panicked))
        | inr (inl e) ↦ (ground (arith, e), ground (arith, e))
        | inr (inr (error, e)) ↦ (ground (arith, e), ground (arith, e))
      ]

  module _ (task_id : String) (config : DockerComposeConfig) (h : Happening) where
    -- The deploy gets to the check of the canary.
    abbrev pub tries_canary : Bool
    tries_canary =
        is_some (canary_container_name task_id) && succeeds h.docker_pull && not h.is_cancelled

    -- The running container is replaced exactly if the canary could be named, the image was pulled, the
    -- deploy was not cancelled by then, and the canary was started, became healthy in time, answered its
    -- health request and logged no fatal line; and a deploy that ends succeeds exactly if the
    -- replacement succeeds too, whatever `git pull` and the monitor say. It ends in a terminal status
    -- with an exit code and five stages, unless it panics: that is, exactly if the task's id cannot be
    -- cut after 8 bytes, or, in the check of the canary, the log of the health checks or the first fatal
    -- line cannot be cut.
    pub execute_compose_lem :
        let r = execute to_lowercase task_id config h in
        (r.1 ≡ (tries_canary && passes_canary h.canary))
        × (Ends (tries_canary && passes_canary h.canary && succeeds h.compose_up) r.0)
        × (is_finished r.0 ≡ (
            is_some (canary_container_name task_id)
            && not (tries_canary && panics_canary h.canary)))
    unfolding execute execute_stages concluded pull_both check_canary swap monitor if_going
        with_rest is_success is_terminal
    execute_compose_lem =
        let pulled =
          code-end_stage (Stage.start (Stage.new "docker_pull" "Docker Pull") (h.times 0))
            h.docker_pull "docker pull failed" (h.times 1) in
        let up =
          code-end_stage (Stage.start (Stage.new "compose_up" "Compose Up") (h.times 4))
            h.compose_up "compose up failed" (h.times 5) in
        let (passed, panicked) = run_canary_health_check_lem h.canary in
        elim (Option-cases (canary_container_name task_id)) [
          | inl e ↦ (ground (arith, e), ground (arith, e), ground (arith, e))
          | inr (name, e) ↦ (
            ground (arith, e, pulled, up, passed, panicked),
            ground (arith, e, pulled, up, passed, panicked),
            ground (arith, e, pulled, up, passed, panicked),
          )
        ]
