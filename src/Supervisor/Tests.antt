-- ===== src/Supervisor/Tests.antt =====
-- The theorems on the supervisors at concrete inputs.
use xjp_deploy_agent.Prelude.{
  is_some, nat_eq, string_eq, length, ℕ, ◌+◌, ◌%◌, ◌≤◌, String, ◌≡◌, refl, ◌⊎◌, inl, inr, true,
  none, some, List, [], ◌∷◌, ◌++◌, arith,
}
use xjp_deploy_agent.Supervisor
use xjp_deploy_agent.Supervisor.{
  ProcessState, Query, still_runs, exited, stop, max_lines, clamp_tail, tail_logs,
}
use xjp_deploy_agent.Supervisor.Logs.{last, push_logs, tail_logs-push_logs}
use xjp_deploy_agent.Supervisor.Single.{
  Owns, Section, wants, unwants, asks, launches, ends, dies, run_sections, initial,
  run_sections-Owns,
}
use xjp_deploy_agent.Supervisor.Nfa.{
  NfaConfig, Starting, Supervising, nfa_texts, start, check_round, supervise_rounds,
}
use xjp_deploy_agent.Supervisor.Nfa.Rounds.{IsStopped, IsWanted, stop_undone, supervise_rounds_lem}
use xjp_deploy_agent.Supervisor.Nfa.Align.{Json, ok, poll_job}
use xjp_deploy_agent.Http.{Answer, answered}
use xjp_deploy_agent.Supervisor.Nfa.Align.Polls.{IsDone, Some, poll_job_lem}
use xjp_deploy_agent.Supervisor.Frp.{FrpConfig}
use xjp_deploy_agent.Supervisor.Frp
use xjp_deploy_agent.Supervisor.Frp.ConfigFile.{
  Call, starts, stops, checks, run_calls, IsWritten, run_calls-new,
}
use xjp_deploy_agent.Tunnel.{PortMapping}

abbrev nfa_config : NfaConfig
nfa_config = record {
  enabled = true;
  auto_start = true;
  python_path = "python";
  script_path = "nfa_service.py";
  port = 9528;
  max_concurrent = 1;
  poll_interval_ms = 800;
  job_timeout_secs = 300;
  restart_backoff_ms = 1500;
}

abbrev starting : String ⊎ ℕ → Starting
starting spawned = record {
  query = still_runs;
  spawned = spawned;
  now = 1000;
  looks = (1100, some true) ∷ [];
}

abbrev wanted : ProcessState
wanted = Supervisor.new true

abbrev round_with : String ⊎ ℕ → Supervising
round_with spawned = record { query = still_runs; backoff = "1.5s"; starting = starting spawned }

tail_logs-push_logs_example :
    (length (push_logs wanted ("a" ∷ "b" ∷ "c" ∷ [])).log_lines ≤ max_lines)
    × (tail_logs (push_logs wanted ("a" ∷ "b" ∷ "c" ∷ [])) 2
        ≡ last (clamp_tail 2) ("a" ∷ "b" ∷ "c" ∷ []))
unfolding Supervisor.new
tail_logs-push_logs_example = tail_logs-push_logs wanted ("a" ∷ "b" ∷ "c" ∷ []) 2 (omega arith)

abbrev overlapping : List Section
overlapping =
    wants
    ∷ wants
    ∷ launches (starting (inr 7))
    ∷ launches (starting (inr 8))
    ∷ dies 7
    ∷ asks (exited "exit status: 1")
    ∷ launches (starting (inr 9))
    ∷ unwants
    ∷ ends none none
    ∷ []

run_sections-Owns_example :
    Owns
      (run_sections nfa_config (initial nfa_config) overlapping).state.child
      (run_sections nfa_config (initial nfa_config) overlapping).alive
run_sections-Owns_example =
    run_sections-Owns nfa_config overlapping
      (tt, (tt, (tt, (tt, (tt, (tt, (tt, (tt, (refl, tt)))))))))

check_round-wanted : (check_round wanted still_runs "1.5s").1 ≡ true
unfolding check_round Supervisor.process_state Supervisor.new
check_round-wanted = refl

stop_undone_example :
    let stopped = stop nfa_texts wanted none none in
    let stopped_in_pause = stop nfa_texts (check_round wanted still_runs "1.5s").0 none none in
    let restarted = (start nfa_config stopped_in_pause (starting (inr 7))).0 in
    (supervise_rounds nfa_config stopped [] ≡ stopped)
    × IsStopped stopped
    × IsStopped stopped_in_pause
    × (restarted.child ≡ some 7)
    × (restarted.desired_running ≡ true)
stop_undone_example =
    stop_undone nfa_config wanted none none [] still_runs "1.5s" (starting (inr 7)) 7 refl
      check_round-wanted refl

wanted-IsWanted : IsWanted wanted
unfolding Supervisor.new
wanted-IsWanted = (refl, refl)

supervise_rounds_lem_example :
    let rs = round_with (inl "no such file") ∷ [] in
    let waiting = supervise_rounds nfa_config wanted rs in
    let started = supervise_rounds nfa_config wanted (rs ++ round_with (inr 7) ∷ []) in
    IsWanted waiting
    × (started.child ≡ some 7)
    × (started.desired_running ≡ true)
    × (started.last_error ≡ none)
    × (started.restart_count ≡ (wanted.restart_count + 1 + 1) % 4294967296)
supervise_rounds_lem_example =
    supervise_rounds_lem nfa_config wanted (round_with (inl "no such file") ∷ [])
      (round_with (inr 7)) 7 refl wanted-IsWanted (("no such file", refl), tt) refl

-- A reader of bodies that are the text of a status.
abbrev plain_json : Json
plain_json = record {
  Value = String;
  from_str = λ raw. some raw;
  str_field = λ v key. some v;
  field = λ v key. none;
  parse_error = λ raw. "bad";
  status_text = λ code. "status";
}

abbrev polls : List (ℕ × Answer)
polls = (0, answered 200 "pending") ∷ (800, answered 200 "done") ∷ (1600, answered 200 "done") ∷ []

poll_job_lem_example :
    (is_some (poll_job plain_json 800 "late" polls) ≡ true)
    × ((v : String)
        → poll_job plain_json 800 "late" polls ≡ some (ok v)
        → Some plain_json (IsDone plain_json 800 v) polls)
poll_job_lem_example =
    poll_job_lem plain_json 800 "late" 800 0 polls (omega arith) (omega arith) (omega arith)
      (omega arith)

abbrev frp_config : FrpConfig
frp_config = record {
  enabled = true;
  frpc_path = "frpc";
  server_addr = "127.0.0.1";
  server_port = 7000;
  token = none;
  admin_addr = "";
  admin_port = 0;
  admin_user = none;
  admin_pwd = none;
}

abbrev web : PortMapping
web = record { name = "web"; local_host = "127.0.0.1"; local_port = 80; remote_port = 8080 }

abbrev frp_starting : Frp.Starting
frp_starting = record { query = still_runs; write_error = none; spawned = inr 7; now = 1000 }

abbrev frp_calls : List Call
frp_calls = starts frp_starting ∷ checks still_runs ∷ stops none none ∷ []

run_calls-new_example :
    IsWritten frp_config (web ∷ []) (run_calls (Frp.new frp_config (web ∷ []) "frpc.ini") frp_calls)
run_calls-new_example = run_calls-new frp_config (web ∷ []) "frpc.ini" frp_calls
