-- ===== src/Supervisor/Frp/ConfigFile.antt =====
-- src/services/frp.rs: the configuration file of `frpc`, and a stop that the supervision undoes.
use xjp_deploy_agent.Prelude.{
  is_some, nat_eq, string_eq, String, ◌≡◌, true, false, Option, none, some, List, [], ◌∷◌, arith,
}
use xjp_deploy_agent.Tunnel.{PortMapping}
use xjp_deploy_agent.Supervisor
use xjp_deploy_agent.Supervisor.{
  ProcessState, Query, process_state, query_child, push_log, spawn_child, count_restart, stop,
  end_child,
}
use xjp_deploy_agent.Supervisor.Frp.{
  FrpConfig, FrpcManager, Starting, frp_texts, new, build_ini, write_config, launch, start,
  stop_frpc, restart, status, check_round,
}

-- A call of the manager, or a part of one.
pub data Call : Type 0 where
  starts : Starting → Call
  stops : (kill wait : Option String) → Call
  restarts : (kill wait : Option String) → Starting → Call
  asks : Query → Call
  checks : Query → Call

unfoldable pub run_call : FrpcManager → Call → FrpcManager
run_call m (starts at) = (start m at).0
run_call m (stops kill wait) = stop_frpc m kill wait
run_call m (restarts kill wait at) = (restart m kill wait at).0
run_call m (asks query) = (status m query).0
run_call m (checks query) = (check_round m query).0

unfoldable pub run_calls : FrpcManager → List Call → FrpcManager
run_calls m [] = m
run_calls m (call ∷ calls) = run_calls (run_call m call) calls

-- The configuration and the mappings are those that the manager was made with, and while a process is
-- held, the file is written for them.
pub record IsWritten (config : FrpConfig) (mappings : List PortMapping) (m : FrpcManager)
    : Type 0 where
  pub same_config : m.config ≡ config
  pub same_mappings : m.mappings ≡ mappings
  pub file : is_some m.process.child ≡ true → m.config_file ≡ some (build_ini config mappings)
  pub disabled : config.enabled ≡ false → m.process.child ≡ none

module _ {config : FrpConfig} {mappings : List PortMapping} {m : FrpcManager} where
  start-IsWritten :
      (at : Starting) → IsWritten config mappings m → IsWritten config mappings (start m at).0
  unfolding start process_state query_child push_log spawn_child write_config launch
  start-IsWritten at v = ground arith

  stop_frpc-IsWritten :
      (kill wait : Option String)
      → IsWritten config mappings m
      → IsWritten config mappings (stop_frpc m kill wait)
  unfolding stop_frpc stop end_child push_log
  stop_frpc-IsWritten kill wait v = ground arith

  counted-IsWritten :
      (kill wait : Option String)
      → IsWritten config mappings m
      → IsWritten config mappings
          (record m { process = count_restart (stop frp_texts m.process kill wait) })
  unfolding stop end_child push_log count_restart
  counted-IsWritten kill wait v = ground arith

  status-IsWritten :
      (query : Query) → IsWritten config mappings m → IsWritten config mappings (status m query).0
  unfolding status process_state query_child push_log
  status-IsWritten query v = ground arith

  check_round-IsWritten :
      (query : Query)
      → IsWritten config mappings m
      → IsWritten config mappings (check_round m query).0
  unfolding check_round process_state query_child push_log count_restart
  check_round-IsWritten query v = ground arith

run_call-IsWritten :
    {config : FrpConfig} {mappings : List PortMapping} (m : FrpcManager) (call : Call)
    → IsWritten config mappings m
    → IsWritten config mappings (run_call m call)
unfolding run_call restart
run_call-IsWritten m (starts at) v = start-IsWritten at v
run_call-IsWritten m (stops kill wait) v = stop_frpc-IsWritten kill wait v
run_call-IsWritten m (restarts kill wait at) v = start-IsWritten at (counted-IsWritten kill wait v)
run_call-IsWritten m (asks query) v = status-IsWritten query v
run_call-IsWritten m (checks query) v = check_round-IsWritten query v

run_calls-IsWritten :
    {config : FrpConfig} {mappings : List PortMapping} (m : FrpcManager) (calls : List Call)
    → IsWritten config mappings m
    → IsWritten config mappings (run_calls m calls)
unfolding run_calls
run_calls-IsWritten m [] v = v
run_calls-IsWritten m (call ∷ calls) v =
    run_calls-IsWritten (run_call m call) calls (run_call-IsWritten m call v)

-- Whatever calls a new manager gets, one after another, rounds of its supervision included: its
-- configuration and its mappings stay; while it holds a process of `frpc`, the configuration file
-- has what `build_ini` writes for them; and while it is disabled it holds no process.
pub run_calls-new :
    (config : FrpConfig) (mappings : List PortMapping) (config_path : String) (calls : List Call)
    → IsWritten config mappings (run_calls (new config mappings config_path) calls)
unfolding new Supervisor.new
run_calls-new config mappings config_path calls =
    run_calls-IsWritten (new config mappings config_path) calls (ground arith)
