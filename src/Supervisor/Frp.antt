-- ===== src/Supervisor/Frp.antt =====
-- src/services/frp.rs: the manager of `frpc`, and the file that it writes for it.
pub mod ConfigFile
use xjp_deploy_agent.Prelude.{
  ltb, if◌then◌else◌, nat_eq, string_eq, ℕ, ◌-◌, String, ◌⊎◌, Bool, true, false, not, ◌&&◌, Option,
  none, some, List, [], ◌∷◌, map,
}
use xjp_deploy_agent.Prelude.Text.{◌⊕◌, decimal_port, is_empty_text}
use xjp_deploy_agent.Tunnel.{PortMapping}
use xjp_deploy_agent.Supervisor
use xjp_deploy_agent.Supervisor.{
  ProcessState, Texts, Query, process_state, push_log, spawn_child, count_restart, stop,
}

pub record FrpConfig : Type 0 where
  pub enabled : Bool
  pub frpc_path : String
  pub server_addr : String
  pub server_port : ℕ
  pub token : Option String
  pub admin_addr : String
  pub admin_port : ℕ
  pub admin_user : Option String
  pub admin_pwd : Option String

pub record PortMappingStatus : Type 0 where
  pub mapping : PortMapping
  pub status : String
  pub active_connections : ℕ

pub record FrpcStatus : Type 0 where
  pub enabled : Bool
  pub desired_running : Bool
  pub running : Bool
  pub pid : Option ℕ
  pub started_at : Option ℕ
  pub restart_count : ℕ
  pub last_error : Option String
  pub config_path : String
  pub server_addr : String
  pub server_port : ℕ
  pub mappings : List PortMappingStatus

-- The process, and the content of its configuration file, if there is one.
pub record FrpcManager : Type 0 where
  pub config : FrpConfig
  pub mappings : List PortMapping
  pub config_path : String
  pub process : ProcessState
  pub config_file : Option String

abbrev pub frp_texts : Texts
frp_texts = record { program = "frpc"; tag = "[frp] " }

unfoldable pub new : FrpConfig → List PortMapping → (config_path : String) → FrpcManager
new config mappings config_path = record {
  config = config;
  mappings = mappings;
  config_path = config_path;
  process = Supervisor.new config.enabled;
  config_file = none;
}

abbrev pub line_of : (key value : String) → String
line_of key value = key ⊕ " = " ⊕ value ⊕ "\n"

abbrev pub line_if : (key : String) → Option String → String
line_if key none = ""
line_if key (some value) = line_of key value

unfoldable pub admin_lines : FrpConfig → String
admin_lines config =
    if not (is_empty_text config.admin_addr) && ltb 0 config.admin_port
    then line_of "admin_addr" config.admin_addr
      ⊕ line_of "admin_port" (decimal_port config.admin_port)
      ⊕ line_if "admin_user" config.admin_user
      ⊕ line_if "admin_pwd" config.admin_pwd
    else ""

unfoldable pub common_lines : FrpConfig → String
common_lines config =
    line_of "server_addr" config.server_addr
    ⊕ line_of "server_port" (decimal_port config.server_port)
    ⊕ "login_fail_exit = false\n"
    ⊕ line_if "token" config.token
    ⊕ admin_lines config

unfoldable pub mapping_lines : PortMapping → String
mapping_lines m =
    "["
    ⊕ m.name
    ⊕ "]\n"
    ⊕ "type = tcp\n"
    ⊕ line_of "local_ip" m.local_host
    ⊕ line_of "local_port" (decimal_port m.local_port)
    ⊕ line_of "remote_port" (decimal_port m.remote_port)
    ⊕ "\n"

unfoldable pub mappings_lines : List PortMapping → String
mappings_lines [] = ""
mappings_lines (m ∷ ms) = mapping_lines m ⊕ mappings_lines ms

unfoldable pub build_ini : FrpConfig → List PortMapping → String
build_ini config mappings = "[common]\n" ⊕ common_lines config ⊕ "\n" ⊕ mappings_lines mappings

unfoldable pub write_config : FrpcManager → (failure : Option String) → FrpcManager × Option String
write_config m (some e) = (m, some ("Failed to write frpc.ini: " ⊕ e))
write_config m none = (record m { config_file = some (build_ini m.config m.mappings) }, none)

-- What a call of `start` meets.
pub record Starting : Type 0 where
  pub query : Query
  pub write_error : Option String
  pub spawned : String ⊎ ℕ
  pub now : ℕ

unfoldable pub launch : FrpcManager → Starting → FrpcManager × Option String
launch m at =
    let (process, error) =
      spawn_child ("[frp] starting frpc: " ⊕ m.config.frpc_path ⊕ " -c " ⊕ m.config_path)
        "Failed to start frpc: " m.process at.spawned at.now in
    (record m { process = process }, error)

-- `start`, with the error that it returns, if it does.
unfoldable pub start : FrpcManager → Starting → FrpcManager × Option String
start m at =
    let (process, running, pid) =
      process_state frp_texts (record m.process { desired_running = true }) at.query in
    let asked = record m { process = process } in
    let (written, error) = write_config asked at.write_error in
    let launched = launch written at in
    if not m.config.enabled
    then (m, some "FRP is disabled (FRP_ENABLED=false)")
    else if running
    then (asked, none)
    else elim error [ some e ↦ (written, some e) | none ↦ launched ]

unfoldable pub stop_frpc : FrpcManager → (kill wait : Option String) → FrpcManager
stop_frpc m kill wait = record m { process = stop frp_texts m.process kill wait }

unfoldable pub restart :
    FrpcManager → (kill wait : Option String) → Starting → FrpcManager × Option String
restart m kill wait at =
    start (record m { process = count_restart (stop frp_texts m.process kill wait) }) at

abbrev status_of : Bool → PortMapping → PortMappingStatus
status_of running m = record {
  mapping = m;
  status = if running then "active" else "disconnected";
  active_connections = 0;
}

unfoldable pub status : FrpcManager → Query → FrpcManager × FrpcStatus
status m query =
    let (process, running, pid) = process_state frp_texts m.process query in
    (
      record m { process = process },
      record {
        enabled = m.config.enabled;
        desired_running = m.process.desired_running;
        running = running;
        pid = pid;
        started_at = process.started_at;
        restart_count = process.restart_count;
        last_error = process.last_error;
        config_path = m.config_path;
        server_addr = m.config.server_addr;
        server_port = m.config.server_port;
        mappings = map (status_of running) m.mappings;
      },
    )

-- A round of `supervise` up to its pause: the flag says whether `frpc` is started after it.
unfoldable pub check_round : FrpcManager → Query → FrpcManager × Bool
check_round m query =
    let (process, running, pid) = process_state frp_texts m.process query in
    if not m.process.desired_running
    then (m, false)
    else if running
    then (record m { process = process }, false)
    else (
      record m { process = push_log (count_restart process) "[frp] frpc not running, restarting" },
      true,
    )

-- A round in which nothing else happens during the pause.
unfoldable pub supervise_round : FrpcManager → Query × Starting → FrpcManager
supervise_round m (query, at) =
    let (m', due) = check_round m query in if due then (start m' at).0 else m'

unfoldable pub supervise_rounds : FrpcManager → List (Query × Starting) → FrpcManager
supervise_rounds m [] = m
supervise_rounds m (r ∷ rs) = supervise_rounds (supervise_round m r) rs

unfoldable pub supervise : FrpcManager → Starting → List (Query × Starting) → FrpcManager
supervise m first rs = if not m.config.enabled then m else supervise_rounds (start m first).0 rs
