-- ===== src/Config.antt =====
-- src/config/env.rs, with src/config/autoupdate.rs and src/domain/ssh.rs: the configuration that the
-- environment gives. The host's name and the conversion to lower case are parameters.
mod Tests
use Prim.Native.Char.{Char, code}
use xjp_deploy_agent.Prelude.{
  leb, nat_beq, if◌then◌else◌, map_option, unwrap_or, filter_option, ◌==◌, nat_eq, string_eq, ℕ,
  ◌+◌, ◌-◌, ◌/◌, String, Bool, true, false, not, ◌&&◌, ◌||◌, Option, none, some, List, [], ◌∷◌,
}
use xjp_deploy_agent.Prelude.Text.{parse_uint, is_empty_text}
use xjp_deploy_agent.HashMap
use xjp_deploy_agent.Project.Load.{Env}
use xjp_deploy_agent.Tunnel.{PortMapping}
use xjp_deploy_agent.Tunnel.Mappings.{parse_mappings}
use xjp_deploy_agent.Update.{TunnelMode, AutoUpdateConfig}
use xjp_deploy_agent.Update
use xjp_deploy_agent.Supervisor.Nfa.{NfaConfig}
use xjp_deploy_agent.Supervisor.Frp.{FrpConfig}
use xjp_deploy_agent.Ssh.{SshConfig, SshAuthMode, api_key}
use xjp_deploy_agent.Ssh

abbrev lower_code : ℕ → ℕ
lower_code c = if leb 65 c && leb c 90 then c + 32 else c

-- `eq_ignore_ascii_case`
unfoldable pub eq_ignore_ascii_case : String → String → Bool
eq_ignore_ascii_case String.[] String.[] = true
eq_ignore_ascii_case (String.◌∷◌ c s) (String.◌∷◌ d t) =
    let rest = eq_ignore_ascii_case s t in
    if nat_beq (lower_code (code c)) (lower_code (code d)) then rest else false
eq_ignore_ascii_case s t = false

abbrev pub max_u16 : ℕ
max_u16 = 65535

abbrev pub max_u64 : ℕ
max_u64 = 18446744073709551615

abbrev number_or : (max : ℕ) → Option String → (default : ℕ) → ℕ
number_or max none default = default
number_or max (some v) default = unwrap_or (parse_uint max v) default

abbrev flag_or : Option String → (default : Bool) → Bool
flag_or none default = default
flag_or (some v) default = v == "1" || eq_ignore_ascii_case v "true"

abbrev solid : Option String → Option String
solid = filter_option λ s. not (is_empty_text s)

unfoldable pub load_with_fallback : Env → (primary fallback : String) → Option String
load_with_fallback env primary fallback = elim (HashMap.get env primary) [
  | some v ↦ some v
  | none ↦ HashMap.get env fallback
]

unfoldable pub nfa_from_env : Env → NfaConfig
nfa_from_env env = record {
  enabled = flag_or (HashMap.get env "NFA_ENABLED") false;
  auto_start = flag_or (HashMap.get env "NFA_AUTO_START") true;
  python_path = unwrap_or (HashMap.get env "NFA_PYTHON_PATH") "python";
  script_path =
      unwrap_or (HashMap.get env "NFA_SCRIPT_PATH") "C:\\alignment-service\\nfa_service.py";
  port = number_or max_u16 (HashMap.get env "NFA_PORT") 9528;
  max_concurrent = number_or max_u64 (HashMap.get env "NFA_MAX_CONCURRENT") 1;
  poll_interval_ms = number_or max_u64 (HashMap.get env "NFA_POLL_INTERVAL_MS") 800;
  job_timeout_secs = number_or max_u64 (HashMap.get env "NFA_JOB_TIMEOUT_SECS") 300;
  restart_backoff_ms = number_or max_u64 (HashMap.get env "NFA_RESTART_BACKOFF_MS") 1500;
}

unfoldable pub frp_from_env : Env → FrpConfig
frp_from_env env = record {
  enabled = flag_or (HashMap.get env "FRP_ENABLED") false;
  frpc_path = unwrap_or (HashMap.get env "FRPC_PATH") "frpc";
  server_addr = unwrap_or (HashMap.get env "FRP_SERVER_ADDR") "127.0.0.1";
  server_port = number_or max_u16 (HashMap.get env "FRP_SERVER_PORT") 7000;
  token = solid (HashMap.get env "FRP_TOKEN");
  admin_addr = unwrap_or (HashMap.get env "FRP_ADMIN_ADDR") "127.0.0.1";
  admin_port = number_or max_u16 (HashMap.get env "FRP_ADMIN_PORT") 7400;
  admin_user = solid (HashMap.get env "FRP_ADMIN_USER");
  admin_pwd = solid (HashMap.get env "FRP_ADMIN_PWD");
}

-- An update needs the three places; without the flag or one of them there is none.
unfoldable pub auto_update_from_env : Env → Option AutoUpdateConfig
auto_update_from_env env =
    let flag = unwrap_or (HashMap.get env "AUTO_UPDATE_ENABLED") "" in
    if not (flag == "true" || flag == "1") then none else elim (HashMap.get env "UPDATE_ENDPOINT") [
      | none ↦ none
      | some endpoint ↦ elim (HashMap.get env "UPDATE_METADATA_PATH") [
        | none ↦ none
        | some metadata_path ↦
            map_option
              (λ template. record {
                enabled = true;
                endpoint = endpoint;
                metadata_path = metadata_path;
                binary_path_template = template;
                check_interval_secs =
                    number_or max_u64 (HashMap.get env "UPDATE_CHECK_INTERVAL_SECS") 3600;
              })
              (HashMap.get env "UPDATE_BINARY_PATH_TEMPLATE")
      ]
    ]

pub record TunnelConfig : Type 0 where
  pub mode : TunnelMode
  pub client_id : String
  pub auth_token : String
  pub server_url : String
  pub port_mappings : List PortMapping

pub record EnvConfig : Type 0 where
  pub api_key : String
  pub callback_url : Option String
  pub port : ℕ
  pub tunnel : TunnelConfig
  pub nfa : NfaConfig
  pub frp : FrpConfig
  pub auto_update : Option AutoUpdateConfig
  pub ssh : SshConfig

-- `TunnelMode::from_str`, of the text in lower case.
unfoldable pub tunnel_mode_of : (lowercase : String) → TunnelMode
tunnel_mode_of s =
    if s == "server"
    then Update.server
    else if s == "client"
    then Update.client
    else Update.disabled

module _ (to_lowercase : String → String) (hostname : Option String) where
  unfoldable pub tunnel_from_env : Env → TunnelConfig
  tunnel_from_env env = record {
    mode =
        unwrap_or
          (map_option (λ v. tunnel_mode_of (to_lowercase v)) (HashMap.get env "TUNNEL_MODE"))
          Update.disabled;
    client_id = unwrap_or (HashMap.get env "TUNNEL_CLIENT_ID") (unwrap_or hostname "unknown");
    auth_token = unwrap_or (HashMap.get env "TUNNEL_AUTH_TOKEN") "change-tunnel-token";
    server_url = unwrap_or (HashMap.get env "TUNNEL_SERVER_URL") "ws://localhost:9878/tunnel/ws";
    port_mappings = unwrap_or (map_option parse_mappings (HashMap.get env "TUNNEL_MAPPINGS")) [];
  }

  unfoldable pub ssh_from_env : Env → SshConfig
  ssh_from_env env = record {
    enabled = flag_or (HashMap.get env "SSH_ENABLED") false;
    port = number_or max_u16 (HashMap.get env "SSH_PORT") 2222;
    username = unwrap_or (HashMap.get env "SSH_USERNAME") "deploy";
    auth_mode =
        unwrap_or
          (map_option (λ v. Ssh.from_str (to_lowercase v)) (HashMap.get env "SSH_AUTH_MODE"))
          api_key;
    authorized_keys_file = solid (HashMap.get env "SSH_AUTHORIZED_KEYS_FILE");
    host_key_file = solid (HashMap.get env "SSH_HOST_KEY_FILE");
    session_timeout_secs = number_or max_u64 (HashMap.get env "SSH_SESSION_TIMEOUT_SECS") 3600;
    idle_timeout_secs = number_or max_u64 (HashMap.get env "SSH_IDLE_TIMEOUT_SECS") 300;
    max_sessions = number_or max_u64 (HashMap.get env "SSH_MAX_SESSIONS") 10;
  }

  unfoldable pub from_env : Env → EnvConfig
  from_env env = record {
    api_key =
        unwrap_or (load_with_fallback env "DEPLOY_AGENT_API_KEY" "API_KEY")
          "change-me-in-production";
    callback_url = load_with_fallback env "DEPLOY_CENTER_CALLBACK_URL" "CALLBACK_URL";
    port = number_or max_u16 (HashMap.get env "PORT") 9876;
    tunnel = tunnel_from_env env;
    nfa = nfa_from_env env;
    frp = frp_from_env env;
    auto_update = auto_update_from_env env;
    ssh = ssh_from_env env;
  }
