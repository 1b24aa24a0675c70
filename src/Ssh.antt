-- ===== src/Ssh.antt =====
-- src/services/ssh/server.rs and src/domain/ssh.rs: the SSH server. The protocol is a library, which
-- calls the handlers; what processes do is given. A call gives what is sent and what is run
-- (`Effect`). Loading the host key and the listener are not modelled.
pub mod Access
pub mod Handlers
pub mod Sessions
mod Tests
use xjp_deploy_agent.Prelude.{
  if◌then◌else◌, unwrap_or, ◌==◌, nat_eq, string_eq, ℕ, String, Bool, true, false, ◌&&◌, ◌||◌,
  Option, none, some, List, [], ◌∷◌,
}
use xjp_deploy_agent.HashMap
use xjp_deploy_agent.HashMap.{HashMap}

pub data SshAuthMode : Type 0 where
  api_key public_key both : SshAuthMode

-- `SshAuthMode::from_str`, of the text in lower case.
unfoldable pub from_str : (lowercase : String) → SshAuthMode
from_str s =
    if s == "api_key" || s == "apikey" || s == "password"
    then api_key
    else if s == "pubkey" || s == "publickey" || s == "public_key"
    then public_key
    else if s == "both"
    then both
    else api_key

pub record SshConfig : Type 0 where
  pub enabled : Bool
  pub port : ℕ
  pub username : String
  pub auth_mode : SshAuthMode
  pub authorized_keys_file : Option String
  pub host_key_file : Option String
  pub session_timeout_secs : ℕ
  pub idle_timeout_secs : ℕ
  pub max_sessions : ℕ

pub record SshSessionInfo : Type 0 where
  pub session_id : String
  pub username : String
  pub client_addr : String
  pub connected_at : ℕ
  pub last_activity : ℕ

pub record SshServer : Type 0 where
  pub config : SshConfig
  pub api_key : String
  pub sessions : HashMap String SshSessionInfo

pub record SshServerStatus : Type 0 where
  pub enabled : Bool
  pub listening : Bool
  pub port : ℕ
  pub active_sessions : ℕ
  pub max_sessions : ℕ
  pub sessions : List SshSessionInfo

unfoldable pub status : SshServer → SshServerStatus
status s = record {
  enabled = s.config.enabled;
  listening = true;
  port = s.config.port;
  active_sessions = HashMap.len s.sessions;
  max_sessions = s.config.max_sessions;
  sessions = HashMap.values s.sessions;
}

-- A child process, with whether its input is open and what was written to it.
pub record Child : Type 0 where
  pub pid : ℕ
  pub has_stdin : Bool
  pub input : List String

pub record ChannelState : Type 0 where
  pub pty : Bool
  pub env : HashMap String String
  pub child : Option Child

abbrev pub Channels : Type 0
Channels = HashMap ℕ ChannelState

pub record SshSessionHandler : Type 0 where
  pub session_id : String
  pub client_addr : String
  pub username : Option String
  pub authenticated : Bool
  pub api_key : String
  pub ssh_username : String
  pub auth_mode : SshAuthMode
  pub channels : Channels

unfoldable pub new_client :
    SshServer → (session_id : String) → (peer_addr : Option String) → SshSessionHandler
new_client s session_id peer_addr = record {
  session_id = session_id;
  client_addr = unwrap_or peer_addr "unknown";
  username = none;
  authenticated = false;
  api_key = s.api_key;
  ssh_username = s.config.username;
  auth_mode = s.config.auth_mode;
  channels = [];
}

-- The handler of a client, with the sessions that all handlers share.
pub record Connection : Type 0 where
  pub handler : SshSessionHandler
  pub sessions : HashMap String SshSessionInfo

pub data Method : Type 0 where
  password publickey : Method

-- What a call answers, sends and runs.
pub data Effect : Type 0 where
  accept : Effect
  reject : (proceed_with_methods : Option Method) → Effect
  opened : Bool → Effect
  channel_success channel_failure channel_close : (channel_id : ℕ) → Effect
  sends sends_error : (channel_id : ℕ) → String → Effect
  exit_status : (channel_id code : ℕ) → Effect
  runs : (program : String) → (args : List String) → (env : HashMap String String) → Effect
  kills : (pid : ℕ) → Effect

unfoldable pub is_public_key : SshAuthMode → Bool
is_public_key public_key = true
is_public_key other = false

unfoldable pub is_api_key : SshAuthMode → Bool
is_api_key api_key = true
is_api_key other = false

unfoldable pub auth_password :
    Connection → (user pass : String) → (now : ℕ) → Connection × List Effect
auth_password c user pass now =
    let h = c.handler in
    if is_public_key h.auth_mode
    then (c, reject (some publickey) ∷ [])
    else if user == h.ssh_username && pass == h.api_key
    then (
      record {
        handler = record h { username = some user; authenticated = true };
        sessions = HashMap.insert c.sessions h.session_id (record {
          session_id = h.session_id;
          username = user;
          client_addr = h.client_addr;
          connected_at = now;
          last_activity = now;
        });
      },
      accept ∷ [],
    )
    else (c, reject none ∷ [])

unfoldable pub auth_publickey : Connection → (user : String) → Connection × List Effect
auth_publickey c user =
    if is_api_key c.handler.auth_mode
    then (c, reject (some password) ∷ [])
    else (c, reject none ∷ [])
