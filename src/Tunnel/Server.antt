-- ===== src/Tunnel/Server.antt =====
-- src/state/tunnel_state.rs (the server's part) and src/services/tunnel/server.rs: the clients that
-- are connected and what the server does with each message of one connection. Logging, the time of
-- a connection and the heartbeat are left out; building an HTTP response from its parts is the
-- responder's, which is told the parts.
pub mod Connect
pub mod Stale
use xjp_deploy_agent.Prelude.{
  if◌then◌else◌, is_some, ◌==◌, nat_eq, string_eq, ℕ, String, Bool, not, Option, none, some, List,
  [], ◌∷◌, map,
}
use xjp_deploy_agent.HashMap
use xjp_deploy_agent.HashMap.{HashMap}
use xjp_deploy_agent.Tunnel.{
  PortMapping, TunnelMessage, config, connect, connected, connect_failed, payload, close, ping,
  pong, http_request, http_response, http_error, takeover, takeover_ready, takeover_complete,
  takeover_failed,
}
use xjp_deploy_agent.Tunnel.Listener.{Effect}
use xjp_deploy_agent.Tunnel.Manager
use xjp_deploy_agent.Tunnel.Manager.{PortListenerManager, Stops, ok, err}

pub record ClientState : Type 0 where
  pub client_id : String
  pub client_addr : String
  pub mappings : List PortMapping
  pub ws_tx : ℕ

unfoldable pub new : String → String → ℕ → ClientState
new client_id client_addr ws_tx = record {
  client_id = client_id;
  client_addr = client_addr;
  mappings = [];
  ws_tx = ws_tx;
}

pub record TunnelServerState : Type 0 where
  pub clients : HashMap String ClientState
  pub port_to_client : HashMap ℕ String
  pub pending_http_requests : HashMap String ℕ

unfoldable pub add_client : TunnelServerState → ClientState → TunnelServerState
add_client s client_state = record s {
  clients = HashMap.insert s.clients client_state.client_id client_state;
}

unfoldable pub remove_client : TunnelServerState → String → TunnelServerState
remove_client s client_id =
    if is_some (HashMap.get s.clients client_id)
    then record s {
      clients = HashMap.remove s.clients client_id;
      port_to_client = HashMap.retain_entries (λ port cid. not (cid == client_id)) s.port_to_client;
    }
    else s

unfoldable pub client_count : TunnelServerState → ℕ
client_count s = HashMap.len s.clients

unfoldable pub has_client : TunnelServerState → String → Bool
has_client s client_id = HashMap.contains_key s.clients client_id

unfoldable pub register_port : TunnelServerState → ℕ → String → TunnelServerState
register_port s port client_id = record s {
  port_to_client = HashMap.insert s.port_to_client port client_id;
}

unfoldable pub get_client_by_port : TunnelServerState → ℕ → Option String
get_client_by_port s port = HashMap.get s.port_to_client port

-- The two fields of the application's state that the server reads and writes.
pub record Server : Type 0 where
  pub state : TunnelServerState
  pub ports : PortListenerManager

-- What the server does to the world: an effect of a listener, a message on a connection's channel,
-- an answer to a proxied HTTP request, or the answer that the proxy failed.
pub data Action : Type 0 where
  at_port : Effect → Action
  says : ℕ → TunnelMessage → Action
  answers : ℕ → (status : ℕ) → List (String × String) → Option (List ℕ) → Action
  fails : ℕ → (error : String) → Action

-- The variables of `run_server` for one connection.
pub record Connection : Type 0 where
  pub client_addr : String
  pub msg_tx : ℕ
  pub client_id : Option String

unfoldable pub answered : Option ℕ → (ℕ → Action) → List Action
answered none reply = []
answered (some tx) reply = reply tx ∷ []

unfoldable pub take_request : Server → String → (ℕ → Action) → Server × List Action
take_request s request_id reply = (
  record s {
    state = record (s.state) {
      pending_http_requests = HashMap.remove s.state.pending_http_requests request_id;
    };
  },
  answered (HashMap.get s.state.pending_http_requests request_id) reply,
)

unfoldable pub route : Server → String → TunnelMessage → Server × List Action
route s client_id msg =
    let (ports, effects) = Manager.handle_client_message s.ports client_id msg in
    (record s { ports = ports }, map at_port effects)

unfoldable pub handle_client_message : Server → TunnelMessage → String → Server × List Action
handle_client_message s (connected conn_id) client_id = route s client_id (connected conn_id)
handle_client_message s (connect_failed conn_id error) client_id =
    route s client_id (connect_failed conn_id error)
handle_client_message s (payload conn_id bytes) client_id =
    route s client_id (payload conn_id bytes)
handle_client_message s (close conn_id) client_id = route s client_id (close conn_id)
handle_client_message s (http_response request_id status headers body) client_id =
    take_request s request_id (λ tx. answers tx status headers body)
handle_client_message s (http_error request_id error) client_id =
    take_request s request_id (λ tx. fails tx error)
handle_client_message s _ client_id = (s, [])
