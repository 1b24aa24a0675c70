-- ===== src/Tunnel/Client.antt =====
-- src/services/tunnel/client.rs and src/state/tunnel_state.rs: the agent's end of the tunnel. A
-- session is one connection to the server; its local connections are made by tasks that run beside
-- it, and what these tasks do are events of their own. A channel's sender is a number.
pub mod Run
pub mod Connections
pub mod Reconnect
pub mod Takeover
use xjp_deploy_agent.Prelude.{
  nat_beq, if◌then◌else◌, map_option, unwrap_or, ◌==◌, nat_eq, string_eq, retain, find, any, ℕ, ◌-◌,
  String, Bool, false, not, Option, none, some, List, [], ◌∷◌,
}
use xjp_deploy_agent.Prelude.Text.{◌⊕◌, decimal_port}
use xjp_deploy_agent.HashMap
use xjp_deploy_agent.HashMap.{HashMap}
use xjp_deploy_agent.Tunnel.{
  PortMapping, TunnelMessage, connect, connected, connect_failed, payload, close, http_request,
  http_response, http_error,
}

pub data ClientResult : Type 0 where
  disconnected shutdown takeover_complete takeover_success : ClientResult
  takeover_failed : String → ClientResult

pub record TunnelClientState : Type 0 where
  pub connected : Bool
  pub connected_at : Option ℕ
  pub last_error : Option String
  pub reconnect_count : ℕ

unfoldable pub new : TunnelClientState
new = record { connected = false; connected_at = none; last_error = none; reconnect_count = 0 }

-- For each local connection the sender of its data, the connections that are being made, and those
-- whose local end is read.
pub record Session : Type 0 where
  pub local_connections : HashMap String ℕ
  pub dialing : List String
  pub reading : List String

unfoldable pub new_session : Session
new_session = record { local_connections = []; dialing = []; reading = [] }

-- What a session does to the world: it queues a message for the server, passes data on to a local
-- connection, starts to make one, or sends a request to the agent's own API.
pub data Action : Type 0 where
  sends : TunnelMessage → Action
  forwards : ℕ → List ℕ → Action
  dials : (conn_id local_host : String) → (local_port : ℕ) → Action
  requests :
      (request_id method path : String)
      → (local_port : ℕ) → List (String × String)
      → Option (List ℕ)
      → Action

-- What the tasks of a session tell: a local connection is made, with the sender of its data, or it
-- is not; the local end sent data, or it is closed or broken; a request was answered or failed.
pub data Event : Type 0 where
  established : (conn_id : String) → (data_tx : ℕ) → Event
  refused : (conn_id error : String) → Event
  has_read : (conn_id : String) → List ℕ → Event
  has_closed : (conn_id : String) → Event
  answered : (request_id : String) → (status : ℕ) → List (String × String) → List ℕ → Event
  unanswered : (request_id error : String) → Event

unfoldable pub supported_method : String → String
supported_method method =
    if any (λ m. m == method)
      ("GET" ∷ "POST" ∷ "PUT" ∷ "DELETE" ∷ "PATCH" ∷ "HEAD" ∷ "OPTIONS" ∷ [])
    then method
    else "GET"

unfoldable pub api_port : List PortMapping → ℕ
api_port mappings =
    unwrap_or (map_option (λ m. m.local_port) (find (λ m. m.name == "deploy-agent") mappings)) 9876

unfoldable pub contains : String → List String → Bool
contains id ids = any (λ j. j == id) ids

unfoldable pub without : String → List String → List String
without id ids = retain (λ j. not (j == id)) ids

module _ (mappings : List PortMapping) where
  unfoldable pub on_connect :
      Session → (conn_id : String) → (remote_port : ℕ) → Session × List Action
  on_connect s conn_id remote_port = elim (find (λ m. nat_beq m.remote_port remote_port) mappings) [
    | some m ↦
        (record s { dialing = conn_id ∷ s.dialing }, dials conn_id m.local_host m.local_port ∷ [])
    | none ↦
        (s, sends (connect_failed conn_id ("No mapping for port " ⊕ decimal_port remote_port)) ∷ [])
  ]

  unfoldable pub forward : Session → (conn_id : String) → List ℕ → List Action
  forward s conn_id bytes = elim (HashMap.get s.local_connections conn_id) [
    | some data_tx ↦ forwards data_tx bytes ∷ []
    | none ↦ []
  ]

  unfoldable pub handle_server_message : Session → TunnelMessage → Session × List Action
  handle_server_message s (connect conn_id remote_port) = on_connect s conn_id remote_port
  handle_server_message s (payload conn_id bytes) = (s, forward s conn_id bytes)
  handle_server_message s (close conn_id) =
      (record s { local_connections = HashMap.remove s.local_connections conn_id }, [])
  handle_server_message s (http_request request_id method path headers body) =
      (s, requests request_id (supported_method method) path (api_port mappings) headers body ∷ [])
  handle_server_message s other = (s, [])

-- The connection is entered before the server is told of it.
unfoldable pub on_established : Session → (conn_id : String) → (data_tx : ℕ) → Session × List Action
on_established s conn_id data_tx = (
  record {
    local_connections = HashMap.insert s.local_connections conn_id data_tx;
    dialing = without conn_id s.dialing;
    reading = conn_id ∷ s.reading;
  },
  sends (connected conn_id) ∷ [],
)

-- An event of a task that does not run changes nothing.
unfoldable pub on_event : Session → Event → Session × List Action
on_event s (established conn_id data_tx) =
    if contains conn_id s.dialing then on_established s conn_id data_tx else (s, [])
on_event s (refused conn_id error) =
    if contains conn_id s.dialing
    then (
      record s { dialing = without conn_id s.dialing },
      sends (connect_failed conn_id error) ∷ [],
    )
    else (s, [])
on_event s (has_read conn_id bytes) =
    if contains conn_id s.reading then (s, sends (payload conn_id bytes) ∷ []) else (s, [])
on_event s (has_closed conn_id) =
    if contains conn_id s.reading
    then (
      record s {
        local_connections = HashMap.remove s.local_connections conn_id;
        reading = without conn_id s.reading;
      },
      sends (close conn_id) ∷ [],
    )
    else (s, [])
on_event s (answered request_id status headers body) = (
  s,
  sends (http_response request_id status headers (elim body [ [] ↦ none | b ∷ bs ↦ some (b ∷ bs) ]))
      ∷ [],
)
on_event s (unanswered request_id error) = (s, sends (http_error request_id error) ∷ [])
