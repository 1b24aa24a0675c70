-- ===== src/Tunnel/Listener.antt =====
-- src/state/port_listener_manager.rs: one port listener, which outlives the clients that it is bound
-- to. The time of a binding, which nothing reads, is left out.
pub mod Connections
use xjp_deploy_agent.Prelude.{
  ltb, if◌then◌else◌, is_some, map_option, ◌==◌, nat_eq, string_eq, ℕ, zero, suc, ◌+◌, String, Bool,
  true, false, Option, none, some, List, [], ◌∷◌,
}
use xjp_deploy_agent.HashMap
use xjp_deploy_agent.HashMap.{HashMap}
use xjp_deploy_agent.Tunnel.{TunnelMessage, connect, connected, connect_failed, payload, close}

pub record BoundClient : Type 0 where
  pub client_id : String
  pub ws_tx : ℕ

-- For each connection the sender of its data, and for each that the client has not confirmed yet
-- the sender of the confirmation.
pub record PortListener : Type 0 where
  pub port : ℕ
  pub name : String
  pub bound_client : Option BoundClient
  pub active_connections : HashMap String ℕ
  pub pending_connections : HashMap String ℕ
  pub is_cancelled : Bool
  pub started : Bool

-- What a listener does to the world: it confirms a connection, passes data on to it, or sends a
-- message to a client.
pub data Effect : Type 0 where
  signals : ℕ → Effect
  forwards : ℕ → List ℕ → Effect
  sends : ℕ → TunnelMessage → Effect

unfoldable pub new : ℕ → String → PortListener
new port name = record {
  port = port;
  name = name;
  bound_client = none;
  active_connections = [];
  pending_connections = [];
  is_cancelled = false;
  started = false;
}

unfoldable pub bind : PortListener → String → ℕ → PortListener
bind l client_id ws_tx = record l {
  bound_client = some (record { client_id = client_id; ws_tx = ws_tx });
}

unfoldable pub is_bound_to : PortListener → String → Bool
is_bound_to l client_id = elim l.bound_client [ none ↦ false | some b ↦ b.client_id == client_id ]

-- The flag says whether the client was bound.
unfoldable pub unbind : PortListener → String → PortListener × Bool
unbind l client_id =
    if is_bound_to l client_id then (record l { bound_client = none }, true) else (l, false)

unfoldable pub bound_client_id : PortListener → Option String
bound_client_id l = map_option (λ (b : BoundClient). b.client_id) l.bound_client

-- `is_open` says which senders still have a receiver; no effect is an error.
unfoldable pub send_to_client : (ℕ → Bool) → PortListener → TunnelMessage → Option Effect
send_to_client is_open l msg = elim l.bound_client [
  | none ↦ none
  | some b ↦ if is_open b.ws_tx then some (sends b.ws_tx msg) else none
]

unfoldable pub as_signal : Option ℕ → List Effect
as_signal none = []
as_signal (some ready_tx) = signals ready_tx ∷ []

unfoldable pub as_forward : Option ℕ → List ℕ → List Effect
as_forward none data_bytes = []
as_forward (some data_tx) data_bytes = forwards data_tx data_bytes ∷ []

unfoldable pub handle_client_message : PortListener → TunnelMessage → PortListener × List Effect
handle_client_message l (connected conn_id) = (
  record l { pending_connections = HashMap.remove l.pending_connections conn_id },
  as_signal (HashMap.get l.pending_connections conn_id),
)
handle_client_message l (connect_failed conn_id error) = (
  record l {
    pending_connections = HashMap.remove l.pending_connections conn_id;
    active_connections = HashMap.remove l.active_connections conn_id;
  },
  [],
)
handle_client_message l (payload conn_id data_bytes) =
    (l, as_forward (HashMap.get l.active_connections conn_id) data_bytes)
handle_client_message l (close conn_id) =
    (record l { active_connections = HashMap.remove l.active_connections conn_id }, [])
handle_client_message l _ = (l, [])

unfoldable pub cleanup_connection : PortListener → String → PortListener
cleanup_connection l conn_id = record l {
  pending_connections = HashMap.remove l.pending_connections conn_id;
  active_connections = HashMap.remove l.active_connections conn_id;
}

-- The first part of `handle_connection`, up to the wait for the client: the connection is entered,
-- and taken out again if the client cannot be asked to connect.
unfoldable pub open_connection :
    (ℕ → Bool) → PortListener → String → ℕ → ℕ → PortListener × List Effect
open_connection is_open l conn_id data_tx ready_tx =
    let entered = record l {
      pending_connections = HashMap.insert l.pending_connections conn_id ready_tx;
      active_connections = HashMap.insert l.active_connections conn_id data_tx;
    } in
    elim (send_to_client is_open entered (connect conn_id l.port)) [
      | some effect ↦ (entered, effect ∷ [])
      | none ↦ (cleanup_connection entered conn_id, [])
    ]

-- A connection is accepted only while a client is bound.
unfoldable pub accept : (ℕ → Bool) → PortListener → String → ℕ → ℕ → PortListener × List Effect
accept is_open l conn_id data_tx ready_tx =
    if is_some l.bound_client then open_connection is_open l conn_id data_tx ready_tx else (l, [])

unfoldable pub shutdown : PortListener → PortListener
shutdown l = record l { is_cancelled = true }

unfoldable pub active_connection_count : PortListener → ℕ
active_connection_count l = HashMap.len l.active_connections

unfoldable pub clear_all_connections : PortListener → PortListener
clear_all_connections l = record l { active_connections = []; pending_connections = [] }

-- The loop that binds the port, from the given number of failed attempts: five retries at most. At
-- most `fuel` rounds; `binds` says which attempt succeeds.
unfoldable pub bind_port : ℕ → (ℕ → Bool) → ℕ → Bool
bind_port zero binds attempts = false
bind_port (suc fuel) binds attempts =
    let again = bind_port fuel binds (attempts + 1) in
    if binds attempts then true else if ltb attempts 5 then again else false

-- No listener is an error.
unfoldable pub start : (ℕ → Bool) → PortListener → Option PortListener
start binds l =
    if l.started
    then some l
    else if bind_port 6 binds 0
    then some (record l { started = true })
    else none
