-- ===== src/Tunnel.antt =====
-- src/domain/tunnel.rs: the port mappings and the messages of the tunnel between an agent with a
-- public address (the server) and those behind it (the clients). Payloads are lists of bytes; what a
-- channel's sender sends to is its identity, a number.
pub mod Mappings
pub mod Listener
pub mod Manager
pub mod Server
pub mod EndToEnd
pub mod Client
mod Tests
mod ClientTests
use xjp_deploy_agent.Prelude.{ℕ, String, Option, List}

pub record PortMapping : Type 0 where
  pub remote_port : ℕ
  pub local_host : String
  pub local_port : ℕ
  pub name : String

pub data TunnelMessage : Type 0 where
  config : (client_id : String) → List PortMapping → TunnelMessage
  connect : (conn_id : String) (remote_port : ℕ) → TunnelMessage
  connected : (conn_id : String) → TunnelMessage
  connect_failed : (conn_id error : String) → TunnelMessage
  payload : (conn_id : String) → List ℕ → TunnelMessage
  close : (conn_id : String) → TunnelMessage
  ping pong : TunnelMessage
  http_request :
      (request_id method path : String) → List (String × String) → Option (List ℕ) → TunnelMessage
  http_response :
      (request_id : String) (status : ℕ) → List (String × String) → Option (List ℕ) → TunnelMessage
  http_error : (request_id error : String) → TunnelMessage
  takeover : (client_id : String) → List PortMapping → (new_session_id : String) → TunnelMessage
  takeover_ready : (session_id : String) → TunnelMessage
  takeover_complete : (new_session_id : String) → TunnelMessage
  takeover_failed : (error : String) → TunnelMessage
