-- ===== src/Tunnel/Server/Connect.antt =====
-- src/services/tunnel/server.rs: `run_server`, one function for each arm of its loop. A message
-- comes parsed; one that cannot be parsed is ignored.
use xjp_deploy_agent.Prelude.{
  if◌then◌else◌, is_some, nat_eq, string_eq, ℕ, String, Bool, Option, none, some, List, [], ◌∷◌,
}
use xjp_deploy_agent.HashMap
use xjp_deploy_agent.Tunnel.{
  PortMapping, TunnelMessage, config, takeover, takeover_ready, takeover_complete, takeover_failed,
}
use xjp_deploy_agent.Tunnel.Manager
use xjp_deploy_agent.Tunnel.Manager.{PortListenerManager, Stops, ok, err}
use xjp_deploy_agent.Tunnel.Server.{
  ClientState, new, TunnelServerState, add_client, remove_client, has_client, Server, Action, says,
  Connection, handle_client_message,
}

-- The state after a step, the connection's variables and what was sent.
pub record Stepped : Type 0 where
  pub server : Server
  pub connection : Connection
  pub actions : List Action

abbrev pub stays : Server → Connection → Stepped
stays s c = record { server = s; connection = c; actions = [] }

-- The client as it is registered, before its ports are bound.
unfoldable pub registered :
    TunnelServerState → Connection → String → List PortMapping → TunnelServerState
registered s c cid mappings =
    add_client (if has_client s cid then remove_client s cid else s)
      (record (new cid c.client_addr c.msg_tx) { mappings = mappings })

-- A client whose ports cannot all be bound is taken out again.
unfoldable pub on_config :
    (ℕ → ℕ → Bool) → Server → Connection → String → List PortMapping → Stepped
on_config binds s c cid mappings =
    let added = registered s.state c cid mappings in
    let (ports, all_bound) = Manager.bind_ports_for_client binds s.ports cid mappings c.msg_tx in
    if is_some c.client_id
    then stays s c
    else if all_bound
    then stays (record { state = added; ports = ports }) (record c { client_id = some cid })
    else stays (record { state = remove_client added cid; ports = ports })
        (record c { client_id = none })

-- The client's entry after a takeover: the old one on the new connection, or a new one.
unfoldable pub taken_over :
    TunnelServerState → Connection → String → List PortMapping → TunnelServerState
taken_over s c cid mappings =
    if has_client s cid
    then record s {
      clients = HashMap.modify s.clients cid (λ (client : ClientState). record client {
        ws_tx = c.msg_tx;
        client_addr = c.client_addr;
      });
    }
    else add_client s (record (new cid c.client_addr c.msg_tx) { mappings = mappings })

unfoldable pub tell_old : Option ClientState → String → List Action
tell_old none new_session_id = []
tell_old (some old) new_session_id = says old.ws_tx (takeover_complete new_session_id) ∷ []

unfoldable pub switched_over :
    Server
    → Connection
    → String
    → List PortMapping
    → String
    → PortListenerManager × Stops String ℕ
    → Stepped
switched_over s c cid mappings new_session_id (ports, ok switched) = record {
  server = record { state = taken_over s.state c cid mappings; ports = ports };
  connection = record c { client_id = some cid };
  actions =
      says c.msg_tx (takeover_ready new_session_id)
      ∷ tell_old (HashMap.get s.state.clients cid) new_session_id;
}
switched_over s c cid mappings new_session_id (ports, err e) = record {
  server = record s { ports = ports };
  connection = c;
  actions = says c.msg_tx (takeover_failed e) ∷ [];
}

unfoldable pub on_takeover : Server → Connection → String → List PortMapping → String → Stepped
on_takeover s c cid mappings new_session_id =
    if is_some c.client_id
    then stays s c
    else switched_over s c cid mappings new_session_id
        (Manager.switch_client_binding s.ports cid c.msg_tx mappings)

unfoldable pub passed_on : Server → Connection → TunnelMessage → Option String → Stepped
passed_on s c msg none = stays s c
passed_on s c msg (some cid) =
    let (server, actions) = handle_client_message s msg cid in
    record { server = server; connection = c; actions = actions }

unfoldable pub on_text : (ℕ → ℕ → Bool) → Server → Connection → TunnelMessage → Stepped
on_text binds s c (config cid mappings) = on_config binds s c cid mappings
on_text binds s c (takeover cid mappings new_session_id) =
    on_takeover s c cid mappings new_session_id
on_text binds s c msg = passed_on s c msg c.client_id

-- A binary message never registers a client.
unfoldable pub on_binary : Server → Connection → TunnelMessage → Stepped
on_binary s c msg = passed_on s c msg c.client_id

unfoldable pub on_disconnect : Server → Connection → Server
on_disconnect s c = elim c.client_id [
  | none ↦ s
  | some cid ↦ record {
    state = remove_client s.state cid;
    ports = Manager.unbind_client s.ports cid;
  }
]
