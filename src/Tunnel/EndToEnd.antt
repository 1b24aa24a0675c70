-- ===== src/Tunnel/EndToEnd.antt =====
-- src/state/port_listener_manager.rs with src/services/tunnel/client.rs: a connection from the public
-- port to the local service.
use xjp_deploy_agent.Prelude.{
  nat_beq, nat_eq, string_eq, find, any, ℕ, String, ◌≡◌, refl, ap, Bool, true, some, List, [], ◌∷◌,
  arith, eq_iff,
}
use xjp_deploy_agent.HashMap
use xjp_deploy_agent.HashMap.Laws.{get-insert_self, get-remove_self}
use xjp_deploy_agent.Tunnel.{PortMapping, connect, connected, payload}
use xjp_deploy_agent.Tunnel.Listener
use xjp_deploy_agent.Tunnel.Listener.{
  PortListener, BoundClient, accept, cleanup_connection, as_signal, as_forward,
}
use xjp_deploy_agent.Tunnel.Listener.Connections.{accept_then_connected}
use xjp_deploy_agent.Tunnel.Client
use xjp_deploy_agent.Tunnel.Client.{
  Session, contains, dials, established, has_read, on_connect, handle_server_message, on_event,
  on_established,
}
use xjp_deploy_agent.Tunnel.Client.Connections.{forward-known}

contains_first : (id : String) (ids : List String) → contains id (id ∷ ids) ≡ true
unfolding contains any
contains_first id ids = ground (arith, eq_iff id id)

module _ (ms : List PortMapping) (m : PortMapping) (s : Session) (id : String) (port : ℕ) where
  handle-connect :
      find (λ (n : PortMapping). nat_beq n.remote_port port) ms ≡ some m
      → handle_server_message ms s (connect id port)
        ≡ (record s { dialing = id ∷ s.dialing }, dials id m.local_host m.local_port ∷ [])
  unfolding handle_server_message on_connect
  handle-connect h = rw (h, on_connect) refl

-- What the tasks of a connection that was just made do.
established-first :
    (s : Session) (id : String) (tx : ℕ)
    → on_event (record s { dialing = id ∷ s.dialing }) (established id tx)
      ≡ on_established (record s { dialing = id ∷ s.dialing }) id tx
unfolding on_event
established-first s id tx = rw (contains_first id s.dialing) refl

-- A connection that arrives at a listener with a client bound that can be reached, for a port that the
-- client maps: the client is asked to connect and connects to the local service of the mapping; once
-- it is made the listener is told and wakes the waiting connection; and then the data that the server
-- sends goes to the local service, and the data of the local service to the public connection.
pub connection_lem :
    (is_open : ℕ → Bool) (l : PortListener) (b : BoundClient) (ms : List PortMapping)
    (m : PortMapping) (s : Session) (id : String) (data_tx ready_tx local_tx : ℕ) (down up : List ℕ)
    → l.bound_client ≡ some b
    → is_open b.ws_tx ≡ true
    → find (λ (n : PortMapping). nat_beq n.remote_port l.port) ms ≡ some m
    → let (l₁, asked) = accept is_open l id data_tx ready_tx in
      let (s₁, dialed) = handle_server_message ms s (connect id l.port) in
      let (s₂, told) = on_event s₁ (established id local_tx) in
      let (l₂, woken) = Listener.handle_client_message l₁ (connected id) in
      (asked ≡ Listener.sends b.ws_tx (connect id l.port) ∷ [])
      × (dialed ≡ dials id m.local_host m.local_port ∷ [])
      × (told ≡ Client.sends (connected id) ∷ [])
      × (woken ≡ Listener.signals ready_tx ∷ [])
      × ((handle_server_message ms s₂ (payload id down)).1 ≡ Client.forwards local_tx down ∷ [])
      × ((on_event s₂ (has_read id up)).1 ≡ Client.sends (payload id up) ∷ [])
      × ((Listener.handle_client_message l₂ (payload id up)).1 ≡ Listener.forwards data_tx up ∷ [])
unfolding on_established on_event
connection_lem is_open l b ms m s id data_tx ready_tx local_tx down up bound reached maps =
    let (asked, waits, woken, gone, back) =
      accept_then_connected is_open l b id data_tx ready_tx up bound reached in
    let s₁ : Session = record s { dialing = id ∷ s.dialing } in
    rw (handle-connect ms m s id l.port maps, established-first s id local_tx)
      (
        asked,
        refl,
        refl,
        woken,
        ap (λ r. r.1)
            (forward-known ms id (on_established s₁ id local_tx).0 local_tx down
              (get-insert_self s.local_connections id local_tx)),
        rw (contains_first id s.reading) refl,
        back,
      )

-- When the listener has given up a connection before the client has made it, the client makes it all the
-- same, enters it and says so; the listener then does nothing, neither for this message nor for the
-- data of the local service, and does not ask the client to close.
pub late_connection :
    (l : PortListener) (s : Session) (id : String) (local_tx : ℕ) (up : List ℕ)
    → let l₁ = cleanup_connection l id in
      let (l₂, woken) = Listener.handle_client_message l₁ (connected id) in
      let (s₂, told) = on_event (record s { dialing = id ∷ s.dialing }) (established id local_tx) in
      (told ≡ Client.sends (connected id) ∷ [])
      × (woken ≡ [])
      × (HashMap.get s₂.local_connections id ≡ some local_tx)
      × ((Listener.handle_client_message l₂ (payload id up)).1 ≡ [])
unfolding cleanup_connection Listener.handle_client_message as_signal as_forward on_established
late_connection l s id local_tx up = rw (established-first s id local_tx) (
  refl,
  rw (get-remove_self l.pending_connections id) refl,
  get-insert_self s.local_connections id local_tx,
  rw (get-remove_self l.active_connections id) refl,
)
