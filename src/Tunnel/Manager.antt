-- ===== src/Tunnel/Manager.antt =====
-- src/state/port_listener_manager.rs: the manager of the port listeners, which binds them to the
-- clients.
pub mod Binding
pub mod Takeover
use xjp_deploy_agent.Prelude.{
  ltb, nat_beq, if◌then◌else◌, nat_eq, string_eq, ℕ, ◌+◌, String, Bool, true, false, not, ◌&&◌,
  Option, none, some, List, [], ◌∷◌, ◌++◌,
}
use xjp_deploy_agent.HashMap
use xjp_deploy_agent.HashMap.{HashMap}
use xjp_deploy_agent.Tunnel.{PortMapping, TunnelMessage}
use xjp_deploy_agent.Tunnel.Listener
use xjp_deploy_agent.Tunnel.Listener.{PortListener, Effect}

abbrev pub PortListenerManager : Type 0
PortListenerManager = HashMap ℕ PortListener

-- An operation that can stop at an error keeps what it did before.
pub data Stops (E A : Type 0) : Type 0 where
  ok : A → Stops E A
  err : E → Stops E A

-- `binds port attempt` says whether that attempt to bind the port succeeds. No listener is an error.
unfoldable pub ensure_listener :
    (ℕ → ℕ → Bool) → PortListenerManager → ℕ → String → PortListenerManager × Bool
ensure_listener binds m port name =
    if HashMap.contains_key m port
    then (m, true)
    else elim (Listener.start (binds port) (Listener.new port name)) [
      | none ↦ (m, false)
      | some listener ↦ (HashMap.insert m port listener, true)
    ]

unfoldable pub get_listener : PortListenerManager → ℕ → Option PortListener
get_listener m port = HashMap.get m port

-- The flag says whether all ports are bound; the loop stops at the first that cannot be.
unfoldable pub bind_ports_for_client :
    (ℕ → ℕ → Bool)
    → PortListenerManager
    → String
    → List PortMapping
    → ℕ
    → PortListenerManager × Bool
bind_ports_for_client binds m client_id [] ws_tx = (m, true)
bind_ports_for_client binds m client_id (mapping ∷ mappings) ws_tx =
    let (ensured, is_there) = ensure_listener binds m mapping.remote_port mapping.name in
    let bound = HashMap.modify ensured mapping.remote_port (λ l. Listener.bind l client_id ws_tx) in
    let rest = bind_ports_for_client binds bound client_id mappings ws_tx in
    if is_there then rest else (ensured, false)

unfoldable pub unbind_client : PortListenerManager → String → PortListenerManager
unbind_client m client_id = HashMap.map_values (λ port l. (Listener.unbind l client_id).0) m

unfoldable pub get_client_ports : PortListenerManager → String → List ℕ
get_client_ports [] client_id = []
get_client_ports ((port, l) ∷ m) client_id =
    if Listener.is_bound_to l client_id
    then port ∷ get_client_ports m client_id
    else get_client_ports m client_id

-- The message goes to every listener that is bound to the client.
unfoldable pub handle_client_message :
    PortListenerManager → String → TunnelMessage → PortListenerManager × List Effect
handle_client_message [] client_id msg = ([], [])
handle_client_message ((port, l) ∷ m) client_id msg =
    let (handled, effects) = Listener.handle_client_message l msg in
    let (rest, others) = handle_client_message m client_id msg in
    if Listener.is_bound_to l client_id
    then ((port, handled) ∷ rest, effects ++ others)
    else ((port, l) ∷ rest, others)

unfoldable pub shutdown_all : PortListenerManager → PortListenerManager
shutdown_all m = HashMap.map_values (λ port l. Listener.shutdown l) m

-- A listener that the client holds already loses its connections, which the new process cannot
-- serve; any other is bound all the same.
unfoldable pub switch_one : PortListener → String → ℕ → PortListener
switch_one l client_id new_ws_tx =
    if Listener.is_bound_to l client_id
    then if ltb 0 (Listener.active_connection_count l)
      then Listener.bind (Listener.clear_all_connections l) client_id new_ws_tx
      else Listener.bind l client_id new_ws_tx
    else Listener.bind l client_id new_ws_tx

-- The loop over the mappings, with the number of ports switched so far.
unfoldable pub switch_all :
    PortListenerManager → String → ℕ → List PortMapping → ℕ → PortListenerManager × ℕ
switch_all m client_id new_ws_tx [] switched = (m, switched)
switch_all m client_id new_ws_tx (mapping ∷ mappings) switched =
    let port = mapping.remote_port in
    let bound = HashMap.modify m port (λ l. switch_one l client_id new_ws_tx) in
    let counted = if HashMap.contains_key m port then switched + 1 else switched in
    switch_all bound client_id new_ws_tx mappings counted

unfoldable pub is_empty_list : {A : Type 0} → List A → Bool
is_empty_list [] = true
is_empty_list (x ∷ xs) = false

unfoldable pub switch_client_binding :
    PortListenerManager → String → ℕ → List PortMapping → PortListenerManager × Stops String ℕ
switch_client_binding m client_id new_ws_tx mappings =
    let (bound, switched) = switch_all m client_id new_ws_tx mappings 0 in
    if nat_beq switched 0 && not (is_empty_list mappings)
    then (bound, err "No ports were switched")
    else (bound, ok switched)

unfoldable pub is_client_bound : PortListenerManager → String → ℕ → Bool
is_client_bound m client_id port = elim (get_listener m port) [
  | none ↦ false
  | some l ↦ Listener.is_bound_to l client_id
]
