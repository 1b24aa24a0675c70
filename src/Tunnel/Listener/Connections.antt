-- ===== src/Tunnel/Listener/Connections.antt =====
-- The life of one connection at a listener.
use xjp_deploy_agent.Prelude.{
  nat_eq, string_eq, ℕ, String, ◌≡◌, refl, ap, Bool, true, ◌||◌, Option, none, some, List, [], ◌∷◌,
  arith, eq_iff,
}
use xjp_deploy_agent.HashMap
use xjp_deploy_agent.HashMap.Laws.{get-insert, get-remove, get-insert_self, get-remove_self}
use xjp_deploy_agent.Tunnel.{connect, connected, connect_failed, payload}
use xjp_deploy_agent.Tunnel.Listener.{
  PortListener, BoundClient, signals, forwards, sends, handle_client_message, as_signal, as_forward,
  open_connection, accept, send_to_client, cleanup_connection, bind_port,
}

-- What the table of a listener says of a connection.
abbrev pub active : PortListener → String → Option ℕ
active l id = HashMap.get l.active_connections id

abbrev pub pending : PortListener → String → Option ℕ
pending l id = HashMap.get l.pending_connections id

-- Accepting a connection while the bound client can be reached asks that client, and no other, to
-- connect, and enters the connection as unconfirmed; the client's confirmation then wakes exactly
-- this connection, and the data that the client sends for it afterwards goes to its sender.
pub accept_then_connected :
    (is_open : ℕ → Bool) (l : PortListener) (b : BoundClient) (id : String) (data_tx ready_tx : ℕ)
    (bytes : List ℕ)
    → l.bound_client ≡ some b
    → is_open b.ws_tx ≡ true
    → let (l₁, asked) = accept is_open l id data_tx ready_tx in
      let (l₂, woken) = handle_client_message l₁ (connected id) in
      (asked ≡ sends b.ws_tx (connect id l.port) ∷ [])
      × (pending l₁ id ≡ some ready_tx)
      × (woken ≡ signals ready_tx ∷ [])
      × (pending l₂ id ≡ none)
      × ((handle_client_message l₂ (payload id bytes)).1 ≡ forwards data_tx bytes ∷ [])
unfolding accept open_connection send_to_client handle_client_message as_signal as_forward
accept_then_connected is_open l b id data_tx ready_tx bytes bound reached =
    rw (bound, reached, accept, open_connection)
      (
        refl,
        get-insert_self l.pending_connections id ready_tx,
        ap as_signal (get-insert_self l.pending_connections id ready_tx),
        get-remove_self _ id,
        ap (λ o. as_forward o bytes) (get-insert_self l.active_connections id data_tx),
      )

-- Entering a key that is not there and taking it out again changes no lookup.
remove_entered :
    (t : HashMap.HashMap String ℕ) (id j : String) (v : ℕ)
    → HashMap.get t id ≡ none
    → HashMap.get (HashMap.remove (HashMap.insert t id v) id) j ≡ HashMap.get t j
remove_entered t id j v fresh =
    ground (arith, get-remove (HashMap.insert t id v) id j, get-insert t id j v, eq_iff id j, fresh)

-- A connection with a new id that cannot be made, because no client is bound, the client is
-- gone, or the client reports a failure, leaves no trace in the tables, and the other
-- connections are as before.
pub failed_connection :
    (is_open : ℕ → Bool) (l : PortListener) (id j error : String) (data_tx ready_tx : ℕ)
    → active l id ≡ none
    → pending l id ≡ none
    → let l₁ = (accept is_open l id data_tx ready_tx).0 in
      let l₂ = (handle_client_message l₁ (connect_failed id error)).0 in
      (active l₂ j ≡ active l j) × (pending l₂ j ≡ pending l j)
unfolding accept open_connection send_to_client handle_client_message cleanup_connection
failed_connection is_open l id j error data_tx ready_tx fresh_active fresh_pending = ground (
  arith,
  eq_iff id j,
  fresh_active,
  fresh_pending,
  get-remove l.active_connections id j,
  get-remove l.pending_connections id j,
  remove_entered l.active_connections id j data_tx fresh_active,
  remove_entered l.pending_connections id j ready_tx fresh_pending,
  get-remove (HashMap.remove (HashMap.insert l.active_connections id data_tx) id) id j,
  get-remove (HashMap.remove (HashMap.insert l.pending_connections id ready_tx) id) id j,
)

-- The port is bound exactly if one of the first six attempts succeeds.
pub bind_port_iff :
    (binds : ℕ → Bool)
    → bind_port 6 binds 0 ≡ (binds 0 || binds 1 || binds 2 || binds 3 || binds 4 || binds 5)
unfolding bind_port
bind_port_iff binds = ground arith
