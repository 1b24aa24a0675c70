-- ===== src/Tunnel/Client/Connections.antt =====
-- src/services/tunnel/client.rs: the life of a local connection in a session.
use xjp_deploy_agent.Prelude.{
  nat_beq, Option-cases, ◌==◌, nat_eq, string_eq, find, All, ℕ, String, ◌≡◌, refl, ◌∙◌, subst, inl,
  inr, Bool, true, false, not, Option, none, some, List, [], ◌∷◌, arith,
}
use xjp_deploy_agent.HashMap.{get}
use xjp_deploy_agent.HashMap.Laws.{get-insert, get-remove, get-insert_self}
use xjp_deploy_agent.Tunnel
use xjp_deploy_agent.Tunnel.{PortMapping, TunnelMessage, connect, connected, payload, close}
use xjp_deploy_agent.Tunnel.Client.{
  Session, sends, forwards, Event, established, refused, has_read, has_closed, answered, unanswered,
  contains, on_connect, forward, handle_server_message, on_established, on_event,
}
use xjp_deploy_agent.Tunnel.Client.Run.{
  text, binary, ping, pong, closes, breaks, ends, Arm, is_shut_down, arrives, writes, happens, Next,
  goes, leaves, run_session, Next-cases, on_message, on_text, arm_with, arm,
}

-- The message does not close the connection.
abbrev pub leaves_open : (id : String) → TunnelMessage → Bool
leaves_open id (close j) = not (j == id)
leaves_open id other = true

-- The arm neither closes the connection nor makes it anew.
abbrev pub is_quiet : (id : String) → Arm → Bool
is_quiet id (arrives (text (some msg))) = leaves_open id msg
is_quiet id (arrives (binary (some msg))) = leaves_open id msg
is_quiet id (happens (established j data_tx)) = not (j == id)
is_quiet id (happens (has_closed j)) = not (j == id)
is_quiet id other = true

module _ (ms : List PortMapping) (id : String) where
  -- The sender of the connection's data.
  abbrev sender : Session → Option ℕ
  sender s = get s.local_connections id

  sender-on_connect :
      (s : Session) (j : String) (port : ℕ) → sender (on_connect ms s j port).0 ≡ sender s
  unfolding on_connect
  sender-on_connect s j port =
      elim (Option-cases (find (λ (m : PortMapping). nat_beq m.remote_port port) ms)) [
        | inl e ↦ rw (e, on_connect) refl
        | inr (m, e) ↦ rw (e, on_connect) refl
      ]

  sender-handle_server_message :
      (s : Session) (msg : TunnelMessage)
      → leaves_open id msg ≡ true
      → sender (handle_server_message ms s msg).0 ≡ sender s
  unfolding handle_server_message
  sender-handle_server_message s (Tunnel.config a b) h = refl
  sender-handle_server_message s (Tunnel.connected a) h = refl
  sender-handle_server_message s (Tunnel.connect_failed a b) h = refl
  sender-handle_server_message s (Tunnel.payload a b) h = refl
  sender-handle_server_message s Tunnel.ping h = refl
  sender-handle_server_message s Tunnel.pong h = refl
  sender-handle_server_message s (Tunnel.http_request a b c d e) h = refl
  sender-handle_server_message s (Tunnel.http_response a b c d) h = refl
  sender-handle_server_message s (Tunnel.http_error a b) h = refl
  sender-handle_server_message s (Tunnel.takeover a b c) h = refl
  sender-handle_server_message s (Tunnel.takeover_ready a) h = refl
  sender-handle_server_message s (Tunnel.takeover_complete a) h = refl
  sender-handle_server_message s (Tunnel.takeover_failed a) h = refl
  sender-handle_server_message s (connect j port) h = sender-on_connect s j port
  sender-handle_server_message s (close j) h =
      ground (arith, h, get-remove s.local_connections j id)

  sender-on_event :
      (s : Session) (event : Event)
      → is_quiet id (happens event) ≡ true
      → sender (on_event s event).0 ≡ sender s
  unfolding on_event on_established
  sender-on_event s (established j data_tx) h =
      ground (arith, h, get-insert s.local_connections j id data_tx)
  sender-on_event s (refused j error) h = ground arith
  sender-on_event s (has_read j bytes) h = ground arith
  sender-on_event s (has_closed j) h = ground (arith, h, get-remove s.local_connections j id)
  sender-on_event s (answered j status headers body) h = refl
  sender-on_event s (unanswered j error) h = refl

  -- The loop goes on with the connection as it was, or it ends.
  abbrev Keeps : Session → Next → Type 0
  Keeps s (goes s' actions) = sender s' ≡ sender s
  Keeps s (leaves result) = Unit

  on_text-Keeps :
      (s : Session) (msg : TunnelMessage)
      → leaves_open id msg ≡ true
      → Keeps s (on_text ms s (some msg))
  unfolding on_text on_message
  on_text-Keeps s (Tunnel.takeover_complete a) h = tt
  on_text-Keeps s (Tunnel.config a b) h = sender-handle_server_message s (Tunnel.config a b) h
  on_text-Keeps s (Tunnel.connect a b) h = sender-handle_server_message s (Tunnel.connect a b) h
  on_text-Keeps s (Tunnel.connected a) h = sender-handle_server_message s (Tunnel.connected a) h
  on_text-Keeps s (Tunnel.connect_failed a b) h =
      sender-handle_server_message s (Tunnel.connect_failed a b) h
  on_text-Keeps s (Tunnel.payload a b) h = sender-handle_server_message s (Tunnel.payload a b) h
  on_text-Keeps s (Tunnel.close a) h = sender-handle_server_message s (Tunnel.close a) h
  on_text-Keeps s Tunnel.ping h = sender-handle_server_message s Tunnel.ping h
  on_text-Keeps s Tunnel.pong h = sender-handle_server_message s Tunnel.pong h
  on_text-Keeps s (Tunnel.http_request a b c d e) h =
      sender-handle_server_message s (Tunnel.http_request a b c d e) h
  on_text-Keeps s (Tunnel.http_response a b c d) h =
      sender-handle_server_message s (Tunnel.http_response a b c d) h
  on_text-Keeps s (Tunnel.http_error a b) h =
      sender-handle_server_message s (Tunnel.http_error a b) h
  on_text-Keeps s (Tunnel.takeover a b c) h =
      sender-handle_server_message s (Tunnel.takeover a b c) h
  on_text-Keeps s (Tunnel.takeover_ready a) h =
      sender-handle_server_message s (Tunnel.takeover_ready a) h
  on_text-Keeps s (Tunnel.takeover_failed a) h =
      sender-handle_server_message s (Tunnel.takeover_failed a) h

  arm-Keeps : (s : Session) (a : Arm) → is_quiet id a ≡ true → Keeps s (arm ms s a)
  unfolding arm arm_with on_text on_message
  arm-Keeps s is_shut_down h = tt
  arm-Keeps s (arrives (text none)) h = refl
  arm-Keeps s (arrives (text (some msg))) h = on_text-Keeps s msg h
  arm-Keeps s (arrives (binary none)) h = refl
  arm-Keeps s (arrives (binary (some msg))) h = sender-handle_server_message s msg h
  arm-Keeps s (arrives ping) h = refl
  arm-Keeps s (arrives pong) h = refl
  arm-Keeps s (arrives closes) h = tt
  arm-Keeps s (arrives (breaks error)) h = tt
  arm-Keeps s (arrives ends) h = tt
  arm-Keeps s (writes true) h = refl
  arm-Keeps s (writes false) h = tt
  arm-Keeps s (happens event) h = sender-on_event s event h

  run_session-keeps :
      (s : Session) (arms : List Arm)
      → All (λ a. is_quiet id a ≡ true) arms
      → sender (run_session (arm ms) s arms).0 ≡ sender s
  unfolding run_session
  run_session-keeps s [] q = refl
  run_session-keeps s (a ∷ arms) q = elim (Next-cases (arm ms s a)) [
    | inl (result, e) ↦ ground (arith, e)
    | inr (s', actions, e) ↦
        ground (arith, e, run_session-keeps s' arms q.1, subst (Keeps s) e (arm-Keeps s a q.0))
  ]

  pub forward-known :
      (s : Session) (data_tx : ℕ) (bytes : List ℕ)
      → sender s ≡ some data_tx
      → handle_server_message ms s (payload id bytes) ≡ (s, forwards data_tx bytes ∷ [])
  unfolding handle_server_message forward
  forward-known s data_tx bytes h = ground (arith, h)

  -- Once a local connection that was asked for is made, the server is told of it, and from then on, until
  -- it is closed at either end or made anew, whatever else the session does, the data that the server
  -- sends for it goes to it.
  pub established_then_forwarded :
      (s : Session) (data_tx : ℕ) (arms : List Arm) (bytes : List ℕ)
      → contains id s.dialing ≡ true
      → All (λ a. is_quiet id a ≡ true) arms
      → let (s₁, told) = on_event s (established id data_tx) in
        let s₂ = (run_session (arm ms) s₁ arms).0 in
        (told ≡ sends (connected id) ∷ [])
        × (handle_server_message ms s₂ (payload id bytes) ≡ (s₂, forwards data_tx bytes ∷ []))
  unfolding on_event on_established
  established_then_forwarded s data_tx arms bytes asked q =
      let s₁ = (on_established s id data_tx).0 in
      rw (asked) (
        refl,
        forward-known (run_session (arm ms) s₁ arms).0 data_tx bytes
            (run_session-keeps s₁ arms q ∙ get-insert_self s.local_connections id data_tx),
      )
