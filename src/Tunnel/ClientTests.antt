-- ===== src/Tunnel/ClientTests.antt =====
-- The theorems on the tunnel's client at concrete inputs.
use xjp_deploy_agent.Prelude.{
  nat_eq, string_eq, find, ◌%◌, ◌≡◌, refl, true, false, none, some, [], ◌∷◌,
}
use xjp_deploy_agent.Tunnel.{PortMapping, connect, connected, payload}
use xjp_deploy_agent.Tunnel.Listener
use xjp_deploy_agent.Tunnel.Listener.{PortListener, BoundClient, accept, cleanup_connection}
use xjp_deploy_agent.Tunnel.EndToEnd.{connection_lem}
use xjp_deploy_agent.Tunnel.Client.{
  takeover_complete, new_session, dials, sends, forwards, established, has_read,
  handle_server_message, on_event, new,
}
use xjp_deploy_agent.Tunnel.Client.Run.{
  ping, await_takeover, reply, reply_of, unconnected, ended, Round, exits, ends_loop, start,
}
use xjp_deploy_agent.Tunnel.Client.Reconnect.{start_lem}
use xjp_deploy_agent.Tunnel.Client.Takeover.{ready}

abbrev web : PortMapping
web = record { remote_port = 8080; local_host = "127.0.0.1"; local_port = 80; name = "web" }

abbrev agent : BoundClient
agent = record { client_id = "home"; ws_tx = 1 }

abbrev public_port : PortListener
public_port = record {
  port = 8080;
  name = "web";
  bound_client = some agent;
  active_connections = [];
  pending_connections = [];
  is_cancelled = false;
  started = true;
}

connection_lem_example :
    let (l₁, asked) = accept (λ tx. true) public_port "c1" 4 5 in
    let (s₁, dialed) = handle_server_message (web ∷ []) new_session (connect "c1" 8080) in
    let (s₂, told) = on_event s₁ (established "c1" 7) in
    let (l₂, woken) = Listener.handle_client_message l₁ (connected "c1") in
    (asked ≡ Listener.sends 1 (connect "c1" 8080) ∷ [])
    × (dialed ≡ dials "c1" "127.0.0.1" 80 ∷ [])
    × (told ≡ sends (connected "c1") ∷ [])
    × (woken ≡ Listener.signals 5 ∷ [])
    × ((handle_server_message (web ∷ []) s₂ (payload "c1" (1 ∷ []))).1 ≡ forwards 7 (1 ∷ []) ∷ [])
    × ((on_event s₂ (has_read "c1" (2 ∷ []))).1 ≡ sends (payload "c1" (2 ∷ [])) ∷ [])
    × ((Listener.handle_client_message l₂ (payload "c1" (2 ∷ []))).1
        ≡ Listener.forwards 4 (2 ∷ []) ∷ [])
unfolding find
connection_lem_example =
    connection_lem (λ tx. true) public_port agent (web ∷ []) web new_session "c1" 4 5 7 (1 ∷ [])
      (2 ∷ []) refl refl refl

abbrev fails_to_connect : Round
fails_to_connect = record {
  shut_before = false;
  ran = unconnected "refused";
  connected_at = 0;
  shut_after = false;
  shut_in_delay = false;
}

abbrev taken_over : Round
taken_over = record fails_to_connect { ran = ended takeover_complete }

start_lem_example :
    ((start (web ∷ []) (fails_to_connect ∷ fails_to_connect ∷ []) new).1 ≡ none)
    × ((start (web ∷ []) (fails_to_connect ∷ fails_to_connect ∷ []) new).0.reconnect_count
          % 4294967296
        ≡ 2)
    × ((start (web ∷ []) (fails_to_connect ∷ fails_to_connect ∷ taken_over ∷ []) new).1
        ≡ some exits)
    × ((start
          (web ∷ [])
          (fails_to_connect ∷ fails_to_connect ∷ taken_over ∷ [])
          new).0.reconnect_count
        ≡ (start (web ∷ []) (fails_to_connect ∷ fails_to_connect ∷ []) new).0.reconnect_count)
unfolding ends_loop new
start_lem_example =
    start_lem web [] (fails_to_connect ∷ fails_to_connect ∷ []) [] taken_over new exits
      ((refl, refl, refl, refl), ((refl, refl, refl, refl), tt)) refl refl

await_run : await_takeover "s2" (ready "s1" ∷ ping ∷ ready "s2" ∷ []) ≡ none
unfolding await_takeover reply reply_of
await_run = refl
